-- ===== src/Payment/Host.antt =====
-- What surrounds a call of the payment chaincode and is not in the repository: encoding/json, and
-- the peer's stub with the transaction that it runs.
use kufi_chain.Prelude.{String, ◌≡◌, Bool, Option, some, List}
use kufi_chain.Prelude.Int.{ℤ}
use kufi_chain.Prelude.Dict.{Dict}
use kufi_chain.Payment.Types.{TransferIntent, TransferDetails, Value, Timestamp}

-- encoding/json on the types of the chaincode. Marshalling structs of texts and integers returns no
-- error, so its error branches are left out; a marshalled intent reads back as it was.
pub record Json : Type 1 where
  pub Bytes : Type 0
  pub Float : Type 0
  pub truncate : Float → ℤ
  pub marshal_intent : TransferIntent → Bytes
  pub unmarshal_intent : Bytes → Option TransferIntent
  pub marshal_details : TransferDetails → Bytes
  pub unmarshal_map : Bytes → Option (Dict (Value Float))
  pub is_empty : Bytes → Bool
  pub empty_array : Bytes
  pub marshal_array : List Bytes → Bytes
  pub unmarshal-marshal : (i : TransferIntent) → unmarshal_intent (marshal_intent i) ≡ some i

pub record Event : Type 0 where
  pub name : String
  pub payload : Dict String

-- The world state that the chaincode sees and the writes that it makes. No function reads a key
-- after writing it, so reads of the committed state and reads of this record agree.
pub record Ledger (Bytes : Type 0) : Type 0 where
  pub state : Dict Bytes
  pub private_data : Dict (Dict Bytes)
  pub event : Option Event

-- One transaction: its proposal, and which calls of the stub the peer fails. `transient` is the
-- transient map in the order in which Go's `range` happens to visit it.
pub record Tx (Bytes : Type 0) : Type 0 where
  pub tx_id : String
  pub client_msp : Option String
  pub timestamp : Option Timestamp
  pub transient : Option (Dict Bytes)
  pub get_state_fails : String → Bool
  pub put_state_fails : String → Bool
  pub get_private_fails : String → String → Bool
  pub put_private_fails : String → String → Bool
  pub set_event_fails : Bool
  pub query_result : String → Option (List (Option Bytes))
