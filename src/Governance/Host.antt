-- ===== src/Governance/Host.antt =====
-- What surrounds a call of the governance chaincode and is not in the repository: encoding/json,
-- and the peer's stub with the transaction that it runs.
use kufi_chain.Prelude.{String, ◌≡◌, Bool, Option, some, List}
use kufi_chain.Prelude.Int.{ℤ}
use kufi_chain.Prelude.Dict.{Dict}
use kufi_chain.Governance.Types.{JoinRequest, VoteRecord, GovernancePolicy, OrgEntry}

-- encoding/json on the records: what was marshalled reads back as it was. `unmarshal_policy` is
-- what `json.Unmarshal` leaves in the variable, also where it returns an error, which the code drops.
pub record Json : Type 1 where
  pub Bytes : Type 0
  pub marshal_request : JoinRequest → Bytes
  pub unmarshal_request : Bytes → Option JoinRequest
  pub marshal_vote : VoteRecord → Bytes
  pub unmarshal_vote : Bytes → Option VoteRecord
  pub marshal_policy : GovernancePolicy → Bytes
  pub unmarshal_policy : Bytes → GovernancePolicy
  pub marshal_org : OrgEntry → Bytes
  pub unmarshal_orgs : String → Option (List OrgEntry)
  pub unmarshal-marshal_request : (r : JoinRequest) → unmarshal_request (marshal_request r) ≡ some r
  pub unmarshal-marshal_policy : (p : GovernancePolicy) → unmarshal_policy (marshal_policy p) ≡ p

-- The keys of the chaincode. Composite keys of different object types never meet.
pub data Key : Type 0 where
  policy_key : Key
  request_key : String → Key
  vote_key : String → String → Key
  org_key : String → Key

-- The world state, one map for each object type, and the writes made so far. No function reads
-- a key after writing it.
pub record World (Bytes : Type 0) : Type 0 where
  pub policy : Option Bytes
  pub requests : Dict Bytes
  pub votes : Dict (Dict Bytes)
  pub orgs : Dict Bytes
  pub event : Option (String × Bytes)

-- One transaction, and which calls of the stub fail. `clock` is the peer's own, read only where
-- the transaction has no timestamp, and stands still during a call.
pub record Tx : Type 0 where
  pub tx_id : String
  pub client_msp : Option String
  pub timestamp : Option ℤ
  pub clock : ℤ
  pub key_fails : Key → Bool
  pub get_fails : Key → Bool
  pub put_fails : Key → Bool
  pub requests_range_fails : Bool
  pub orgs_range_fails : Bool
