-- ===== src/Fabric/Host.antt =====
-- What internal/fabric calls and does not implement: strings, float64, protobuf, encoding/asn1,
-- encoding/hex, crypto/x509, and the client of the Fabric gateway.
use kufi_chain.Prelude.{ℕ, String, Bool, Option, List}
use kufi_chain.Prelude.Int.{ℤ, pos, ◌≤ℤ◌}

-- float64 as the backoff uses it. `capped` is the rounding of the conversions: below 2^53 an integer
-- is kept, and truncating the smaller of two numbers does not exceed either.
pub record Float64 : Type 1 where
  pub Float : Type 0
  pub from_int : ℤ → Float
  pub truncate : Float → ℤ
  pub times : Float → Float → Float
  pub minimum : Float → Float → Float
  pub is_positive : Float → Bool
  pub two : Float
  pub capped :
      (x : Float) (m : ℤ)
      → pos 0 ≤ℤ m
      → m ≤ℤ pos 9007199254740992
      → truncate (minimum x (from_int m)) ≤ℤ m

-- One field of a protobuf message each: `none` is an error of `proto.Unmarshal`.
pub record Proto : Type 1 where
  pub Bytes : Type 0
  pub envelope_payload : Bytes → Option Bytes
  pub payload_data : Bytes → Option Bytes
  pub transaction_actions : Bytes → Option (List Bytes)
  -- The endorsements of the action, each with its endorser and its signature; the inner `none` is
  -- an action that is nil.
  pub action_endorsements : Bytes → Option (Option (List (Bytes × String)))
  pub identity : Bytes → Option (String × String)

-- An error of the gateway: one that carries no status, or a status with its details.
pub data Detail : Type 0 where
  error_detail : String → String → String → Detail
  other_detail : String → Detail

pub data GatewayError : Type 0 where
  plain : String → GatewayError
  status : String → List Detail → GatewayError

-- What the network answers to one round of proposal, endorsement, submission and commit.
pub record Round (Bytes : Type 0) : Type 0 where
  pub proposal_error : Option String
  pub endorse_error : Option GatewayError
  pub submit_error : Option String
  pub status_error : Option String
  pub successful : Bool
  pub code : ℤ
  pub block_number : ℕ
  pub tx_id : String
  pub now : ℤ
  pub result : String
  pub envelope : Option Bytes
