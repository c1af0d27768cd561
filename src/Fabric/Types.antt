-- ===== src/Fabric/Types.antt =====
-- The records of internal/fabric/client.go and query.go. Certificates and signatures are byte
-- strings, which are texts here.
use kufi_chain.Prelude.{ℕ, String, Bool, Option, List}
use kufi_chain.Prelude.Int.{ℤ}
use kufi_chain.Prelude.Dict.{Dict}

pub record Endorsement : Type 0 where
  pub msp_id : String
  pub signature : String
  pub certificate : String
  pub timestamp : ℤ
  pub signature_valid : Bool
  pub cert_chain_valid : Bool

pub record SubmitResult : Type 0 where
  pub tx_id : String
  pub block_number : ℕ
  pub validation_code : ℤ
  pub endorsements : List Endorsement
  pub commit_timestamp : ℤ
  pub payload : String

pub record EndorsementInfo : Type 0 where
  pub msp_id : String
  pub signature : String
  pub certificate : String

pub record BlockInfo : Type 0 where
  pub block_number : ℕ
  pub block_hash : String
  pub previous_hash : String
  pub data_hash : String
  pub tx_count : ℕ
  pub timestamp : ℤ

pub record TransactionInfo : Type 0 where
  pub tx_id : String
  pub validation_code : ℤ
  pub block_number : ℕ
  pub tx_index : ℤ
  pub channel_id : String
  pub chaincode_id : String
  pub endorsements : List EndorsementInfo
  pub creator_msp_id : String
  pub creator_cert : String
  pub timestamp : ℤ

-- `RetryConfig`; times are in nanoseconds.
pub record RetryConfig (Float : Type 0) : Type 0 where
  pub max_attempts : ℤ
  pub initial_backoff : ℤ
  pub max_backoff : ℤ
  pub backoff_multiplier : Float

-- What `NewProposal` is given; `none` leaves the choice of the endorsers to the network.
pub record Proposal : Type 0 where
  pub function : String
  pub arguments : List String
  pub transient : Dict String
  pub endorsing_orgs : Option (List String)
