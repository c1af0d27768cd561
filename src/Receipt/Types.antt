-- ===== src/Receipt/Types.antt =====
-- The records of internal/receipt/receipt.go and verify.go.
use kufi_chain.Prelude.{ℕ, String, Bool, Option, List}
use kufi_chain.Prelude.Int.{ℤ}

pub record TransferCommitment : Type 0 where
  pub channel_id : String
  pub chaincode_id : String
  pub function : String
  pub from_id : String
  pub to_id : String
  pub amount_vnd : ℤ
  pub internal_ref : String
  pub timestamp : ℤ
  pub nonce : String

pub record ObservationMeta : Type 0 where
  pub observed_at : ℤ
  pub anchor_type : String
  pub anchor_ref : String

pub record EndorsementRecord : Type 0 where
  pub msp_id : String
  pub endorser_id : String
  pub cert_fingerprint : String
  pub certificate_pem : String
  pub signature_hex : String
  pub timestamp : ℤ
  pub signature_valid : Bool
  pub cert_chain_valid : Bool

pub record ReceiptTimestamps : Type 0 where
  pub client_submit : ℤ
  pub endorsement_time : ℤ
  pub orderer_receive : ℤ
  pub block_commit : ℤ
  pub receipt_created : ℤ

pub record Receipt : Type 0 where
  pub schema_version : String
  pub channel_id : String
  pub tx_id : String
  pub chaincode_id : String
  pub commitment_hash : String
  pub commitment_opening : Option TransferCommitment
  pub commitment_algorithm : String
  pub block_number : ℕ
  pub block_hash : String
  pub tx_index : ℤ
  pub validation_code : ℤ
  pub validation_code_name : String
  pub endorsements : List EndorsementRecord
  pub origin_msp_id : String
  pub policy_id : String
  pub policy_met : Bool
  pub timestamps : ReceiptTimestamps
  pub status_endpoint : String
  pub observation : ObservationMeta
  pub internal_ref : String
  pub receipt_signature : String
  pub receipt_hash : String

-- The anonymous struct that `ComputeReceiptHash` hashes.
pub record HashData : Type 0 where
  pub schema_version : String
  pub channel_id : String
  pub tx_id : String
  pub commitment_hash : String
  pub commitment_opening : Option TransferCommitment
  pub commitment_algorithm : String
  pub block_number : ℕ
  pub block_hash : String
  pub validation_code : ℤ
  pub endorsements : List EndorsementRecord
  pub origin_msp_id : String
  pub policy_id : String
  pub policy_met : Bool
  pub timestamps : ReceiptTimestamps
  pub observation : ObservationMeta

pub record EndorsementInput : Type 0 where
  pub msp_id : String
  pub endorser_id : String
  pub cert_pem : String
  pub signature : String
  pub timestamp : ℤ
  pub signature_valid : Bool
  pub cert_chain_valid : Bool

pub record BuildInput : Type 0 where
  pub tx_id : String
  pub commitment_hash : String
  pub commitment_opening : Option TransferCommitment
  pub block_number : ℕ
  pub block_hash : String
  pub tx_index : ℤ
  pub validation_code : ℤ
  pub endorsements : List EndorsementInput
  pub origin_msp_id : String
  pub policy_id : String
  pub policy_met : Bool
  pub internal_ref : String
  pub client_submit_time : ℤ
  pub endorsement_time : ℤ
  pub commit_time : ℤ

pub record PolicyConfig : Type 0 where
  pub kind : String
  pub required_msps : List String
  pub min_endorsers : ℤ
