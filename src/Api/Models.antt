-- ===== src/Api/Models.antt =====
-- internal/api/models.go: what the HTTP API takes and gives.
use kufi_chain.Prelude.{ℕ, String, Bool, Option, List}
use kufi_chain.Prelude.Int.{ℤ}
use kufi_chain.Receipt.Verify.{EndorsementError, Issue}

pub record TransferRequest : Type 0 where
  pub from_id : String
  pub to_id : String
  pub amount_vnd : ℤ
  pub memo : String
  pub internal_ref : String
  pub idempotency_key : String
  pub nonce : String
  pub timestamp : ℤ
  pub user_signature : String
  pub transfer_type : String

pub record CommitmentOpeningDto : Type 0 where
  pub channel_id : String
  pub chaincode_id : String
  pub function : String
  pub from_id : String
  pub to_id : String
  pub amount_vnd : ℤ
  pub internal_ref : String
  pub timestamp : ℤ
  pub nonce : String

pub record ObservationDto : Type 0 where
  pub observed_at : ℤ
  pub anchor_type : String
  pub anchor_ref : String

pub record EndorsementDto : Type 0 where
  pub msp_id : String
  pub endorser_id : String
  pub cert_fingerprint : String
  pub certificate_pem : String
  pub signature_hex : String
  pub timestamp : ℤ
  pub signature_valid : Bool
  pub cert_chain_valid : Bool

pub record TimestampsDto : Type 0 where
  pub client_submit : ℤ
  pub endorsement_time : ℤ
  pub orderer_receive : ℤ
  pub block_commit : ℤ
  pub receipt_created : ℤ

pub record ReceiptDto : Type 0 where
  pub schema_version : String
  pub channel_id : String
  pub tx_id : String
  pub chaincode_id : String
  pub commitment_hash : String
  pub commitment_opening : Option CommitmentOpeningDto
  pub commitment_algorithm : String
  pub block_number : ℕ
  pub block_hash : String
  pub tx_index : ℤ
  pub validation_code : ℤ
  pub validation_code_name : String
  pub endorsements : List EndorsementDto
  pub origin_msp_id : String
  pub policy_id : String
  pub policy_met : Bool
  pub timestamps : TimestampsDto
  pub status_endpoint : String
  pub observation : ObservationDto
  pub internal_ref : String
  pub receipt_hash : String

pub record VerifyReceiptRequest : Type 0 where
  pub receipt : ReceiptDto
  pub expected_commitment_hash : String
  pub verify_on_chain : Bool

pub record EndorsementVerifyDto : Type 0 where
  pub msp_id : String
  pub endorser_id : String
  pub signature_valid : Bool
  pub cert_chain_valid : Bool
  pub cert_expired : Bool
  pub cert_revoked : Bool
  pub error : Option EndorsementError

-- Its texts are those of the verifier.
pub record VerifyReceiptResponse : Type 0 where
  pub valid : Bool
  pub errors : List Issue
  pub warnings : List Issue
  pub receipt_hash_valid : Bool
  pub commitment_hash_match : Bool
  pub commitment_opening_valid : Bool
  pub validation_code_valid : Bool
  pub policy_satisfied : Bool
  pub endorsement_results : List EndorsementVerifyDto
  pub block_verified : Bool
  pub verified_at : ℤ

pub record ErrorDetail : Type 0 where
  pub code : String
  pub message : String
  pub details : String

pub record TransferResponse : Type 0 where
  pub success : Bool
  pub tx_id : String
  pub receipt : Option ReceiptDto
  pub error : Option ErrorDetail
  pub processed_at : ℤ

abbrev pub err_bad_request : String
err_bad_request = "BAD_REQUEST"

abbrev pub err_validation_failed : String
err_validation_failed = "VALIDATION_FAILED"

abbrev pub err_replay_detected : String
err_replay_detected = "REPLAY_DETECTED"

abbrev pub err_fabric_error : String
err_fabric_error = "FABRIC_ERROR"

abbrev pub err_internal_error : String
err_internal_error = "INTERNAL_ERROR"

abbrev pub err_not_found : String
err_not_found = "NOT_FOUND"
