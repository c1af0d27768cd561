-- ===== src/Receipt/Build.antt =====
-- internal/receipt/receipt.go: the two hashes, the names of the validation codes, and the builder.
use kufi_chain.Prelude.{
  ℕ, String, Bool, Option, none, some, List, [], ◌∷◌, if◌then◌else◌, ◌==◌, eqb, map,
}
use kufi_chain.Prelude.Int.{ℤ, pos, negsuc, eq_ℤ, zero_time, unix_milli}
use kufi_chain.Receipt.Types.{
  TransferCommitment, EndorsementRecord, Receipt, HashData, EndorsementInput, BuildInput,
}
use kufi_chain.Receipt.Host.{Crypto}
use Prim.Native.String

-- The table of `ValidationCodeToName`.
abbrev pub code_names : List (ℕ × String)
code_names =
    (0, "VALID")
    ∷ (1, "NIL_ENVELOPE")
    ∷ (2, "BAD_PAYLOAD")
    ∷ (3, "BAD_COMMON_HEADER")
    ∷ (4, "BAD_CREATOR_SIGNATURE")
    ∷ (5, "INVALID_ENDORSER_TRANSACTION")
    ∷ (6, "INVALID_CONFIG_TRANSACTION")
    ∷ (7, "UNSUPPORTED_TX_PAYLOAD")
    ∷ (8, "BAD_PROPOSAL_TXID")
    ∷ (9, "DUPLICATE_TXID")
    ∷ (10, "ENDORSEMENT_POLICY_FAILURE")
    ∷ (11, "MVCC_READ_CONFLICT")
    ∷ (12, "PHANTOM_READ_CONFLICT")
    ∷ (13, "UNKNOWN_TX_TYPE")
    ∷ (14, "TARGET_CHAIN_NOT_FOUND")
    ∷ (15, "MARSHAL_TX_ERROR")
    ∷ (16, "NIL_TXACTION")
    ∷ (17, "EXPIRED_CHAINCODE")
    ∷ (18, "CHAINCODE_VERSION_CONFLICT")
    ∷ (19, "BAD_HEADER_EXTENSION")
    ∷ (20, "BAD_CHANNEL_HEADER")
    ∷ (21, "BAD_RESPONSE_PAYLOAD")
    ∷ (22, "BAD_RWSET")
    ∷ (23, "ILLEGAL_WRITESET")
    ∷ (24, "INVALID_WRITESET")
    ∷ (254, "NOT_VALIDATED")
    ∷ (255, "INVALID_OTHER_REASON")
    ∷ []

unfoldable pub find_name : ℕ → List (ℕ × String) → Option String
find_name n [] = none
find_name n ((m, name) ∷ rest) = if eqb m n then some name else find_name n rest

abbrev pub known_name : ℤ → Option String
known_name (pos n) = find_name n code_names
known_name (negsuc n) = none

pub record ReceiptBuilder : Type 0 where
  pub channel_id : String
  pub chaincode_id : String
  pub status_endpoint : String
  pub include_full_certs : Bool

-- `NewReceiptBuilder`
unfoldable pub new_receipt_builder : String → String → String → Bool → ReceiptBuilder
new_receipt_builder channel_id chaincode_id status_endpoint include_full_certs = record {
  channel_id = channel_id;
  chaincode_id = chaincode_id;
  status_endpoint = status_endpoint;
  include_full_certs = include_full_certs;
}

abbrev pub hash_data : Receipt → HashData
hash_data r = record {
  schema_version = r.schema_version;
  channel_id = r.channel_id;
  tx_id = r.tx_id;
  commitment_hash = r.commitment_hash;
  commitment_opening = r.commitment_opening;
  commitment_algorithm = r.commitment_algorithm;
  block_number = r.block_number;
  block_hash = r.block_hash;
  validation_code = r.validation_code;
  endorsements = r.endorsements;
  origin_msp_id = r.origin_msp_id;
  policy_id = r.policy_id;
  policy_met = r.policy_met;
  timestamps = r.timestamps;
  observation = r.observation;
}

module _ (c : Crypto) where
  -- `ComputeCommitmentHash`
  unfoldable pub compute_commitment_hash : TransferCommitment → String
  compute_commitment_hash commitment = c.sha256_hex (c.json_commitment commitment)

  -- `ComputeReceiptHash`
  unfoldable pub compute_receipt_hash : Receipt → String
  compute_receipt_hash r = c.sha256_hex (c.json_hash_data (hash_data r))

  -- `ValidationCodeToName`
  unfoldable pub validation_code_to_name : ℤ → String
  validation_code_to_name code = elim (known_name code) [
    | none ↦ String.◌++◌ "UNKNOWN_" (c.decimal code)
    | some name ↦ name
  ]

  abbrev fingerprint : String → String
  fingerprint pem = elim (c.pem_decode pem) [
    | none ↦ c.sha256_hex (c.text_bytes pem)
    | some der ↦ c.sha256_hex der
  ]

  -- One round of the loop of `Build`.
  unfoldable pub endorsement_record : ReceiptBuilder → EndorsementInput → EndorsementRecord
  endorsement_record rb e = record {
    msp_id = e.msp_id;
    endorser_id = e.endorser_id;
    cert_fingerprint = if e.cert_pem == "" then "" else fingerprint e.cert_pem;
    certificate_pem =
        if e.cert_pem == "" then "" else (if rb.include_full_certs then e.cert_pem else "");
    signature_hex = c.hex e.signature;
    timestamp = if eq_ℤ e.timestamp zero_time then pos 0 else unix_milli e.timestamp;
    signature_valid = e.signature_valid;
    cert_chain_valid = e.cert_chain_valid;
  }

  -- `Build` up to the hash; `now` is `time.Now()`.
  unfoldable pub assemble : ℤ → ReceiptBuilder → BuildInput → Receipt
  assemble now rb input = record {
    schema_version = "v1";
    channel_id = rb.channel_id;
    tx_id = input.tx_id;
    chaincode_id = rb.chaincode_id;
    commitment_hash = input.commitment_hash;
    commitment_opening = input.commitment_opening;
    commitment_algorithm = "sha256(json-transfer-commitment-v1)";
    block_number = input.block_number;
    block_hash = input.block_hash;
    tx_index = input.tx_index;
    validation_code = input.validation_code;
    validation_code_name = validation_code_to_name input.validation_code;
    endorsements = map (endorsement_record rb) input.endorsements;
    origin_msp_id = input.origin_msp_id;
    policy_id = input.policy_id;
    policy_met = input.policy_met;
    timestamps = record {
      client_submit = unix_milli input.client_submit_time;
      endorsement_time = unix_milli input.endorsement_time;
      orderer_receive = pos 0;
      block_commit = unix_milli input.commit_time;
      receipt_created = unix_milli now;
    };
    status_endpoint = rb.status_endpoint;
    observation = record {
      observed_at = unix_milli now;
      anchor_type = "fabric_block_header_hash";
      anchor_ref = input.block_hash;
    };
    internal_ref = input.internal_ref;
    receipt_signature = "";
    receipt_hash = "";
  }

  -- `Build`, which returns no error
  unfoldable pub build : ℤ → ReceiptBuilder → BuildInput → Receipt
  build now rb input =
      let r = assemble now rb input in record r { receipt_hash = compute_receipt_hash r }
