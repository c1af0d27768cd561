-- ===== src/Api/Convert.antt =====
-- `receiptToDTO` and `dtoToReceipt` of internal/api/handlers.go.
pub mod RoundTrip
use kufi_chain.Prelude.{Option, none, some, List, [], ◌∷◌}
use kufi_chain.Receipt.Types.{TransferCommitment, EndorsementRecord, Receipt}
use kufi_chain.Api.Models.{CommitmentOpeningDto, EndorsementDto, ReceiptDto}

abbrev pub opening_to_dto : Option TransferCommitment → Option CommitmentOpeningDto
opening_to_dto none = none
opening_to_dto (some o) = some (record {
  channel_id = o.channel_id;
  chaincode_id = o.chaincode_id;
  function = o.function;
  from_id = o.from_id;
  to_id = o.to_id;
  amount_vnd = o.amount_vnd;
  internal_ref = o.internal_ref;
  timestamp = o.timestamp;
  nonce = o.nonce;
})

abbrev pub dto_to_opening : Option CommitmentOpeningDto → Option TransferCommitment
dto_to_opening none = none
dto_to_opening (some o) = some (record {
  channel_id = o.channel_id;
  chaincode_id = o.chaincode_id;
  function = o.function;
  from_id = o.from_id;
  to_id = o.to_id;
  amount_vnd = o.amount_vnd;
  internal_ref = o.internal_ref;
  timestamp = o.timestamp;
  nonce = o.nonce;
})

-- The loops over the endorsements.
unfoldable pub endorsements_to_dto : List EndorsementRecord → List EndorsementDto
endorsements_to_dto [] = []
endorsements_to_dto (e ∷ es) =
    record {
      msp_id = e.msp_id;
      endorser_id = e.endorser_id;
      cert_fingerprint = e.cert_fingerprint;
      certificate_pem = e.certificate_pem;
      signature_hex = e.signature_hex;
      timestamp = e.timestamp;
      signature_valid = e.signature_valid;
      cert_chain_valid = e.cert_chain_valid;
    }
    ∷ endorsements_to_dto es

unfoldable pub dto_to_endorsements : List EndorsementDto → List EndorsementRecord
dto_to_endorsements [] = []
dto_to_endorsements (e ∷ es) =
    record {
      msp_id = e.msp_id;
      endorser_id = e.endorser_id;
      cert_fingerprint = e.cert_fingerprint;
      certificate_pem = e.certificate_pem;
      signature_hex = e.signature_hex;
      timestamp = e.timestamp;
      signature_valid = e.signature_valid;
      cert_chain_valid = e.cert_chain_valid;
    }
    ∷ dto_to_endorsements es

-- `receiptToDTO`
unfoldable pub receipt_to_dto : Receipt → ReceiptDto
receipt_to_dto r = record {
  schema_version = r.schema_version;
  channel_id = r.channel_id;
  tx_id = r.tx_id;
  chaincode_id = r.chaincode_id;
  commitment_hash = r.commitment_hash;
  commitment_opening = opening_to_dto r.commitment_opening;
  commitment_algorithm = r.commitment_algorithm;
  block_number = r.block_number;
  block_hash = r.block_hash;
  tx_index = r.tx_index;
  validation_code = r.validation_code;
  validation_code_name = r.validation_code_name;
  endorsements = endorsements_to_dto r.endorsements;
  origin_msp_id = r.origin_msp_id;
  policy_id = r.policy_id;
  policy_met = r.policy_met;
  timestamps = record {
    client_submit = r.timestamps.client_submit;
    endorsement_time = r.timestamps.endorsement_time;
    orderer_receive = r.timestamps.orderer_receive;
    block_commit = r.timestamps.block_commit;
    receipt_created = r.timestamps.receipt_created;
  };
  status_endpoint = r.status_endpoint;
  observation = record {
    observed_at = r.observation.observed_at;
    anchor_type = r.observation.anchor_type;
    anchor_ref = r.observation.anchor_ref;
  };
  internal_ref = r.internal_ref;
  receipt_hash = r.receipt_hash;
}

-- `dtoToReceipt`; the fields that it leaves out are the zero value.
unfoldable pub dto_to_receipt : ReceiptDto → Receipt
dto_to_receipt d = record {
  schema_version = d.schema_version;
  channel_id = d.channel_id;
  tx_id = d.tx_id;
  chaincode_id = d.chaincode_id;
  commitment_hash = d.commitment_hash;
  commitment_opening = dto_to_opening d.commitment_opening;
  commitment_algorithm = d.commitment_algorithm;
  block_number = d.block_number;
  block_hash = d.block_hash;
  tx_index = d.tx_index;
  validation_code = d.validation_code;
  validation_code_name = d.validation_code_name;
  endorsements = dto_to_endorsements d.endorsements;
  origin_msp_id = d.origin_msp_id;
  policy_id = d.policy_id;
  policy_met = d.policy_met;
  timestamps = record {
    client_submit = d.timestamps.client_submit;
    endorsement_time = d.timestamps.endorsement_time;
    orderer_receive = d.timestamps.orderer_receive;
    block_commit = d.timestamps.block_commit;
    receipt_created = d.timestamps.receipt_created;
  };
  status_endpoint = d.status_endpoint;
  observation = record {
    observed_at = d.observation.observed_at;
    anchor_type = d.observation.anchor_type;
    anchor_ref = d.observation.anchor_ref;
  };
  internal_ref = d.internal_ref;
  receipt_signature = "";
  receipt_hash = d.receipt_hash;
}
