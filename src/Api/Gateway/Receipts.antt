-- ===== src/Api/Gateway/Receipts.antt =====
-- internal/api/handlers.go: `GetReceipt`, `rebuildReceiptFromLedger` and `VerifyReceipt`.
pub mod Rebuilt
pub mod Delivered
mod Tests
use kufi_chain.Prelude.{
  ℕ, String, Bool, true, false, not, ◌||◌, Option, none, some, List, [], ◌∷◌, if◌then◌else◌, ◌==◌,
  eqb, length,
}
use kufi_chain.Prelude.Int.{ℤ, pos, ltb_ℤ, eq_ℤ, zero_time, from_unix_milli}
use kufi_chain.Prelude.Action.{Result, ok, err}
use kufi_chain.Fabric.Types.{TransactionInfo}
use kufi_chain.Receipt.Types.{Receipt, BuildInput}
use kufi_chain.Receipt.Host.{Crypto}
use kufi_chain.Receipt.Build.{ReceiptBuilder, build}
use kufi_chain.Receipt.Verify.{
  Verifier, VerificationResult, EndorsementVerifyResult, verify_receipt,
}
use kufi_chain.Api.Models.{
  ReceiptDto, VerifyReceiptRequest, VerifyReceiptResponse, EndorsementVerifyDto, ErrorDetail,
  err_bad_request, err_not_found,
}
use kufi_chain.Api.Convert.{receipt_to_dto, dto_to_receipt}
use kufi_chain.Api.Stores.{ReceiptStorer}
use kufi_chain.Api.Gateway.Host.{Network}
use kufi_chain.Api.Gateway.Requests.{committed_inputs}

-- A body of its own kind, or an error with its status code.
pub data Answer (A : Type 0) : Type 0 where
  given : A → Answer A
  failed : ℕ → ErrorDetail → Answer A

-- `timeFromUnixMilli`
unfoldable pub time_from_unix_milli : ℤ → ℤ
time_from_unix_milli ms = if eq_ℤ ms (pos 0) then zero_time else from_unix_milli ms

-- The loop of `VerifyReceipt`.
unfoldable pub results_to_dto : List EndorsementVerifyResult → List EndorsementVerifyDto
results_to_dto [] = []
results_to_dto (er ∷ ers) =
    record {
      msp_id = er.msp_id;
      endorser_id = er.endorser_id;
      signature_valid = er.signature_valid;
      cert_chain_valid = er.cert_chain_valid;
      cert_expired = er.cert_expired;
      cert_revoked = er.cert_revoked;
      error = er.error;
    }
    ∷ results_to_dto ers

unfoldable pub to_response : VerificationResult → VerifyReceiptResponse
to_response r = record {
  valid = r.valid;
  errors = r.errors;
  warnings = r.warnings;
  receipt_hash_valid = r.receipt_hash_valid;
  commitment_hash_match = r.commitment_hash_match;
  commitment_opening_valid = r.commitment_opening_valid;
  validation_code_valid = r.validation_code_valid;
  policy_satisfied = r.policy_satisfied;
  endorsement_results = results_to_dto r.endorsement_results;
  block_verified = r.block_verified;
  verified_at = r.verified_at;
}

module _ (c : Crypto) where
  -- `VerifyReceipt`; `bound` is what `ShouldBindJSON` makes of the body.
  unfoldable pub verify_receipt_handler :
      Verifier c.Pool → ℤ → Result String VerifyReceiptRequest → Answer VerifyReceiptResponse
  unfolding to_response
  verify_receipt_handler v now bound = elim bound [
    | err e ↦
        failed 400
          (record { code = err_bad_request; message = "Invalid request body"; details = e })
    | ok req ↦ given (
        to_response
          (verify_receipt c v now (dto_to_receipt req.receipt) req.expected_commitment_hash))
  ]

  -- `buildInput` of `rebuildReceiptFromLedger`.
  abbrev pub rebuild_input : Receipt → TransactionInfo → BuildInput
  rebuild_input r info = record {
    tx_id = r.tx_id;
    commitment_hash = r.commitment_hash;
    commitment_opening = r.commitment_opening;
    block_number = r.block_number;
    block_hash = r.block_hash;
    tx_index = if ltb_ℤ (pos 0) info.tx_index then info.tx_index else r.tx_index;
    validation_code = r.validation_code;
    endorsements = committed_inputs info.endorsements;
    origin_msp_id = r.origin_msp_id;
    policy_id = r.policy_id;
    policy_met = r.policy_met;
    internal_ref = r.internal_ref;
    client_submit_time = time_from_unix_milli r.timestamps.client_submit;
    endorsement_time = time_from_unix_milli r.timestamps.endorsement_time;
    commit_time = time_from_unix_milli r.timestamps.block_commit;
  }

  abbrev pub is_observed : Receipt → Bool
  is_observed r =
      ltb_ℤ (pos 0) r.observation.observed_at
      || not (r.observation.anchor_ref == "")
      || not (r.observation.anchor_type == "")

  -- What `rebuildReceiptFromLedger` puts back into the receipt that it has built.
  abbrev pub restore : Receipt → Receipt → Receipt
  restore existing rebuilt = record rebuilt {
    receipt_signature = existing.receipt_signature;
    commitment_algorithm =
        if existing.commitment_algorithm == ""
        then rebuilt.commitment_algorithm
        else existing.commitment_algorithm;
    observation = if is_observed existing then existing.observation else rebuilt.observation;
    timestamps = record {
      client_submit = rebuilt.timestamps.client_submit;
      endorsement_time = rebuilt.timestamps.endorsement_time;
      orderer_receive = existing.timestamps.orderer_receive;
      block_commit = rebuilt.timestamps.block_commit;
      receipt_created = rebuilt.timestamps.receipt_created;
    };
  }

  -- `rebuildReceiptFromLedger`, of a receipt that is not nil.
  unfoldable pub rebuild_receipt_from_ledger :
      Network → ReceiptBuilder → ℤ → Receipt → Result String (Option Receipt)
  rebuild_receipt_from_ledger n rb now existing =
      if existing.tx_id == "" then ok none else elim (n.get_transaction_by_id existing.tx_id) [
        | err e ↦ err e
        | ok info ↦
            if eqb (length info.endorsements) 0
            then ok none
            else ok (some (restore existing (build c now rb (rebuild_input existing info))))
      ]

  module _ (receipts : ReceiptStorer Receipt) where
    -- `GetReceipt`
    unfoldable pub get_receipt :
        Network → ReceiptBuilder → ℤ → String → receipts.State → Answer ReceiptDto × receipts.State
    get_receipt n rb now tx_id st =
        if tx_id == ""
        then (
          failed 400 (record {
            code = err_bad_request;
            message = "Transaction ID required";
            details = "";
          }),
          st,
        )
        else elim (receipts.get tx_id st) [
          | none ↦ (
            failed 404
                (record { code = err_not_found; message = "Receipt not found"; details = "" }),
            st,
          )
          | some r ↦
              if eqb (length r.endorsements) 0
              then elim (rebuild_receipt_from_ledger n rb now r) [
                | err e ↦ (given (receipt_to_dto r), st)
                | ok none ↦ (given (receipt_to_dto r), st)
                | ok (some rebuilt) ↦
                    (given (receipt_to_dto rebuilt), receipts.store tx_id rebuilt st)
              ]
              else (given (receipt_to_dto r), st)
        ]
