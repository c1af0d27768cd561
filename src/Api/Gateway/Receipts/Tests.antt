-- ===== src/Api/Gateway/Receipts/Tests.antt =====
-- The receipts that the handlers deliver, rebuild and observe, on a few transfers.
use kufi_chain.Prelude.{ℕ, ◌≡◌, refl, ◌≢◌, ◌⊎◌, ◌↔◌, true, false, some, [], arith, ap}
use kufi_chain.Prelude.Int.{pos, ltb_ℤ, unix_milli, pos_part}
use kufi_chain.Prelude.Dict.{lookup, insert}
use kufi_chain.Prelude.Action.{ok, err}
use kufi_chain.Receipt.Types.{Receipt}
use kufi_chain.Receipt.Sample.{crypto, builder, verifier, receipt}
use kufi_chain.Receipt.Build.{
  build, assemble, compute_receipt_hash, compute_commitment_hash, endorsement_record,
}
use kufi_chain.Api.Convert.{receipt_to_dto}
use kufi_chain.Api.Gateway.Requests.{committed_inputs}
use kufi_chain.Api.Gateway.Submit.{commitment_of, endorsement_inputs, finish_transfer}
use kufi_chain.Api.Gateway.Receipts.{
  given, verify_receipt_handler, rebuild_input, restore, rebuild_receipt_from_ledger,
}
use kufi_chain.Api.Gateway.Receipts.Rebuilt.{rebuild_receipt_from_ledger-invalid}
use kufi_chain.Api.Gateway.Receipts.Delivered.{
  says_valid, receipt_of, verify_receipt_handler-finish_transfer,
}
use kufi_chain.Api.Gateway.Observe.{
  Attestor, Observation, sign_payload, observe_transaction, IsCommitted, IsPresent,
  observe_transaction-given,
}
use kufi_chain.Receipt.Tamper.{Collision}
use kufi_chain.Receipt.Verdict.{policy_outcome}
use kufi_chain.Receipt.Verify.{
  verify_receipt, verify_endorsement, verify_endorsements, verify_policy,
  can_trust_ledger_validation_fallback, policy_test, all_in, fail_unless, warn_if, check_hash,
  check_commitment, check_opening, check_code, check_policy, check_rest, check_crl,
  check_revocation,
}
use kufi_chain.Api.Gateway.Sample.{
  settings, library, result, network, info, clock, request, storers, stores,
}

-- One second after the epoch, two seconds, and the last millisecond of the window.

abbrev delivered : Receipt
delivered =
    receipt_of crypto library settings network storers builder (clock 1000000000) request result

sent :
    (finish_transfer crypto library settings network storers builder
      (clock 1000000000)
      request
      (ok result)
      stores).0.body.receipt
    ≡ some (receipt_to_dto delivered)
unfolding finish_transfer
sent = refl

verify_receipt_handler-finish_transfer_example :
    (says_valid (
        verify_receipt_handler crypto verifier (pos 9000000) (
          ok (record {
            receipt = receipt_to_dto delivered;
            expected_commitment_hash =
                compute_commitment_hash crypto (commitment_of settings request);
            verify_on_chain = false;
          })))
      ≡ true)
    ↔ ((endorsement_inputs crypto library settings network result ≢ [])
        × (policy_outcome crypto verifier (pos 9000000) delivered ≡ true))
verify_receipt_handler-finish_transfer_example =
    verify_receipt_handler-finish_transfer crypto library settings network storers builder verifier
      (clock 1000000000) (pos 9000000) request result stores (receipt_to_dto delivered) refl sent

-- A stored receipt without endorsements, rebuilt five milliseconds after it was made.
abbrev bare : Receipt
bare = record (receipt "bob" 7) { endorsements = [] }

abbrev rebuilt : Receipt
rebuilt = restore crypto bare (build crypto (pos 9000000) builder (rebuild_input crypto bare info))

rebuilds : rebuild_receipt_from_ledger crypto network builder (pos 9000000) bare ≡ ok (some rebuilt)
unfolding rebuild_receipt_from_ledger build assemble
rebuilds = refl

observed : ltb_ℤ (pos 0) bare.observation.observed_at ≡ true
unfolding build assemble unix_milli
observed = refl

moved : bare.observation.observed_at ≢ unix_milli (pos 9000000)
unfolding build assemble unix_milli
moved e = absurd (four_nine (ap pos_part e))
  where
    four_nine : ◌≢◌ {A = ℕ} 4 9
    four_nine e = omega arith

rebuilt_accepted : (verify_receipt crypto verifier (pos 9000000) rebuilt "").valid ≡ true
unfolding verify_receipt build assemble compute_receipt_hash compute_commitment_hash check_hash
    check_commitment check_opening check_code check_policy check_rest fail_unless warn_if
    verify_endorsements verify_endorsement check_crl check_revocation verify_policy policy_test
    committed_inputs all_in endorsement_record can_trust_ledger_validation_fallback lookup insert
rebuilt_accepted = refl

rebuild_receipt_from_ledger-invalid_example : Collision crypto
rebuild_receipt_from_ledger-invalid_example =
    rebuild_receipt_from_ledger-invalid crypto network builder verifier (pos 9000000) (pos 9000000)
      bare rebuilt "" rebuilds observed moved rebuilt_accepted

abbrev attestor : Attestor
attestor = record {
  trim = λ s. s;
  payload_hash = λ p. p.tx_id;
  sign = λ hash. ok hash;
  query_transfer = λ id. err "no";
  cert_fingerprint = "fp";
}

abbrev attested : Observation
attested = record {
  payload = record {
    msp_id = "VietcombankMSP";
    tx_id = "tx1";
    block_number = 7;
    block_hash = "hash";
    validation_code = pos 0;
    observed_at = unix_milli (pos 9000000);
  };
  proof_type = "block_commit";
  payload_hash = "tx1";
  signature_hex = "tx1";
  cert_fingerprint = "fp";
}

attests : observe_transaction attestor network "VietcombankMSP" (pos 9000000) "tx1" ≡ given attested
unfolding observe_transaction sign_payload
attests = refl

observe_transaction-given_example :
    (attestor.sign (attestor.payload_hash attested.payload) ≡ ok attested.signature_hex)
    × (IsCommitted network (attestor.trim "tx1") attested
        ⊎ IsPresent attestor (attestor.trim "tx1") attested)
observe_transaction-given_example =
    observe_transaction-given attestor network "VietcombankMSP" (pos 9000000) "tx1" attested attests
