-- ===== src/Receipt/Tests.antt =====
-- The builder and the verifier on the sample receipts.
use kufi_chain.Prelude.{
  ℕ, String, ◌≡◌, refl, ◌≢◌, ◌↔◌, Bool, true, false, some, [], ◌∷◌, arith, ap, ◌==◌, eq_iff,
}
use kufi_chain.Prelude.Int.{pos}
use kufi_chain.Prelude.Dict.{lookup, insert}
use kufi_chain.Receipt.Types.{TransferCommitment, EndorsementRecord, Receipt, HashData}
use kufi_chain.Receipt.Build.{
  compute_commitment_hash, compute_receipt_hash, build, assemble, hash_data, endorsement_record,
  validation_code_to_name, find_name,
}
use kufi_chain.Receipt.Verify.{
  verify_receipt, verify_endorsement, verify_endorsements, verify_policy,
  can_trust_ledger_validation_fallback, policy_test, all_in, fail_unless, warn_if, check_hash,
  check_commitment, check_opening, check_code, check_policy, check_rest, check_crl,
  check_revocation,
}
use kufi_chain.Receipt.Verdict.{IsSound, policy_outcome, verify_receipt-valid_iff}
use kufi_chain.Receipt.Tamper.{Collision, verify_receipt-binds, build-verify}
use kufi_chain.Receipt.Sample.{crypto, opening, input, builder, verifier, receipt, now}

unknown_code : validation_code_to_name crypto (pos 77) ≡ "UNKNOWN_?"
unfolding validation_code_to_name find_name
unknown_code = refl

known_code : validation_code_to_name crypto (pos 11) ≡ "MVCC_READ_CONFLICT"
unfolding validation_code_to_name find_name
known_code = refl

accepted : (verify_receipt crypto verifier now (receipt "bob" 7) "n1").valid ≡ true
unfolding verify_receipt build assemble compute_receipt_hash compute_commitment_hash check_hash
    check_commitment check_opening check_code check_policy check_rest fail_unless warn_if
    verify_endorsements verify_endorsement check_crl check_revocation verify_policy policy_test
    all_in endorsement_record can_trust_ledger_validation_fallback lookup insert
accepted = refl

accepted_other : (verify_receipt crypto verifier now (receipt "carol" 8) "n1").valid ≡ true
unfolding verify_receipt build assemble compute_receipt_hash compute_commitment_hash check_hash
    check_commitment check_opening check_code check_policy check_rest fail_unless warn_if
    verify_endorsements verify_endorsement check_crl check_revocation verify_policy policy_test
    all_in endorsement_record can_trust_ledger_validation_fallback lookup insert
accepted_other = refl

same_receipt_hash : (receipt "bob" 7).receipt_hash ≡ (receipt "carol" 8).receipt_hash
unfolding build assemble compute_receipt_hash
same_receipt_hash = refl

other_block : hash_data (receipt "bob" 7) ≢ hash_data (receipt "carol" 8)
unfolding build assemble
other_block e = absurd (seven_eight (ap HashData.block_number e))
  where
    seven_eight : ◌≢◌ {A = ℕ} 7 8
    seven_eight e = omega arith

differ : (a b : String) → (a == b) ≡ false → a ≢ b
differ a b e same = ground (arith, eq_iff a b)

other_opening : opening "bob" ≢ opening "carol"
other_opening e = absurd (bob_carol (ap TransferCommitment.to_id e))
  where
    bob_carol : ◌≢◌ {A = String} "bob" "carol"
    bob_carol = differ "bob" "carol" refl

opens_bob : (receipt "bob" 7).commitment_opening ≡ some (opening "bob")
unfolding build assemble
opens_bob = refl

opens_carol : (receipt "carol" 8).commitment_opening ≡ some (opening "carol")
unfolding build assemble
opens_carol = refl

verify_receipt-valid_iff_example :
    ((verify_receipt crypto verifier now (receipt "bob" 7) "n1").valid ≡ true)
    ↔ IsSound crypto verifier now (receipt "bob" 7) "n1"
verify_receipt-valid_iff_example =
    verify_receipt-valid_iff crypto verifier now (receipt "bob" 7) "n1"

verify_receipt-binds_example : Collision crypto
verify_receipt-binds_example =
    verify_receipt-binds crypto verifier verifier now now (receipt "bob" 7) (receipt "carol" 8) "n1"
      "n1" accepted accepted_other same_receipt_hash other_block

given : ◌≢◌ {A = String} "n1" ""
given = differ "n1" "" refl

opening_hash : (input "bob" 7).commitment_hash ≡ compute_commitment_hash crypto (opening "bob")
unfolding compute_commitment_hash
opening_hash = refl

build-verify_example :
    ((verify_receipt crypto verifier now (receipt "bob" 7) "n1").valid ≡ true) ↔ (
      ((input "bob" 7).endorsements ≢ [])
      × (policy_outcome crypto verifier now (receipt "bob" 7) ≡ true))
build-verify_example =
    build-verify crypto verifier (pos 4000000) now builder (input "bob" 7) (opening "bob") refl
      opening_hash refl

abbrev endorsement : String → Bool → EndorsementRecord
endorsement pem flag = record {
  msp_id = "BankAMSP";
  endorser_id = "peer0";
  cert_fingerprint = pem;
  certificate_pem = pem;
  signature_hex = "s";
  timestamp = pos 0;
  signature_valid = flag;
  cert_chain_valid = flag;
}

filled : ◌≢◌ {A = String} "pem" ""
filled = differ "pem" "" refl

abbrev bare : Receipt
bare = record (receipt "bob" 7) { endorsements = endorsement "" false ∷ [] }

bare_code : bare.validation_code ≡ pos 0
unfolding build assemble
bare_code = refl

bare_endorsed : bare.endorsements ≢ []
bare_endorsed e = cc
