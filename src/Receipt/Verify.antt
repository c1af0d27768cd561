-- ===== src/Receipt/Verify.antt =====
-- internal/receipt/verify.go: the policies, `VerifyReceipt` and `QuickVerify`.
use kufi_chain.Prelude.{
  ℕ, ◌+◌, ◌/◌, String, Bool, true, false, not, ◌&&◌, ◌||◌, Option, none, some, List, [], ◌∷◌, ◌++◌,
  if◌then◌else◌, ◌==◌, ltb, eqb, length, any,
}
use kufi_chain.Prelude.Int.{ℤ, pos, negsuc, leb_ℤ, unix_milli}
use kufi_chain.Prelude.Dict.{Dict, lookup}
use kufi_chain.Receipt.Types.{EndorsementRecord, Receipt, PolicyConfig}
use kufi_chain.Receipt.Host.{Crypto}
pub use kufi_chain.Receipt.Endorsement.{
  EndorsementError, EndorsementVerifyResult, Verifier, is_proven,
}
unfoldable pub use kufi_chain.Receipt.Endorsement.{
  new_verifier, add_trusted_ca, add_policy_config, check_dates, check_chain, check_fingerprint,
  check_revocation, check_crl, verify_endorsement, verify_endorsements,
}
use kufi_chain.Receipt.Build.{compute_commitment_hash, compute_receipt_hash}

-- The texts of `Errors` and `Warnings`.
pub data Issue : Type 0 where
  hash_mismatch commitment_mismatch opening_mismatch no_endorsements : Issue
  validation_failed policy_not_satisfied : String → Issue
  missing_opening fallback_used block_number_zero : Issue

pub record VerificationResult : Type 0 where
  pub valid : Bool
  pub errors : List Issue
  pub warnings : List Issue
  pub receipt_hash_valid : Bool
  pub commitment_hash_match : Bool
  pub commitment_opening_valid : Bool
  pub validation_code_valid : Bool
  pub policy_satisfied : Bool
  pub endorsement_results : List EndorsementVerifyResult
  pub block_verified : Bool
  pub verified_at : ℤ

-- `validMSPs[msp]`; the map holds nothing but true.
abbrev pub in_set : Dict Bool → String → Bool
in_set msps msp = elim (lookup msp msps) [ none ↦ false | some b ↦ b ]

unfoldable pub all_in : Dict Bool → List String → Bool
all_in msps [] = true
all_in msps (m ∷ ms) = in_set msps m && all_in msps ms

unfoldable pub some_in : Dict Bool → List String → Bool
some_in msps [] = false
some_in msps (m ∷ ms) = in_set msps m || some_in msps ms

unfoldable pub count_in : Dict Bool → List String → ℕ
count_in msps [] = 0
count_in msps (m ∷ ms) = (if in_set msps m then 1 else 0) + count_in msps ms

-- The `switch` of `verifyPolicy`.
unfoldable pub policy_test : PolicyConfig → Dict Bool → Bool
policy_test config msps =
    if config.kind == "AND"
    then all_in msps config.required_msps
    else if config.kind == "OR"
    then some_in msps config.required_msps
    else if config.kind == "MAJORITY"
    then ltb (length config.required_msps / 2) (count_in msps config.required_msps)
    else if config.kind == "MIN"
    then leb_ℤ config.min_endorsers (pos (length msps))
    else ltb 0 (length msps)

-- `crlEndpoint` changes nothing: `checkRevocation` is a placeholder that answers false.
-- `verifyPolicy`
unfoldable pub verify_policy : {Pool : Type 0} → Verifier Pool → String → Dict Bool → Bool
verify_policy v policy_id msps = elim (lookup policy_id v.policy_config) [
  | none ↦ ltb 0 (length msps)
  | some config ↦ policy_test config msps
]

-- Cert PEM or a positive flag, in a receipt.
abbrev pub has_material : EndorsementRecord → Bool
has_material e = not (e.certificate_pem == "") || e.signature_valid || e.cert_chain_valid

abbrev pub is_zero : ℤ → Bool
is_zero (pos n) = eqb n 0
is_zero (negsuc n) = false

-- `canTrustLedgerValidationFallback`
unfoldable pub can_trust_ledger_validation_fallback : Receipt → List EndorsementVerifyResult → Bool
can_trust_ledger_validation_fallback r results =
    if not (is_zero r.validation_code) || eqb (length r.endorsements) 0
    then false
    else if any is_proven results
    then false
    else not (any has_material r.endorsements)

pub data QuickError : Type 0 where
  missing_tx_id missing_channel_id missing_commitment missing_schema bad_hash : QuickError
  not_valid policy_unmet none_endorsed : QuickError

-- `result.Valid = false` and one more error, unless a check has passed.
unfoldable pub fail_unless : Bool → Issue → VerificationResult → VerificationResult
fail_unless good i r = if good then r else record r { valid = false; errors = r.errors ++ i ∷ [] }

unfoldable pub warn_if : Bool → Issue → VerificationResult → VerificationResult
warn_if b i r = if b then record r { warnings = r.warnings ++ i ∷ [] } else r

abbrev pub start : ℤ → VerificationResult
start now = record {
  valid = true;
  errors = [];
  warnings = [];
  receipt_hash_valid = false;
  commitment_hash_match = false;
  commitment_opening_valid = false;
  validation_code_valid = false;
  policy_satisfied = false;
  endorsement_results = [];
  block_verified = false;
  verified_at = unix_milli now;
}

module _ (c : Crypto) where
  -- The steps of `VerifyReceipt` under their numbers in its comments: 1,
  unfoldable pub check_hash : Receipt → VerificationResult → VerificationResult
  check_hash r res =
      let good = compute_receipt_hash c r == r.receipt_hash in
      fail_unless good hash_mismatch (record res { receipt_hash_valid = good })

  -- 2,
  unfoldable pub check_commitment : Receipt → String → VerificationResult → VerificationResult
  check_commitment r expected res =
      let good = r.commitment_hash == expected in
      if expected == ""
      then res
      else fail_unless good commitment_mismatch (record res { commitment_hash_match = good })

  -- 2b,
  unfoldable pub check_opening : Receipt → VerificationResult → VerificationResult
  check_opening r res = elim r.commitment_opening [
    | none ↦ warn_if true missing_opening res
    | some o ↦
        let good = compute_commitment_hash c o == r.commitment_hash in
        fail_unless good opening_mismatch (record res { commitment_opening_valid = good })
  ]

  -- 3,
  unfoldable pub check_code : Receipt → VerificationResult → VerificationResult
  check_code r res =
      let good = is_zero r.validation_code in
      fail_unless good (validation_failed r.validation_code_name)
        (record res { validation_code_valid = good })

  -- 4 and 5,
  unfoldable pub check_policy :
      Verifier c.Pool → ℤ → Receipt → VerificationResult → VerificationResult
  check_policy v now r res =
      let (results, msps) = verify_endorsements c v now r.endorsements [] in
      let by_policy = verify_policy v r.policy_id msps in
      let falls_back = not by_policy && can_trust_ledger_validation_fallback r results in
      let good = by_policy || falls_back in
      fail_unless good (policy_not_satisfied r.policy_id) (
        warn_if falls_back fallback_used
          (record res { endorsement_results = results; policy_satisfied = good }))

  -- and 6.
  unfoldable pub check_rest : Receipt → VerificationResult → VerificationResult
  check_rest r res =
      fail_unless (not (eqb (length r.endorsements) 0)) no_endorsements
        (warn_if (eqb r.block_number 0) block_number_zero res)

  -- `VerifyReceipt`, which returns no error. `now` is what every `time.Now()` in it returns.
  unfoldable pub verify_receipt : Verifier c.Pool → ℤ → Receipt → String → VerificationResult
  verify_receipt v now r expected = check_rest r (
      check_policy v now r
        (check_code r (check_opening r (check_commitment r expected (check_hash r (start now))))))

  -- `QuickVerify`; `none` is a nil error.
  unfoldable pub quick_verify : Receipt → Option QuickError
  quick_verify r =
      if r.tx_id == ""
      then some missing_tx_id
      else if r.channel_id == ""
      then some missing_channel_id
      else if r.commitment_hash == ""
      then some missing_commitment
      else if r.schema_version == ""
      then some missing_schema
      else if not (compute_receipt_hash c r == r.receipt_hash)
      then some bad_hash
      else if not (is_zero r.validation_code)
      then some not_valid
      else if not r.policy_met
      then some policy_unmet
      else if eqb (length r.endorsements) 0
      then some none_endorsed
      else none
