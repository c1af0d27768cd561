-- ===== src/Receipt/Verdict.antt =====
-- When `VerifyReceipt` calls a receipt valid, and what it then reports.
use kufi_chain.Prelude.{
  String, ◌≡◌, refl, ◌≢◌, ◌⊎◌, ◌↔◌, inl, inr, Bool, true, false, not, ◌&&◌, ◌||◌, Option, none,
  some, List, [], ◌∷◌, ◌++◌, arith, eq_iff, ◌==◌, length, eqb, ap, sym, ◌∙◌, Bool-cases,
}
use kufi_chain.Prelude.Int.{ℤ, pos}
use kufi_chain.Receipt.Types.{TransferCommitment, Receipt}
use kufi_chain.Receipt.Host.{Crypto}
use kufi_chain.Receipt.Build.{compute_commitment_hash, compute_receipt_hash}
use kufi_chain.Receipt.Verify.{
  Verifier, VerificationResult, Issue, is_zero, fail_unless, warn_if, start, check_hash,
  check_commitment, check_opening, check_code, check_policy, check_rest, verify_receipt,
  verify_endorsements, verify_policy, can_trust_ledger_validation_fallback,
}

module _ (c : Crypto) where
  -- The endorsement policy, or the fallback on the ledger's own validation.
  abbrev pub policy_outcome : Verifier c.Pool → ℤ → Receipt → Bool
  policy_outcome v now r =
      let (results, msps) = verify_endorsements c v now r.endorsements [] in
      verify_policy v r.policy_id msps || can_trust_ledger_validation_fallback r results

  -- What a valid receipt satisfies.
  pub record IsSound (v : Verifier c.Pool) (now : ℤ) (r : Receipt) (expected : String)
      : Type 0 where
    pub hash_right : compute_receipt_hash c r ≡ r.receipt_hash
    pub as_expected : (expected ≡ "") ⊎ (r.commitment_hash ≡ expected)
    pub opens :
        (o : TransferCommitment)
        → r.commitment_opening ≡ some o
        → compute_commitment_hash c o ≡ r.commitment_hash
    pub code_valid : r.validation_code ≡ pos 0
    pub policy_ok : policy_outcome v now r ≡ true
    pub endorsed : r.endorsements ≢ []

  is_zero_iff : (n : ℤ) → (is_zero n ≡ true) ↔ (n ≡ pos 0)
  is_zero_iff n = (λ e. ground arith, λ e. ground arith)

  -- A result whose flag and error list agree.
  abbrev Agrees : VerificationResult → Type 0
  Agrees res = (res.valid ≡ true) ↔ (res.errors ≡ [])

  fail_unless-valid :
      (good : Bool) (i : Issue) (res : VerificationResult)
      → (fail_unless good i res).valid ≡ (good && res.valid)
  unfolding fail_unless
  fail_unless-valid true i res = refl
  fail_unless-valid false i res = refl

  append-ne-nil : (xs : List Issue) (i : Issue) → xs ++ i ∷ [] ≢ []
  append-ne-nil [] i e = cc
  append-ne-nil (x ∷ xs) i e = cc

  fail_unless-Agrees :
      (good : Bool) (i : Issue) (res : VerificationResult)
      → Agrees res
      → Agrees (fail_unless good i res)
  unfolding fail_unless
  fail_unless-Agrees true i res h = h
  fail_unless-Agrees false i res h = (λ e. cc, λ e. absurd (append-ne-nil res.errors i e))

  warn_if_frame :
      (b : Bool) (i : Issue) (res : VerificationResult)
      → ((warn_if b i res).valid ≡ res.valid) × ((warn_if b i res).errors ≡ res.errors)
  unfolding warn_if
  warn_if_frame true i res = (refl, refl)
  warn_if_frame false i res = (refl, refl)

  hash-valid :
      (r : Receipt) (res : VerificationResult)
      → (check_hash c r res).valid ≡ ((compute_receipt_hash c r == r.receipt_hash) && res.valid)
  unfolding check_hash
  hash-valid r res = fail_unless-valid _ _ _

  commitment-valid :
      (r : Receipt) (expected : String) (res : VerificationResult)
      → (check_commitment c r expected res).valid
        ≡ (((expected == "") || (r.commitment_hash == expected)) && res.valid)
  unfolding check_commitment fail_unless
  commitment-valid r expected res = ground arith

  abbrev opening_ok : Receipt → Option TransferCommitment → Bool
  opening_ok r none = true
  opening_ok r (some o) = compute_commitment_hash c o == r.commitment_hash

  opening-valid :
      (r : Receipt) (res : VerificationResult)
      → (check_opening c r res).valid ≡ (opening_ok r r.commitment_opening && res.valid)
  unfolding check_opening fail_unless warn_if
  opening-valid r res = ground arith

  code-valid :
      (r : Receipt) (res : VerificationResult)
      → (check_code c r res).valid ≡ (is_zero r.validation_code && res.valid)
  unfolding check_code
  code-valid r res = fail_unless-valid _ _ _

  policy-valid :
      (v : Verifier c.Pool) (now : ℤ) (r : Receipt) (res : VerificationResult)
      → (check_policy c v now r res).valid ≡ (policy_outcome v now r && res.valid)
  unfolding check_policy fail_unless warn_if
  policy-valid v now r res = ground arith

  rest-valid :
      (r : Receipt) (res : VerificationResult)
      → (check_rest c r res).valid ≡ (not (eqb (length r.endorsements) 0) && res.valid)
  unfolding check_rest fail_unless warn_if
  rest-valid r res = ground arith

  abbrev all_checks : Verifier c.Pool → ℤ → Receipt → String → Bool
  all_checks v now r expected =
      not (eqb (length r.endorsements) 0)
      && (policy_outcome v now r
          && (is_zero r.validation_code
              && (opening_ok r r.commitment_opening
                  && (((expected == "") || (r.commitment_hash == expected))
                      && ((compute_receipt_hash c r == r.receipt_hash) && true)))))

  verify_receipt-checks :
      (v : Verifier c.Pool) (now : ℤ) (r : Receipt) (expected : String)
      → (verify_receipt c v now r expected).valid ≡ all_checks v now r expected
  unfolding verify_receipt
  verify_receipt-checks v now r expected =
      let r₁ = check_hash c r (start now) in
      let r₂ = check_commitment c r expected r₁ in
      let r₃ = check_opening c r r₂ in
      let r₄ = check_code c r r₃ in
      let r₅ = check_policy c v now r r₄ in
      cc (
        rest-valid r r₅,
        policy-valid v now r r₄,
        code-valid r r₃,
        opening-valid r r₂,
        commitment-valid r expected r₁,
        hash-valid r (start now),
      )

  sound_checks :
      (v : Verifier c.Pool) (now : ℤ) (r : Receipt) (expected : String)
      → IsSound v now r expected
      → all_checks v now r expected ≡ true
  sound_checks v now r expected s =
      let opened = opening_sound r.commitment_opening refl in
      ground (
        arith,
        s.policy_ok,
        s.endorsed,
        opened,
        is_zero_iff r.validation_code,
        eq_iff (compute_receipt_hash c r) r.receipt_hash,
        eq_iff expected "",
        eq_iff r.commitment_hash expected,
      )
    where
      opening_sound :
          (o : Option TransferCommitment) → r.commitment_opening ≡ o → opening_ok r o ≡ true
      opening_sound none e = refl
      opening_sound (some o) e = (eq_iff _ _).1 (s.opens o e)

  -- `VerifyReceipt` reports a receipt as valid exactly when its hash is right, its commitment hash
  -- is the expected one if one is given, its opening hashes to it if it has one, its validation code
  -- is zero, the policy or the fallback accepts it, and it holds an endorsement.
  pub verify_receipt-valid_iff :
      (v : Verifier c.Pool) (now : ℤ) (r : Receipt) (expected : String)
      → ((verify_receipt c v now r expected).valid ≡ true) ↔ IsSound v now r expected
  verify_receipt-valid_iff v now r expected =
      let checks = verify_receipt-checks v now r expected in
      (
        λ e.
            let all : all_checks v now r expected ≡ true = sym checks ∙ e in
            record {
              hash_right = ground (arith, eq_iff (compute_receipt_hash c r) r.receipt_hash);
              as_expected = ground (arith, eq_iff expected "", eq_iff r.commitment_hash expected);
              opens =
                  λ o eo. ground (arith, eq_iff (compute_commitment_hash c o) r.commitment_hash);
              code_valid = ground (arith, is_zero_iff r.validation_code);
              policy_ok = ground arith;
              endorsed = λ none_there. ground (arith, ap length none_there);
            },
        λ s. checks ∙ sound_checks v now r expected s,
      )

  -- A receipt is reported as valid exactly when the list of errors is empty.
  pub verify_receipt-errors :
      (v : Verifier c.Pool) (now : ℤ) (r : Receipt) (expected : String)
      → Agrees (verify_receipt c v now r expected)
  unfolding verify_receipt check_hash check_commitment check_opening check_code check_policy
      check_rest
  verify_receipt-errors v now r expected =
      let r₁ = check_hash c r (start now) in
      let r₂ = check_commitment c r expected r₁ in
      let r₃ = check_opening c r r₂ in
      let r₄ = check_code c r r₃ in
      let r₅ = check_policy c v now r r₄ in
      let a₁ : Agrees r₁ = fail_unless-Agrees _ _ _ (λ e. refl, λ e. refl) in
      let a₂ : Agrees r₂ = commitment r₁ a₁ in
      let a₃ : Agrees r₃ = opening r₂ a₂ r.commitment_opening refl in
      let a₄ : Agrees r₄ = fail_unless-Agrees _ _ _ a₃ in
      let a₅ : Agrees r₅ = fail_unless-Agrees _ _ _ (warned _ _ _ a₄) in
      fail_unless-Agrees _ _ _ (warned _ _ r₅ a₅)
    where
      warned :
          (b : Bool) (i : Issue) (res : VerificationResult) → Agrees res → Agrees (warn_if b i res)
      warned b i res h =
          let (x, y) = warn_if_frame b i res in (λ e. y ∙ h.0 (sym x ∙ e), λ e. x ∙ h.1 (sym y ∙ e))

      commitment :
          (res : VerificationResult) → Agrees res → Agrees (check_commitment c r expected res)
      commitment res h = elim (Bool-cases (expected == "")) [
        | inl empty ↦ rw empty h
        | inr given ↦ rw given (fail_unless-Agrees _ _ _ h)
      ]

      opening :
          (res : VerificationResult)
          → Agrees res
          → (o : Option TransferCommitment) → r.commitment_opening ≡ o
          → Agrees (check_opening c r res)
      opening res h none e = rw e (warned _ _ _ h)
      opening res h (some o) e = rw e (fail_unless-Agrees _ _ _ h)
