-- ===== src/Receipt/Policy.antt =====
-- What the endorsement check and the policies demand, and what the fallback gives away.
use kufi_chain.Prelude.{
  ◌+◌, ◌≤◌, ◌<◌, String, ◌≡◌, refl, ◌≢◌, ◌↔◌, Bool, true, false, ◌&&◌, ◌||◌, some, List, [], ◌∷◌,
  arith, eq_iff, ◌==◌, if◌then◌else◌, length, any, ap, ◌∙◌, All, eqb,
}
use kufi_chain.Prelude.Int.{ℤ, pos, ltb_ℤ}
use kufi_chain.Prelude.Dict.{Dict, insert, lookup-insert}
use kufi_chain.Receipt.Types.{EndorsementRecord, Receipt, PolicyConfig}
use kufi_chain.Receipt.Host.{Crypto}
use kufi_chain.Receipt.Verify.{
  Verifier, is_proven, in_set, all_in, count_in, policy_test, has_material,
  can_trust_ledger_validation_fallback, verify_endorsement, verify_endorsements, check_dates,
  check_chain, check_fingerprint, check_crl, check_revocation,
}
use kufi_chain.Receipt.Verdict.{policy_outcome}

-- The policy AND is met exactly when every required MSP is proven.
pub policy_test-and :
    (config : PolicyConfig) (msps : Dict Bool)
    → config.kind ≡ "AND"
    → (policy_test config msps ≡ true) ↔ All (λ m. in_set msps m ≡ true) config.required_msps
unfolding policy_test all_in
policy_test-and config msps kind = (
  λ e. sound config.required_msps (ground (arith, eq_iff config.kind "AND")),
  λ h. ground (arith, eq_iff config.kind "AND", complete config.required_msps h),
)
  where
    sound : (ms : List String) → all_in msps ms ≡ true → All (λ m. in_set msps m ≡ true) ms
    sound [] e = tt
    sound (m ∷ ms) e = (ground arith, sound ms (ground arith))

    complete : (ms : List String) → All (λ m. in_set msps m ≡ true) ms → all_in msps ms ≡ true
    complete [] h = refl
    complete (m ∷ ms) (x, h) = ground (arith, complete ms h)

count_in-le : (msps : Dict Bool) (ms : List String) → count_in msps ms ≤ length ms
unfolding count_in
count_in-le msps [] = omega arith
count_in-le msps (m ∷ ms) = ground (arith, count_in-le msps ms)

-- The policy MAJORITY is met exactly when the proven ones among the required MSPs are more than
-- the others.
pub policy_test-majority :
    (config : PolicyConfig) (msps : Dict Bool)
    → config.kind ≡ "MAJORITY"
    → (policy_test config msps ≡ true) ↔ (
        length config.required_msps
        < count_in msps config.required_msps + count_in msps config.required_msps)
unfolding policy_test
policy_test-majority config msps kind =
    let not_and : (config.kind == "AND") ≡ false = differs "AND" refl in
    let not_or : (config.kind == "OR") ≡ false = differs "OR" refl in
    (
      λ e. ground (arith, eq_iff config.kind "MAJORITY"),
      λ h. ground (arith, eq_iff config.kind "MAJORITY"),
    )
  where
    differs : (k : String) → ("MAJORITY" == k) ≡ false → (config.kind == k) ≡ false
    differs k e = ap (λ x. x == k) kind ∙ e

module _ (c : Crypto) where
  -- The MSPs that the loop collects are those of a proven endorsement, and those it began with.
  pub in_set-verify_endorsements :
      (v : Verifier c.Pool) (now : ℤ) (m : String) (es : List EndorsementRecord) (msps : Dict Bool)
      → in_set (verify_endorsements c v now es msps).1 m ≡ (
          any (λ e. (e.msp_id == m) && is_proven (verify_endorsement c v now e)) es
          || in_set msps m)
  unfolding verify_endorsements
  in_set-verify_endorsements v now m [] msps = refl
  in_set-verify_endorsements v now m (e ∷ es) msps =
      let proven = is_proven (verify_endorsement c v now e) in
      ground (
        arith,
        lookup-insert e.msp_id m true msps,
        in_set-verify_endorsements v now m es (if proven then insert e.msp_id true msps else msps),
      )

  -- A certificate that has expired proves nothing, also where the verifier has been told to allow
  -- expired certificates.
  pub expired_never_proven :
      (v : Verifier c.Pool) (now : ℤ) (e : EndorsementRecord) (der : c.Bytes) (cert : c.Cert)
      → e.certificate_pem ≢ ""
      → c.pem_decode e.certificate_pem ≡ some der
      → c.parse_certificate der ≡ some cert
      → ltb_ℤ (c.not_after cert) now ≡ true
      → is_proven (verify_endorsement c v now e) ≡ false
  unfolding verify_endorsement check_dates check_chain check_fingerprint check_crl check_revocation
  expired_never_proven v now e der cert given decodes parses late =
      ground (arith, eq_iff e.certificate_pem "")

  -- An endorsement with no certificate and no flag set proves nothing.
  bare_result :
      (v : Verifier c.Pool) (now : ℤ) (e : EndorsementRecord)
      → has_material e ≡ false
      → is_proven (verify_endorsement c v now e) ≡ false
  unfolding verify_endorsement check_crl check_revocation
  bare_result v now e bare = ground arith

  bare_results :
      (v : Verifier c.Pool) (now : ℤ) (es : List EndorsementRecord) (msps : Dict Bool)
      → any has_material es ≡ false
      → any is_proven (verify_endorsements c v now es msps).0 ≡ false
  unfolding verify_endorsements
  bare_results v now [] msps h = refl
  bare_results v now (e ∷ es) msps h =
      let proven = is_proven (verify_endorsement c v now e) in
      ground (
        arith,
        bare_result v now e,
        bare_results v now es (if proven then insert e.msp_id true msps else msps),
      )

  -- The fallback: a receipt with a valid code whose endorsements have neither a certificate nor a
  -- flag set passes every policy, whatever MSPs the verifier has been configured to require.
  pub bare_endorsements_pass :
      (v : Verifier c.Pool) (now : ℤ) (r : Receipt)
      → r.validation_code ≡ pos 0
      → r.endorsements ≢ []
      → any has_material r.endorsements ≡ false
      → policy_outcome c v now r ≡ true
  unfolding can_trust_ledger_validation_fallback
  bare_endorsements_pass v now r code endorsed bare =
      let nonempty : eqb (length r.endorsements) 0 ≡ false = ground arith in
      ground (arith, bare_results v now r.endorsements [] bare)
