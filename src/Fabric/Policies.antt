-- ===== src/Fabric/Policies.antt =====
-- The policies of the extractor and those of the receipt verifier.
use kufi_chain.Prelude.{
  String, ◌≡◌, refl, ◌⊎◌, inl, inr, Bool, List, [], ◌∷◌, arith, sym, subst, is_some, not,
}
use kufi_chain.Prelude.Int.{ℤ}
use kufi_chain.Prelude.Dict.{Dict}
use kufi_chain.Receipt.Verify.{all_in, policy_test}
use kufi_chain.Fabric.Extractor.{
  VerifiedEndorsement, valid_msps, first_missing, verify_endorsement_policy,
}

first_missing-all_in :
    (msps : Dict Bool) (required : List String)
    → is_some (first_missing msps required) ≡ not (all_in msps required)
unfolding first_missing all_in
first_missing-all_in msps [] = refl
first_missing-all_in msps (m ∷ ms) = ground (arith, first_missing-all_in msps ms)

-- The extractor of internal/fabric accepts a list of endorsements under a policy AND, OR or MAJORITY
-- exactly when the verifier of internal/receipt accepts the MSPs of its valid ones under the policy
-- of that kind with the same required MSPs.
pub verify_endorsement_policy-policy_test :
    {Cert : Type 0} (es : List (VerifiedEndorsement Cert)) (kind : String) (required : List String)
    (least : ℤ)
    → (kind ≡ "AND") ⊎ ((kind ≡ "OR") ⊎ (kind ≡ "MAJORITY"))
    → is_some (verify_endorsement_policy es kind required)
      ≡ not (
          policy_test
            (record { kind = kind; required_msps = required; min_endorsers = least })
            (valid_msps es []))
unfolding verify_endorsement_policy policy_test
verify_endorsement_policy-policy_test es kind required least (inl e) =
    subst
      (λ k.
        is_some (verify_endorsement_policy es k required)
        ≡ not (
            policy_test (record { kind = k; required_msps = required; min_endorsers = least })
              (valid_msps es [])))
      (sym e) (ground (arith, first_missing-all_in (valid_msps es []) required))
verify_endorsement_policy-policy_test es kind required least (inr (inl e)) =
    subst
      (λ k.
        is_some (verify_endorsement_policy es k required)
        ≡ not (
            policy_test (record { kind = k; required_msps = required; min_endorsers = least })
              (valid_msps es [])))
      (sym e) (ground arith)
verify_endorsement_policy-policy_test es kind required least (inr (inr e)) =
    subst
      (λ k.
        is_some (verify_endorsement_policy es k required)
        ≡ not (
            policy_test (record { kind = k; required_msps = required; min_endorsers = least })
              (valid_msps es [])))
      (sym e) (ground arith)
