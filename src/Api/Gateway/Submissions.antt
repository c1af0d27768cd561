-- ===== src/Api/Gateway/Submissions.antt =====
-- What the handler hands to the client, and what the payment chaincode does with it.
use kufi_chain.Prelude.{
  ℕ, ◌+◌, ◌≤◌, ◌++◌, subst, sym, length-append, String, ◌≡◌, refl, ◌⊎◌, inl, inr, List, [], ◌∷◌,
  arith, length, All, Bool-cases, eq_iff, ap, ◌∙◌,
}
use kufi_chain.Prelude.Action.{Result-cases}
use kufi_chain.Prelude.Int.{leb_ℤ}
use kufi_chain.Prelude.Dict.{Dict}
use kufi_chain.Receipt.Host.{Crypto}
use kufi_chain.Receipt.Build.{compute_commitment_hash}
use kufi_chain.Payment.Types.{collection_inter_bank, collection_high_risk}
use kufi_chain.Payment.Contract.{policy_collection}
use kufi_chain.Api.Models.{TransferRequest}
use kufi_chain.Api.Gateway.Host.{ClientCall, Settings, Library, Network}
use kufi_chain.Api.Gateway.Requests.{
  determine_policy_id, collection_name, transient_data, select_transparency_endorsing_orgs,
  is_missing_collection_error, is_missing_endorsing_peer_error,
}
use kufi_chain.Api.Gateway.Submit.{
  creating_call, Attempt, commitment_of, submit_to, submit_orgs, submit_all,
}

module _ (c : Crypto) (l : Library) (h : Settings) where
  -- A call of the client that the handler may make for a request.
  pub record IsCall (req : TransferRequest) (p : ClientCall) : Type 0 where
    pub creates : p.function ≡ "CreateTransferIntent"
    pub carries :
        p.arguments
        ≡ compute_commitment_hash c (commitment_of h req)
          ∷ req.internal_ref
          ∷ determine_policy_id h req
          ∷ []
    pub keeps : (p.transient ≡ transient_data h l req) ⊎ (p.transient ≡ [])
    pub names :
        (p.endorsing_orgs ≡ select_transparency_endorsing_orgs h)
        ⊎ (p.endorsing_orgs ≡ h.msp_id ∷ [])

  -- The orgs that the handler asks.
  abbrev IsOrgs : List String → Type 0
  IsOrgs orgs = (orgs ≡ select_transparency_endorsing_orgs h) ⊎ (orgs ≡ h.msp_id ∷ [])

  module _ (n : Network) (req : TransferRequest) where
    -- Calls for the request, at most `k`.
    abbrev AreCalls : ℕ → List ClientCall → Type 0
    AreCalls k ps = (1 ≤ length ps) × (length ps ≤ k) × All (IsCall req) ps

    All-append :
        (ps : List ClientCall) (p : ClientCall)
        → All (IsCall req) ps
        → IsCall req p
        → All (IsCall req) (ps ++ p ∷ [])
    All-append [] p h x = (x, tt)
    All-append (q ∷ ps) p (y, h) x = (y, All-append ps p h x)

    submit_to-AreCalls :
        (transient : Dict String) (orgs : List String) (before : List ClientCall) (k : ℕ)
        → (transient ≡ transient_data h l req) ⊎ (transient ≡ [])
        → IsOrgs orgs
        → length before ≤ k
        → All (IsCall req) before
        → AreCalls (k + 1) (submit_to c l h n req transient orgs before).1
    unfolding submit_to
    submit_to-AreCalls transient orgs before k kept asked few all =
        let p = creating_call c l h n req transient orgs in
        let count = length-append before (p ∷ []) in
        (
          omega (arith, count),
          omega (arith, count, few),
          All-append before p all
              (record { creates = refl; carries = refl; keeps = kept; names = asked }),
        )

    abbrev first_attempt : Attempt
    first_attempt =
        submit_to c l h n req (transient_data h l req) (select_transparency_endorsing_orgs h) []

    abbrev second_attempt : Attempt
    second_attempt = submit_to c l h n req (transient_data h l req) (h.msp_id ∷ []) first_attempt.1

    submit_orgs-cases :
        (submit_orgs c l h n req ≡ (first_attempt, select_transparency_endorsing_orgs h))
        ⊎ (submit_orgs c l h n req ≡ (second_attempt, h.msp_id ∷ []))
    unfolding submit_orgs
    submit_orgs-cases = elim (Result-cases first_attempt.0) [
      | inl (v, good) ↦ inl (ground arith)
      | inr (e, bad) ↦ elim (Bool-cases (is_missing_endorsing_peer_error l e)) [
        | inl missing ↦ inr (ground arith)
        | inr other ↦ inl (ground arith)
      ]
    ]

    submit_orgs-AreCalls :
        AreCalls 2 (submit_orgs c l h n req).0.1 × IsOrgs (submit_orgs c l h n req).1
    submit_orgs-AreCalls =
        let orgs = select_transparency_endorsing_orgs h in
        let one =
          submit_to-AreCalls (transient_data h l req) orgs [] 0 (inl refl) (inl refl) (omega arith)
            tt in
        elim submit_orgs-cases [
          | inl e ↦
              subst (λ x. AreCalls 2 x.0.1 × IsOrgs x.1) (sym e)
                ((one.0, omega (arith, one), one.2), inl refl)
          | inr e ↦
              subst (λ x. AreCalls 2 x.0.1 × IsOrgs x.1) (sym e)
                (
                  submit_to-AreCalls (transient_data h l req) (h.msp_id ∷ []) first_attempt.1 1
                      (inl refl) (inr refl) one.1 one.2,
                  inr refl,
                )
        ]

    abbrev bare_attempt : Attempt
    bare_attempt =
        submit_to c l h n req [] (submit_orgs c l h n req).1 (submit_orgs c l h n req).0.1

    submit_all-cases :
        (submit_all c l h n req ≡ (submit_orgs c l h n req).0)
        ⊎ (submit_all c l h n req ≡ bare_attempt)
    unfolding submit_all
    submit_all-cases = elim (Result-cases (submit_orgs c l h n req).0.0) [
      | inl (v, good) ↦ inl (ground arith)
      | inr (e, bad) ↦ elim (Bool-cases (is_missing_collection_error l e)) [
        | inl missing ↦ inr (ground arith)
        | inr other ↦ inl (ground arith)
      ]
    ]

    -- For one transfer the handler calls the client's `SubmitTransactionWithPDC` at least once and at
    -- most three times. Each call asks for a transfer intent with the same commitment hash, reference
    -- and policy, has either the private data or none, and names its endorsing organisations: the
    -- pair, or the gateway's own alone.
    pub submit_all-AreCalls : AreCalls 3 (submit_all c l h n req).1
    submit_all-AreCalls =
        let (two, orgs) = submit_orgs-AreCalls in
        elim submit_all-cases [
          | inl e ↦ subst (λ x. AreCalls 3 x.1) (sym e) (two.0, omega (arith, two), two.2)
          | inr e ↦
              subst (λ x. AreCalls 3 x.1) (sym e)
                (submit_to-AreCalls [] (submit_orgs c l h n req).1 (submit_orgs c l h n req).0.1 2
                  (inr refl) orgs two.1 two.2)
        ]

  -- With the default collections the gateway files the private data under the collection that the
  -- chaincode chooses for the policy that the gateway names.
  pub collection_name-policy_collection :
      (req : TransferRequest) (creator : String)
      → (h.regulator ≡ "") ⊎ (h.regulator ≡ collection_high_risk)
      → (h.inter_bank ≡ "") ⊎ (h.inter_bank ≡ collection_inter_bank)
      → policy_collection (determine_policy_id h req) creator ≡ collection_name h req
  unfolding policy_collection determine_policy_id collection_name
  collection_name-policy_collection req creator high inter =
      elim (Bool-cases (leb_ℤ h.high_risk_threshold req.amount_vnd)) [
        | inl risky ↦
            let policy : determine_policy_id h req ≡ "high_risk" = ground arith in
            let unset : h.regulator ≡ "" → collection_high_risk ≡ collection_name h req =
              λ e. ground (arith, eq_iff h.regulator "") in
            let named : h.regulator ≡ collection_high_risk
                → collection_high_risk ≡ collection_name h req =
              λ e. ground (arith, eq_iff h.regulator "") in
            ap (λ p. policy_collection p creator) policy ∙ either high unset named
        | inr normal ↦
            let policy : determine_policy_id h req ≡ "inter_bank_standard" = ground arith in
            let unset : h.inter_bank ≡ "" → collection_inter_bank ≡ collection_name h req =
              λ e. ground (arith, eq_iff h.inter_bank "") in
            let named : h.inter_bank ≡ collection_inter_bank
                → collection_inter_bank ≡ collection_name h req =
              λ e. ground (arith, eq_iff h.inter_bank "") in
            ap (λ p. policy_collection p creator) policy ∙ either inter unset named
      ]
    where
      either : {A B C : Type 0} → A ⊎ B → (A → C) → (B → C) → C
      either (inl a) f g = f a
      either (inr b) f g = g b
