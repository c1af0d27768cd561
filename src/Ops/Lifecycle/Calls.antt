-- ===== src/Ops/Lifecycle/Calls.antt =====
-- What each step of the lifecycle adds to the history, and what it shows where it succeeds.
use kufi_chain.Prelude.{
  ℕ, zero, suc, String, ◌≡◌, refl, ◌∙◌, sym, subst, inl, inr, Bool, true, not, Option, none, some,
  ◌∷◌, arith, Bool-cases,
}
use kufi_chain.Prelude.Int.{ℤ, eq_ℤ}
use kufi_chain.Prelude.Dict.{Dict}
use kufi_chain.Prelude.Action.{Result, ok, err, pure, raise, modify}
use kufi_chain.Ops.Types.{ChaincodeOps, lifecycle_not_ready, readiness_failed}
use kufi_chain.Ops.Host.{Committed, Event, queried_committed, checked, slept, History, World}
use kufi_chain.Ops.Lifecycle.{
  Call, ask, asked_approvals, is_approved_asked, committed_approvals, approved_by, has_majority,
  approvals_in, is_past, attempts_of, is_lifecycle_syncing_error, query_committed_definition,
  check_commit_readiness, is_approved_for_my_org, readiness_loop, wait_for_lifecycle_ready,
}
use kufi_chain.Ops.Lifecycle.Steps.{
  Ran, Shown, IsMajority, IsApproval, same, more, Does, does_if, does_bind, Anyway, Plain, does_ask,
  does_pure, does_option, does_result, does_raise, does_sleep,
}

-- The answer that gives these approvals of the sequence.
abbrev pub IsAnswer : ℤ → String → Dict Bool → Event → Type 0
IsAnswer t policy m (queried_committed (some c)) = (c.sequence ≡ t) × (c.approvals ≡ m)
IsAnswer t policy m (checked s q (ok (some approvals))) = (s ≡ t) × (q ≡ policy) × (approvals ≡ m)
IsAnswer t policy m _ = ⊥

pub IsAnswer→IsMajority :
    (t : ℤ) (policy : String) (m : Dict Bool) (e : Event)
    → has_majority m ≡ true
    → IsAnswer t policy m e
    → IsMajority t policy e
IsAnswer→IsMajority t policy m (queried_committed (some c)) h (p, q) =
    (p, subst (λ x. has_majority x ≡ true) (sym q) h)
IsAnswer→IsMajority t policy m (checked s y (ok (some x))) h (p, r, q) =
    (p, r, subst (λ y. has_majority y ≡ true) (sym q) h)
IsAnswer→IsMajority t policy m _ h a = elim a [ ]

pub IsAnswer→IsApproval :
    (t : ℤ) (policy : String) (msp_id : String) (m : Dict Bool) (e : Event)
    → approved_by msp_id (some m) ≡ true
    → IsAnswer t policy m e
    → IsApproval msp_id t policy e
IsAnswer→IsApproval t policy msp_id m (queried_committed (some c)) h (p, q) =
    (p, subst (λ x. approved_by msp_id (some x) ≡ true) (sym q) h)
IsAnswer→IsApproval t policy msp_id m (checked s y (ok (some x))) h (p, r, q) =
    (p, r, subst (λ y. approved_by msp_id (some y) ≡ true) (sym q) h)
IsAnswer→IsApproval t policy msp_id m _ h a = elim a [ ]

eq_ℤ-eq : (a b : ℤ) → eq_ℤ a b ≡ true → a ≡ b
eq_ℤ-eq a b h = ground arith

committed_approvals-IsAnswer :
    (t : ℤ) (policy : String) (c : Option Committed) (m : Dict Bool)
    → committed_approvals t c ≡ some m
    → IsAnswer t policy m (queried_committed c)
committed_approvals-IsAnswer t policy none m h = absurd (cc)
committed_approvals-IsAnswer t policy (some c) m h = elim (Bool-cases (eq_ℤ c.sequence t)) [
  | inl e ↦ (eq_ℤ-eq c.sequence t e, ground arith)
  | inr e ↦ absurd (ground arith)
]

module _ (w : World) (t : ℤ) (ops : ChaincodeOps) where
  pub does_query :
      (P : History → Type 0)
      → Does t ops.signature_policy P
          (query_committed_definition w)
          (λ c h. Ran (queried_committed c) h)
  unfolding query_committed_definition
  does_query P = does_ask t ops.signature_policy w.query_committed queried_committed P (λ c h u. tt)

  -- Approvals that come from an answer for the sequence.
  abbrev pub Answers : Option (Dict Bool) → History → Type 0
  Answers found h = (m : Dict Bool) → found ≡ some m → Shown (IsAnswer t ops.signature_policy m) h

  checked-Answers :
      (a : Result String (Option (Dict Bool))) (h : History)
      → Ran (checked t ops.signature_policy a) h
      → Answers (approvals_in a) h
  checked-Answers (ok none) h r m e = absurd (cc)
  checked-Answers (err x) h r m e = absurd (cc)
  checked-Answers (ok (some x)) h r m e =
      (checked t ops.signature_policy (ok (some x)), r, (refl, refl, (cc)))

  does_asked :
      (P : History → Type 0) → Does t ops.signature_policy P (asked_approvals w ops t) Answers
  unfolding asked_approvals
  does_asked P =
      does_bind t ops.signature_policy P
        (ask (λ h. w.check_readiness h t ops.signature_policy) (checked t ops.signature_policy))
        (λ a. pure (approvals_in a)) (λ a h. Ran (checked t ops.signature_policy a) h) Answers
        (does_ask t ops.signature_policy (λ h. w.check_readiness h t ops.signature_policy)
          (checked t ops.signature_policy) P (λ a h p. tt))
        λ a.
          does_pure t ops.signature_policy (λ h. Ran (checked t ops.signature_policy a) h)
            (approvals_in a) Answers (checked-Answers a)

  -- The approvals that `CheckCommitReadiness` gives come from an answer for the sequence.
  pub does_check :
      (P : History → Type 0)
      → Does t ops.signature_policy P (check_commit_readiness w ops t) Answers
  unfolding check_commit_readiness
  does_check P =
      does_bind t ops.signature_policy P (query_committed_definition w) (λ c. after c)
        (λ c h. Ran (queried_committed c) h) Answers (does_query P)
        λ c.
          does_option t ops.signature_policy (λ h. Ran (queried_committed c) h) Answers
            (committed_approvals t c) (asked_approvals w ops t) (λ approvals. pure (some approvals))
            (λ none_found. does_asked (λ h. Ran (queried_committed c) h))
            λ approvals given.
              does_pure t ops.signature_policy (λ h. Ran (queried_committed c) h) (some approvals)
                Answers
                λ h r m e. (
                  queried_committed c,
                  r,
                  committed_approvals-IsAnswer t ops.signature_policy c m (given ∙ e),
                )
    where
      after : Option Committed → Call (Option (Dict Bool))
      after c = elim (committed_approvals t c) [
        | some approvals ↦ pure (some approvals)
        | none ↦ asked_approvals w ops t
      ]

  -- Where the call says yes, an answer shows it.
  abbrev pub Approves : Bool → History → Type 0
  Approves b h = b ≡ true → Shown (IsApproval ops.msp_id t ops.signature_policy) h

  Answers→Approves :
      (found : Option (Dict Bool)) (h : History)
      → Answers found h
      → Approves (approved_by ops.msp_id found) h
  Answers→Approves none h a e = absurd (cc)
  Answers→Approves (some m) h a e =
      let (x, r, p) = a m refl in
      (x, r, IsAnswer→IsApproval t ops.signature_policy ops.msp_id m x e p)

  does_approved_asked :
      (P : History → Type 0) → Does t ops.signature_policy P (is_approved_asked w ops t) Approves
  unfolding is_approved_asked
  does_approved_asked P =
      does_bind t ops.signature_policy P (check_commit_readiness w ops t)
        (λ found. pure (approved_by ops.msp_id found)) Answers Approves (does_check P)
        λ found.
          does_pure t ops.signature_policy (Answers found) (approved_by ops.msp_id found) Approves
            (Answers→Approves found)

  pub does_approved :
      (P : History → Type 0)
      → Does t ops.signature_policy P (is_approved_for_my_org w ops t) Approves
  unfolding is_approved_for_my_org
  does_approved P =
      does_bind t ops.signature_policy P (query_committed_definition w) _
        (λ c h. Ran (queried_committed c) h) Approves (does_query P)
        λ c.
          does_option t ops.signature_policy (λ h. Ran (queried_committed c) h) Approves
            (committed_approvals t c) (is_approved_asked w ops t)
            (λ approvals. pure (approved_by ops.msp_id (some approvals)))
            (λ none_found. does_approved_asked (λ h. Ran (queried_committed c) h))
            λ approvals given.
              does_pure t ops.signature_policy (λ h. Ran (queried_committed c) h)
                (approved_by ops.msp_id (some approvals)) Approves
                λ h r yes_said.
                  Answers→Approves (some approvals) h
                    (λ m e. (
                      queried_committed c,
                      r,
                      committed_approvals-IsAnswer t ops.signature_policy c m (given ∙ e),
                    ))
                    yes_said

  does_readiness_loop :
      (P : History → Type 0) (timeout left : ℕ) (last : String)
      → Does t ops.signature_policy P (readiness_loop w ops timeout left t last) Plain
  unfolding readiness_loop
  does_readiness_loop P timeout zero last =
      does_raise t ops.signature_policy {A = Unit {0}} P (lifecycle_not_ready timeout last) Plain
  does_readiness_loop P timeout (suc left) last =
      does_bind t ops.signature_policy P
        (ask (λ h. w.check_readiness h t ops.signature_policy) (checked t ops.signature_policy)) _
        Plain Plain
        (λ h p. (
          more (checked t ops.signature_policy (w.check_readiness h t ops.signature_policy)) same
              tt,
          tt,
        ))
        λ a.
          does_result t ops.signature_policy Anyway Plain a (λ found. pure tt) _
            (λ found e. does_pure t ops.signature_policy Anyway tt Plain (λ h u. tt))
            λ output e.
              does_if t ops.signature_policy Anyway Plain
                (not (is_lifecycle_syncing_error w.to_lower (w.trim output)))
                (raise (readiness_failed (w.trim output))) _
                (λ b.
                  does_raise t ops.signature_policy {A = Unit {0}} Anyway
                    (readiness_failed (w.trim output)) Plain)
                λ b.
                  does_bind t ops.signature_policy Anyway (modify (λ h. slept 1 ∷ h)) _ Plain Plain
                    (does_sleep t ops.signature_policy Anyway 1)
                    λ u. does_readiness_loop Anyway timeout left (w.trim output)

  pub does_wait :
      (P : History → Type 0) (timeout : ℤ)
      → Does t ops.signature_policy P (wait_for_lifecycle_ready w ops t timeout) Plain
  unfolding wait_for_lifecycle_ready
  does_wait P timeout =
      does_bind t ops.signature_policy P (query_committed_definition w) _ Plain Plain
        (λ h p. (more (queried_committed (w.query_committed h)) same tt, tt))
        λ c.
          does_if t ops.signature_policy Anyway Plain (is_past t c) (pure tt) _
            (λ b. does_pure t ops.signature_policy Anyway tt Plain (λ h u. tt))
            λ b. does_readiness_loop Anyway (attempts_of timeout) (attempts_of timeout) ""
