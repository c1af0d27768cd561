-- ===== src/Ops/Lifecycle/Attempts.antt =====
-- The loops that run one command until it succeeds, and the calls that end in them.
use kufi_chain.Prelude.{
  ℕ, zero, suc, String, ◌≡◌, refl, subst, inl, inr, true, Option, none, some, List, ◌∷◌, arith,
  if◌then◌else◌,
}
use kufi_chain.Prelude.Int.{ℤ, pos, leb_ℤ}
use kufi_chain.Prelude.Action.{Result, ok, err, pure, raise, ◌>>=◌, ◌>>◌}
use kufi_chain.Ops.Types.{ChaincodeOps, Error, approve_failed, commit_failed}
use kufi_chain.Ops.Host.{
  Committed, Event, queried_committed, approved, committed, slept, History, World,
}
use kufi_chain.Ops.Lifecycle.{
  Call, ask, raise_error, sleep, sequence_of, is_lifecycle_syncing_error,
  query_committed_definition, committed_sequence, is_approved_for_my_org, approve_loop,
  approve_chaincode, commit_addresses, commit_loop, commit_chaincode,
}
use kufi_chain.Ops.Lifecycle.Steps.{
  Ran, Shown, IsMajority, IsApproval, IsCommit, Allowed, same, more, Ends, Does, does_if, does_bind,
  Anyway, does_pure, does_result, does_raise,
}
use kufi_chain.Ops.Lifecycle.Calls.{Approves, does_approved}

module _ (w : World) (t : ℤ) (ops : ChaincodeOps) where
  -- One attempt at a command: it is run where `P` holds, which nothing that is run afterwards
  -- undoes, and a success of it shows `K`.
  module _ (P : History → Type 0) (K : Event → Type 0) (answer : History → Result String (Unit {0}))
      (event : Result String (Unit {0}) → Event) (fail : String → Error)
      (stays : (e : Event) (h : History) → P h → P (e ∷ h))
      (allowed : (a : Result String (Unit {0})) (h : History)
        → P h
        → Allowed t ops.signature_policy h (event a))
      (shows : (u : Unit {0}) → K (event (ok u))) where
    does_last :
        Does t ops.signature_policy P
          (ask answer event >>= λ a. raise_error a (λ output. fail (w.trim output)))
          (λ u h. Shown K h)
    does_last h p = finish (answer h) (allowed (answer h) h p)
      where
        finish :
            (a : Result String (Unit {0}))
            → Allowed t ops.signature_policy h (event a)
            → let r = raise_error a (λ output. fail (w.trim output)) (event a ∷ h) in
              Ends t ops.signature_policy (λ u h'. Shown K h') h r.0 r.1
        finish (ok u) q = (more (event (ok u)) same q, (event (ok u), inl refl, shows u))
        finish (err e) q = more (event (err e)) same q

    does_attempt :
        (next : Call (Unit {0}))
        → Does t ops.signature_policy P next (λ u h. Shown K h)
        → Does t ops.signature_policy P
            (ask answer event >>= λ a. elim a [
              | ok done ↦ pure tt
              | err output ↦
                  if is_lifecycle_syncing_error w.to_lower (w.trim output)
                  then (sleep 5 >> next)
                  else raise (fail (w.trim output))
            ])
            (λ u h. Shown K h)
    does_attempt next d =
        does_bind t ops.signature_policy P (ask answer event) _ Noted (λ u h. Shown K h)
          (λ h p. (
            more (event (answer h)) same (allowed (answer h) h p),
            (stays (event (answer h)) h p, inl refl),
          ))
          λ a.
            does_result t ops.signature_policy (Noted a) (λ u h. Shown K h) a (λ done. pure tt) _
              (won a)
              λ output e.
                does_if t ops.signature_policy (Noted a) (λ u h. Shown K h)
                  (is_lifecycle_syncing_error w.to_lower (w.trim output)) (sleep 5 >> next)
                  (raise (fail (w.trim output)))
                  (λ again.
                    does_bind t ops.signature_policy (Noted a) (sleep 5) (λ u. next) (λ u. P)
                      (λ u h. Shown K h) (λ h (p, r). (more (slept 5) same tt, stays (slept 5) h p))
                      (λ u. d))
                  λ final.
                    does_raise t ops.signature_policy {A = Unit {0}} (Noted a)
                      (fail (w.trim output)) (λ u h. Shown K h)
      where
        Noted : Result String (Unit {0}) → History → Type 0
        Noted a h = P h × Ran (event a) h

        won :
            (a : Result String (Unit {0})) (u : Unit {0})
            → a ≡ ok u
            → Does t ops.signature_policy (λ h. P h × Ran (event a) h) (pure tt) (λ u h. Shown K h)
        won (ok u) v e h (p, r) = (same, (event (ok u), r, shows u))
        won (err x) v e h q = absurd (cc)

  does_approve_loop :
      (msp_id : String) (left : ℕ) (id : String)
      → Does t ops.signature_policy Anyway
          (approve_loop w ops left id t)
          (λ u h. Shown (IsApproval msp_id t ops.signature_policy) h)
  unfolding approve_loop
  does_approve_loop msp_id zero id =
      does_last Anyway (IsApproval msp_id t ops.signature_policy)
        (λ h. w.approve h id t ops.signature_policy) (approved id t ops.signature_policy)
        approve_failed (λ e h u. tt) (λ a h u. (refl, refl)) (λ u. (refl, refl))
  does_approve_loop msp_id (suc left) id =
      does_attempt Anyway (IsApproval msp_id t ops.signature_policy)
        (λ h. w.approve h id t ops.signature_policy) (approved id t ops.signature_policy)
        approve_failed (λ e h u. tt) (λ a h u. (refl, refl)) (λ u. (refl, refl))
        (approve_loop w ops left id t) (does_approve_loop msp_id left id)

  -- Where `ApproveChaincode` returns no error, the org has approved the sequence.
  pub does_approve :
      (P : History → Type 0) (id : String)
      → Does t ops.signature_policy P
          (approve_chaincode w ops id t)
          (λ u h. Shown (IsApproval ops.msp_id t ops.signature_policy) h)
  unfolding approve_chaincode
  does_approve P id =
      does_bind t ops.signature_policy P (is_approved_for_my_org w ops t) _ (Approves w t ops)
        (λ u h. Shown (IsApproval ops.msp_id t ops.signature_policy) h) (does_approved w t ops P)
        λ b.
          does_if t ops.signature_policy (Approves w t ops b)
            (λ u h. Shown (IsApproval ops.msp_id t ops.signature_policy) h) b (pure tt) _
            (λ e.
              does_pure t ops.signature_policy (Approves w t ops b) tt
                (λ u h. Shown (IsApproval ops.msp_id t ops.signature_policy) h) (λ h a. a e))
            λ e h a. does_approve_loop ops.msp_id 23 id h tt

  does_commit_loop :
      (left : ℕ) (addresses : List String)
      → Does t ops.signature_policy
          (Shown (IsMajority t ops.signature_policy))
          (commit_loop w ops left addresses t)
          (λ u h. Shown (IsCommit t) h)
  unfolding commit_loop
  does_commit_loop zero addresses =
      does_last (Shown (IsMajority t ops.signature_policy)) (IsCommit t)
        (λ h. w.commit h t ops.signature_policy addresses)
        (committed t ops.signature_policy addresses) commit_failed (λ e h (x, r, m). (x, inr r, m))
        (λ a h m. (refl, refl, m)) (λ u. refl)
  does_commit_loop (suc left) addresses =
      does_attempt (Shown (IsMajority t ops.signature_policy)) (IsCommit t)
        (λ h. w.commit h t ops.signature_policy addresses)
        (committed t ops.signature_policy addresses) commit_failed (λ e h (x, r, m). (x, inr r, m))
        (λ a h m. (refl, refl, m)) (λ u. refl) (commit_loop w ops left addresses t)
        (does_commit_loop left addresses)

  pub sequence_of-IsCommit :
      (c : Option Committed)
      → leb_ℤ t (sequence_of c) ≡ true
      → leb_ℤ (pos 1) t ≡ true
      → IsCommit t (queried_committed c)
  sequence_of-IsCommit none h positive = absurd (ground arith)
  sequence_of-IsCommit (some c) h positive = h

  -- The sequence that has been read, with the answer that gave it.
  abbrev pub Latest : (History → Type 0) → ℤ → History → Type 0
  Latest P latest h =
      (c : Option Committed) × (latest ≡ sequence_of c) × Ran (queried_committed c) h × P h

  pub committed_sequence-Latest :
      (P : History → Type 0)
      → ((e : Event) (h : History) → P h → P (e ∷ h))
      → Does t ops.signature_policy P (committed_sequence w) (Latest P)
  unfolding committed_sequence query_committed_definition
  committed_sequence-Latest P stays h p =
      let c = w.query_committed h in
      (more (queried_committed c) same tt, (c, refl, inl refl, stays (queried_committed c) h p))

  -- Where `CommitChaincode` returns no error, the sequence is committed.
  pub commit_chaincode-IsCommit :
      leb_ℤ (pos 1) t ≡ true
      → Does t ops.signature_policy
          (Shown (IsMajority t ops.signature_policy))
          (commit_chaincode w ops t)
          (λ u h. Shown (IsCommit t) h)
  unfolding commit_chaincode
  commit_chaincode-IsCommit positive =
      does_bind t ops.signature_policy (Shown (IsMajority t ops.signature_policy))
        (committed_sequence w) _ (Latest (Shown (IsMajority t ops.signature_policy)))
        (λ u h. Shown (IsCommit t) h)
        (committed_sequence-Latest (Shown (IsMajority t ops.signature_policy))
          (λ e h (x, r, m). (x, inr r, m)))
        λ latest.
          does_if t ops.signature_policy (Latest (Shown (IsMajority t ops.signature_policy)) latest)
            (λ u h. Shown (IsCommit t) h) (leb_ℤ t latest) (pure tt) _
            (λ past.
              does_pure t ops.signature_policy
                (Latest (Shown (IsMajority t ops.signature_policy)) latest) tt
                (λ u h. Shown (IsCommit t) h)
                λ h (c, e, r, m). (
                  queried_committed c,
                  r,
                  sequence_of-IsCommit c (subst (λ s. leb_ℤ t s ≡ true) e past) positive,
                ))
            λ below h (c, e, r, m). does_commit_loop 11 (commit_addresses w ops.peer_endpoints) h m
