-- ===== src/Ops/Lifecycle/Commits.antt =====
-- What `TryCommitIfReady` and `EnsureChaincodeDeployed` do to the channel.
use kufi_chain.Prelude.{
  String, ◌≡◌, refl, sym, subst, inl, inr, Bool, true, false, not, none, some, ◌∷◌, arith,
  if◌then◌else◌, ◌==◌, ◌&&◌,
}
use kufi_chain.Prelude.Int.{ℤ, pos, leb_ℤ, eq_ℤ, +ℤ_parts}
use kufi_chain.Prelude.Action.{pure, caught, is_ok, ◌>>=◌}
use kufi_chain.Ops.Types.{ChaincodeOps}
use kufi_chain.Ops.Host.{queried_committed, queried_installed, History, World}
use kufi_chain.Ops.Policy.{Codec}
use kufi_chain.Ops.Lifecycle.{
  has_majority, sequence_of, policy_or_empty, committed_sequence, committed_signature_policy,
  installed_package_id, check_commit_readiness, is_approved_for_my_org, wait_for_lifecycle_ready,
  approve_chaincode, commit_chaincode,
}
use kufi_chain.Ops.Lifecycle.Deploy.{
  target_sequence, approve_with, approve_missing, approve_installed, commit_if_majority,
  approve_and_commit, wait_and_commit, try_commit_if_ready,
}
use kufi_chain.Ops.Lifecycle.Steps.{
  Shown, IsMajority, IsApproval, IsCommit, same, more, Ends-after, Ends, Does, does_keep, does_if,
  does_bind, does_caught, Caught, does_tried, does_weaken, Anyway, Plain, does_pure, does_option,
}
use kufi_chain.Ops.Lifecycle.Calls.{
  Answers, Approves, IsAnswer→IsMajority, does_check, does_approved, does_wait,
}
use kufi_chain.Ops.Lifecycle.Attempts.{
  does_approve, commit_chaincode-IsCommit, sequence_of-IsCommit,
}

-- The target is a sequence, not 0.
pub target_sequence-pos :
    (latest : ℤ) (policy wanted : String)
    → leb_ℤ (pos 1) (target_sequence latest policy wanted) ≡ true
unfolding target_sequence
target_sequence-pos latest policy wanted = ground (arith, +ℤ_parts latest (pos 1))

module _ (w : World) (t : ℤ) (ops : ChaincodeOps) where
  abbrev Own : Bool → History → Type 0
  Own = Approves w t ops

  does_approve_with :
      (P : History → Type 0) (id : String)
      → Does t ops.signature_policy P (approve_with w ops id t) Own
  unfolding approve_with
  does_approve_with P id =
      does_tried t ops.signature_policy P (approve_chaincode w ops id t)
        (Shown (IsApproval ops.msp_id t ops.signature_policy)) (does_approve w t ops P id)

  does_approve_missing :
      (P : History → Type 0) → Does t ops.signature_policy P (approve_missing w ops t) Own
  unfolding approve_missing installed_package_id
  does_approve_missing P =
      does_bind t ops.signature_policy P (installed_package_id w ops) _ Plain Own
        (λ h p. (more (queried_installed (w.query_installed h)) same tt, tt))
        λ id.
          does_if t ops.signature_policy Anyway Own (id == "") (pure false)
            (approve_with w ops id t)
            (λ e. does_pure t ops.signature_policy Anyway false Own (λ h u e. absurd (cc)))
            λ e. does_approve_with Anyway id

  does_approve_installed :
      (P : History → Type 0) → Does t ops.signature_policy P (approve_installed w ops t) Own
  unfolding approve_installed
  does_approve_installed P =
      does_bind t ops.signature_policy P (is_approved_for_my_org w ops t) _ Own Own
        (does_approved w t ops P)
        λ b.
          does_if t ops.signature_policy (Own b) Own b (pure true) (approve_missing w ops t)
            (λ e. does_pure t ops.signature_policy (Own b) true Own (λ h o u. o e))
            λ e. does_approve_missing (Own b)

  -- Where the call says yes, the sequence is committed.
  abbrev Done : Bool → History → Type 0
  Done b h = b ≡ true → Shown (IsCommit t) h

  module _ (positive : leb_ℤ (pos 1) t ≡ true) where
    does_commit_if_majority :
        (P : History → Type 0) → Does t ops.signature_policy P (commit_if_majority w ops t) Done
    unfolding commit_if_majority
    does_commit_if_majority P =
        does_bind t ops.signature_policy P (check_commit_readiness w ops t) _ (Answers w t ops) Done
          (does_check w t ops P)
          λ found.
            does_option t ops.signature_policy (Answers w t ops found) Done found (pure false) _
              (λ e.
                does_pure t ops.signature_policy (Answers w t ops found) false Done
                  (λ h a e. absurd (cc)))
              λ m given.
                does_if t ops.signature_policy (Answers w t ops found) Done (not (has_majority m))
                  (pure false) (caught (commit_chaincode w ops t) >>= λ r. pure (is_ok r))
                  (λ e.
                    does_pure t ops.signature_policy (Answers w t ops found) false Done
                      (λ h a e. absurd (cc)))
                  λ e h a. committing h (
                    let (x, r, q) = a m given in
                    (x, r, IsAnswer→IsMajority t ops.signature_policy m x (ground arith) q))
      where
        committing :
            Does t ops.signature_policy
              (Shown (IsMajority t ops.signature_policy))
              (caught (commit_chaincode w ops t) >>= λ r. pure (is_ok r))
              Done
        committing =
            does_tried t ops.signature_policy (Shown (IsMajority t ops.signature_policy))
              (commit_chaincode w ops t) (Shown (IsCommit t))
              (commit_chaincode-IsCommit w t ops positive)

    -- Where the call says yes, the org has approved the sequence and it is committed.
    abbrev Both : Bool → History → Type 0
    Both b h =
        b ≡ true → Shown (IsApproval ops.msp_id t ops.signature_policy) h × Shown (IsCommit t) h

    does_approve_and_commit :
        (P : History → Type 0) → Does t ops.signature_policy P (approve_and_commit w ops t) Both
    unfolding approve_and_commit
    does_approve_and_commit P =
        does_bind t ops.signature_policy P (approve_installed w ops t) _ Own Both
          (does_approve_installed P)
          λ b.
            does_if t ops.signature_policy (Own b) Both b (commit_if_majority w ops t) (pure false)
              (λ e h o. with_own h (o e))
              λ e. does_pure t ops.signature_policy (Own b) false Both (λ h o e. absurd (cc))
      where
        with_own :
            Does t ops.signature_policy
              (Shown (IsApproval ops.msp_id t ops.signature_policy))
              (commit_if_majority w ops t)
              Both
        with_own h o =
            does_weaken t ops.signature_policy
              (λ h. Anyway h × Shown (IsApproval ops.msp_id t ops.signature_policy) h)
              (commit_if_majority w ops t)
              (λ b h. Done b h × Shown (IsApproval ops.msp_id t ops.signature_policy) h) Both
              (does_keep t ops.signature_policy (IsApproval ops.msp_id t ops.signature_policy)
                Anyway (commit_if_majority w ops t) Done (does_commit_if_majority Anyway))
              (λ b h (d, own) e. (own, d e)) h (tt, o)

    does_wait_and_commit :
        (P : History → Type 0) → Does t ops.signature_policy P (wait_and_commit w ops t) Both
    unfolding wait_and_commit
    does_wait_and_commit P =
        does_bind t ops.signature_policy P (caught (wait_for_lifecycle_ready w ops t (pos 30))) _
          (Caught t ops.signature_policy Plain) Both
          (does_caught t ops.signature_policy P (wait_for_lifecycle_ready w ops t (pos 30)) Plain
            (does_wait w t ops P (pos 30)))
          λ r.
            does_if t ops.signature_policy (Caught t ops.signature_policy Plain r) Both
              (not (is_ok r)) (pure false) (approve_and_commit w ops t)
              (λ e.
                does_pure t ops.signature_policy (Caught t ops.signature_policy Plain r) false Both
                  (λ h u e. absurd (cc)))
              λ e. does_approve_and_commit (Caught t ops.signature_policy Plain r)

    -- After the target has been found.
    does_target :
        (past : Bool) (P : History → Type 0)
        → (past ≡ true → (h : History) → P h → Shown (IsCommit t) h)
        → Does t ops.signature_policy P
            (if past then approve_installed w ops t else wait_and_commit w ops t)
            Both
    does_target true P seen = λ h p.
        does_weaken t ops.signature_policy (λ h. Anyway h × Shown (IsCommit t) h)
          (approve_installed w ops t) (λ b h. Own b h × Shown (IsCommit t) h) Both
          (does_keep t ops.signature_policy (IsCommit t) Anyway (approve_installed w ops t) Own
            (does_approve_installed Anyway))
          (λ b h (own, d) e. (own e, d)) h (tt, seen refl h p)
    does_target false P seen = does_wait_and_commit P

module _ (w : World) (codec : Codec) (ops : ChaincodeOps) where
  -- The sequence that a call aims at: the target for the first two answers of the peer.
  abbrev pub target_after : History → ℤ
  target_after h =
      let c = w.query_committed h in
      let d = w.query_committed (queried_committed c ∷ h) in
      target_sequence (sequence_of c)
        (elim d [ none ↦ "" | some found ↦ policy_or_empty codec found ]) ops.signature_policy

  -- Whatever a call of `TryCommitIfReady` approves or commits has the target sequence and the policy
  -- that the node wants, and is committed only after an answer that shows a majority for both, or one
  -- that shows the sequence as committed with the approvals of a majority. A call that returns true
  -- leaves a history that shows the approval of this org in the same sense, and the commit of the
  -- target, or of a later sequence.
  pub try_commit_if_ready-Ends :
      (h : History)
      → let r = try_commit_if_ready w codec ops h in
        Ends
          (target_after h)
          ops.signature_policy
          (λ b h'.
            b ≡ true
            → Shown (IsApproval ops.msp_id (target_after h) ops.signature_policy) h'
              × Shown (IsCommit (target_after h)) h')
          h
          r.0
          r.1
  unfolding try_commit_if_ready committed_sequence committed_signature_policy
  try_commit_if_ready-Ends h =
      let c = w.query_committed h in
      let h₁ = queried_committed c ∷ h in
      let d = w.query_committed h₁ in
      let h₂ = queried_committed d ∷ h₁ in
      let t = target_after h in
      let past = leb_ℤ t (sequence_of c) && eq_ℤ t (sequence_of c) in
      let positive : leb_ℤ (pos 1) t ≡ true =
        target_sequence-pos (sequence_of c)
          (elim d [ none ↦ "" | some found ↦ policy_or_empty codec found ]) ops.signature_policy in
      Ends-after t ops.signature_policy (Both w t ops positive) h h₂ _ _
        (more (queried_committed d) (more (queried_committed c) same tt) tt)
        (does_target w t ops positive past (λ h'. h' ≡ h₂)
          (λ e h' at. subst (Shown (IsCommit t)) (sym at) (
            queried_committed c,
            inr (inl refl),
            sequence_of-IsCommit w t ops c (and_left _ _ e) positive,
          ))
          h₂ refl)
    where
      and_left : (a b : Bool) → (a && b) ≡ true → a ≡ true
      and_left true b e = refl
      and_left false b e = absurd (cc)
