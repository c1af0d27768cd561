-- ===== src/Ops/Lifecycle/Deploys.antt =====
-- What `EnsureChaincodeDeployed` does to the channel, and what any calls of the two functions leave
-- in the history.
use kufi_chain.Prelude.{
  String, ◌≡◌, Bool, true, false, not, none, some, ◌∷◌, if◌then◌else◌, ◌==◌, ◌&&◌,
}
use kufi_chain.Prelude.Int.{ℤ, pos, leb_ℤ}
use kufi_chain.Prelude.Action.{Result, ok, err, pure, raise, raise_if, modify, ◌>>=◌, ◌>>◌}
use kufi_chain.Ops.Types.{
  ChaincodeOps, Error, readiness_unknown, no_dockerfile, build_failed, run_failed, install_failed,
  package_failed, no_package_id,
}
use kufi_chain.Ops.Host.{
  Event, queried_committed, queried_installed, installed, built_image, built_package,
  removed_container, ran_container, notified, History, World,
}
use kufi_chain.Ops.Policy.{Codec}
use kufi_chain.Ops.Lifecycle.{
  ask, raise_error, has_majority, installed_package_id, install_new, install_chaincode,
  check_commit_readiness, is_approved_for_my_org, wait_for_lifecycle_ready, approve_chaincode,
  commit_chaincode, committed_sequence, committed_signature_policy, sequence_of, policy_or_empty,
}
use kufi_chain.Ops.Lifecycle.Deploy.{
  build_new, build_chaincode_image, start_new, start_cc_container, install_package,
  ensure_installed, ensure_approved, commit_or_notify, ensure_chaincode_deployed,
  notify_peers_to_upgrade, notify_addresses, is_upgrade,
}
use kufi_chain.Ops.Lifecycle.Steps.{
  Shown, IsMajority, IsApproval, IsCommit, Allowed, same, more, Ends-after, Ends, Does, does_keep,
  does_if, does_bind, does_weaken, Anyway, Plain, does_pure, does_option, does_raise,
}
use kufi_chain.Ops.Lifecycle.Calls.{
  Answers, Approves, IsAnswer→IsMajority, does_check, does_approved, does_wait,
}
use kufi_chain.Ops.Lifecycle.Attempts.{does_approve, commit_chaincode-IsCommit}
use kufi_chain.Ops.Lifecycle.Commits.{target_after, target_sequence-pos}

module _ (w : World) (t : ℤ) (ops : ChaincodeOps) where
  -- A command that may be run at any time, whose error ends the call.
  does_run :
      {A : Type 0} (P : History → Type 0) (answer : History → Result String A)
      (event : Result String A → Event) (fail : String → Error)
      → ((h : History) (a : Result String A) → Allowed t ops.signature_policy h (event a))
      → Does t ops.signature_policy P (ask answer event >>= λ a. raise_error a fail) Plain
  does_run {A} P answer event fail allowed h p = finish (answer h) (allowed h (answer h))
    where
      finish :
          (a : Result String A)
          → Allowed t ops.signature_policy h (event a)
          → let r = raise_error a fail (event a ∷ h) in Ends t ops.signature_policy Plain h r.0 r.1
      finish (ok x) q = (more (event (ok x)) same q, tt)
      finish (err e) q = more (event (err e)) same q

  does_raise_if :
      (P : History → Type 0) (b : Bool) (e : Error)
      → Does t ops.signature_policy P (raise_if b e) Plain
  does_raise_if P true e h p = same
  does_raise_if P false e h p = (same, tt)

  does_image :
      (P : History → Type 0) → Does t ops.signature_policy P (build_chaincode_image w ops) Plain
  unfolding build_chaincode_image build_new
  does_image P h p =
      does_if t ops.signature_policy P Plain (w.image_exists h) (pure tt) (build_new w ops)
        (λ e. does_pure t ops.signature_policy P tt Plain (λ h p. tt))
        (λ e h p.
          does_bind t ops.signature_policy P
            (raise_if (not (w.has_dockerfile h)) (no_dockerfile ops.project_root)) _ Plain Plain
            (does_raise_if P (not (w.has_dockerfile h)) (no_dockerfile ops.project_root))
            (λ u. does_run Anyway w.docker_build built_image build_failed (λ h a. tt)) h p)
        h p

  does_start :
      (P : History → Type 0) (id : String)
      → Does t ops.signature_policy P (start_cc_container w id) Plain
  unfolding start_cc_container start_new
  does_start P id h p =
      does_if t ops.signature_policy P Plain (w.container_running h) (pure tt) (start_new w id)
        (λ e. does_pure t ops.signature_policy P tt Plain (λ h p. tt))
        (λ e.
          does_bind t ops.signature_policy P (modify (λ h. removed_container ∷ h)) _ Plain Plain
            (λ h p. (more removed_container same tt, tt))
            λ u. does_run Anyway (λ h. w.docker_run h id) (ran_container id) run_failed (λ h a. tt))
        h p

  does_package_id :
      (P : History → Type 0) → Does t ops.signature_policy P (installed_package_id w ops) Plain
  unfolding installed_package_id
  does_package_id P h p = (more (queried_installed (w.query_installed h)) same tt, tt)

  does_install_new :
      (P : History → Type 0) (path : String)
      → Does t ops.signature_policy P (install_new w ops path) Plain
  unfolding install_new
  does_install_new P path =
      does_bind t ops.signature_policy P
        (ask (λ h. w.install h path) (installed path) >>= λ a. raise_error a install_failed) _ Plain
        Plain (does_run P (λ h. w.install h path) (installed path) install_failed (λ h a. tt))
        λ u.
          does_bind t ops.signature_policy Anyway (installed_package_id w ops) _ Plain Plain
            (does_package_id Anyway)
            λ id.
              does_bind t ops.signature_policy Anyway (raise_if (id == "") (no_package_id path))
                (λ u. pure id) Plain Plain (does_raise_if Anyway (id == "") (no_package_id path))
                λ u. does_pure t ops.signature_policy Anyway id Plain (λ h u. tt)

  does_install :
      (P : History → Type 0) (path : String)
      → Does t ops.signature_policy P (install_chaincode w ops path) Plain
  unfolding install_chaincode
  does_install P path =
      does_bind t ops.signature_policy P (installed_package_id w ops) _ Plain Plain
        (does_package_id P)
        λ known.
          does_if t ops.signature_policy Anyway Plain (known == "") (install_new w ops path)
            (pure known) (λ e. does_install_new Anyway path)
            λ e. does_pure t ops.signature_policy Anyway known Plain (λ h u. tt)

  does_install_package :
      (P : History → Type 0) → Does t ops.signature_policy P (install_package w ops) Plain
  unfolding install_package
  does_install_package P =
      does_bind t ops.signature_policy P
        (ask w.build_package built_package >>= λ a. raise_error a package_failed)
        (λ path. install_chaincode w ops path) Plain Plain
        (does_run P w.build_package built_package package_failed (λ h a. tt)) (does_install Anyway)

  does_installed :
      (P : History → Type 0) → Does t ops.signature_policy P (ensure_installed w ops) Plain
  unfolding ensure_installed
  does_installed P =
      does_bind t ops.signature_policy P (installed_package_id w ops) _ Plain Plain
        (does_package_id P)
        λ id.
          does_if t ops.signature_policy Anyway Plain (id == "") (install_package w ops) (pure id)
            (λ e. does_install_package Anyway)
            λ e. does_pure t ops.signature_policy Anyway id Plain (λ h u. tt)

  -- The org has approved the sequence.
  abbrev Ours : Unit {0} → History → Type 0
  Ours u h = Shown (IsApproval ops.msp_id t ops.signature_policy) h

  does_ensure_approved :
      (P : History → Type 0) (id : String)
      → Does t ops.signature_policy P (ensure_approved w ops id t) Ours
  unfolding ensure_approved
  does_ensure_approved P id =
      does_bind t ops.signature_policy P (is_approved_for_my_org w ops t) _ (Approves w t ops) Ours
        (does_approved w t ops P)
        λ b.
          does_if t ops.signature_policy (Approves w t ops b) Ours b (pure tt)
            (approve_chaincode w ops id t)
            (λ e. does_pure t ops.signature_policy (Approves w t ops b) tt Ours (λ h a. a e))
            λ e. does_approve w t ops (Approves w t ops b) id

  module _ (positive : leb_ℤ (pos 1) t ≡ true) where
    does_commit_or_notify :
        (P : History → Type 0) → Does t ops.signature_policy P (commit_or_notify w ops t) Plain
    unfolding commit_or_notify notify_peers_to_upgrade
    does_commit_or_notify P =
        does_bind t ops.signature_policy P (check_commit_readiness w ops t) _ (Answers w t ops)
          Plain (does_check w t ops P)
          λ found.
            does_option t ops.signature_policy (Answers w t ops found) Plain found
              (raise readiness_unknown) _
              (λ e.
                does_raise t ops.signature_policy {A = Unit {0}} (Answers w t ops found)
                  readiness_unknown Plain)
              λ m given.
                does_if t ops.signature_policy (Answers w t ops found) Plain (has_majority m)
                  (commit_chaincode w ops t) (notify_peers_to_upgrade ops)
                  (λ e h a.
                    does_weaken t ops.signature_policy (Shown (IsMajority t ops.signature_policy))
                      (commit_chaincode w ops t) (λ u h. Shown (IsCommit t) h) Plain
                      (commit_chaincode-IsCommit w t ops positive) (λ u h s. tt) h
                      (let (x, r, q) = a m given in
                        (x, r, IsAnswer→IsMajority t ops.signature_policy m x e q)))
                  λ e h a. (more (notified (notify_addresses ops.peer_endpoints)) same tt, tt)

    -- After the target has been found.
    does_deploy :
        (P : History → Type 0) (done : Bool)
        → Does t ops.signature_policy P
            (build_chaincode_image w ops
              >> (ensure_installed w ops >>= λ id.
                  start_cc_container w id
                  >> (wait_for_lifecycle_ready w ops t (pos 120)
                      >> (ensure_approved w ops id t
                          >> (if done then pure tt else commit_or_notify w ops t)))))
            Ours
    does_deploy P done =
        does_bind t ops.signature_policy P (build_chaincode_image w ops) _ Plain Ours (does_image P)
          λ u.
            does_bind t ops.signature_policy Anyway (ensure_installed w ops) _ Plain Ours
              (does_installed Anyway)
              λ id.
                does_bind t ops.signature_policy Anyway (start_cc_container w id) _ Plain Ours
                  (does_start Anyway id)
                  λ u.
                    does_bind t ops.signature_policy Anyway
                      (wait_for_lifecycle_ready w ops t (pos 120)) _ Plain Ours
                      (does_wait w t ops Anyway (pos 120))
                      λ u.
                        does_bind t ops.signature_policy Anyway (ensure_approved w ops id t)
                          (λ u. if done then pure tt else commit_or_notify w ops t) Ours Ours
                          (does_ensure_approved Anyway id)
                          λ u.
                            does_if t ops.signature_policy (Ours tt) Ours done (pure tt)
                              (commit_or_notify w ops t)
                              (λ e. does_pure t ops.signature_policy (Ours tt) tt Ours (λ h o. o))
                              λ e h o. kept h o
      where
        kept : Does t ops.signature_policy (Ours tt) (commit_or_notify w ops t) Ours
        kept h o =
            does_weaken t ops.signature_policy (λ h. Anyway h × Ours tt h)
              (commit_or_notify w ops t) (λ u h. Plain u h × Ours tt h) Ours
              (does_keep t ops.signature_policy (IsApproval ops.msp_id t ops.signature_policy)
                Anyway (commit_or_notify w ops t) Plain (does_commit_or_notify Anyway))
              (λ u h (x, o). o) h (tt, o)

module _ (w : World) (codec : Codec) (ops : ChaincodeOps) where
  -- Whatever a call of `EnsureChaincodeDeployed` approves or commits has the target sequence and the
  -- policy that the node wants, and is committed only after an answer that shows a majority for both,
  -- or one that shows the sequence as committed with the approvals of a majority. A call that returns
  -- no error leaves a history that shows the approval of this org in the same sense.
  pub ensure_chaincode_deployed-Ends :
      (h : History)
      → let r = ensure_chaincode_deployed w codec ops h in
        Ends
          (target_after w codec ops h)
          ops.signature_policy
          (λ u h'.
            Shown (IsApproval ops.msp_id (target_after w codec ops h) ops.signature_policy) h')
          h
          r.0
          r.1
  unfolding ensure_chaincode_deployed committed_sequence committed_signature_policy
  ensure_chaincode_deployed-Ends h =
      let c = w.query_committed h in
      let h₁ = queried_committed c ∷ h in
      let d = w.query_committed h₁ in
      let policy : String = elim d [ none ↦ "" | some found ↦ policy_or_empty codec found ] in
      let t = target_after w codec ops h in
      let done =
        leb_ℤ (pos 1) (sequence_of c)
        && not (is_upgrade (sequence_of c) policy ops.signature_policy) in
      Ends-after t ops.signature_policy (Ours w t ops) h (queried_committed d ∷ h₁) _ _
        (more (queried_committed d) (more (queried_committed c) same tt) tt)
        (does_deploy w t ops (target_sequence-pos (sequence_of c) policy ops.signature_policy)
          Anyway done (queried_committed d ∷ h₁) tt)
