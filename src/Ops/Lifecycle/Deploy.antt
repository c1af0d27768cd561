-- ===== src/Ops/Lifecycle/Deploy.antt =====
-- internal/fabricops/chaincode.go: `EnsureChaincodeDeployed` and `TryCommitIfReady`, which go through
-- the steps of the lifecycle, with what they need of docker.
use kufi_chain.Prelude.{
  String, Bool, true, false, not, ◌&&◌, ◌||◌, none, some, List, [], ◌∷◌, if◌then◌else◌, ◌==◌,
}
use kufi_chain.Prelude.Int.{ℤ, pos, leb_ℤ, eq_ℤ, ◌+ℤ◌}
use kufi_chain.Prelude.Action.{pure, raise, raise_if, gets, modify, ◌>>=◌, ◌>>◌}
use kufi_chain.Prelude.Action.{caught, is_ok}
use kufi_chain.Ops.Types.{
  PeerEndpoint, ChaincodeOps, no_dockerfile, build_failed, package_failed, run_failed,
  readiness_unknown,
}
use kufi_chain.Ops.Host.{
  built_image, built_package, removed_container, ran_container, notified, World,
}
use kufi_chain.Ops.Policy.{Codec}
use kufi_chain.Ops.Lifecycle.{
  Call, ask, raise_error, has_majority, committed_sequence, committed_signature_policy,
  installed_package_id, install_chaincode, check_commit_readiness, is_approved_for_my_org,
  wait_for_lifecycle_ready, approve_chaincode, commit_chaincode,
}

-- The sequence that both functions aim at.
unfoldable pub target_sequence : ℤ → (committed_policy wanted : String) → ℤ
target_sequence latest committed_policy wanted =
    if leb_ℤ (pos 1) latest
    then (if (wanted == "") || (committed_policy == wanted) then latest else latest +ℤ pos 1)
    else pos 1

-- `upgrading`
abbrev pub is_upgrade : ℤ → (committed_policy wanted : String) → Bool
is_upgrade latest committed_policy wanted =
    leb_ℤ (pos 1) latest && not ((wanted == "") || (committed_policy == wanted))

-- The management addresses of `notifyPeersToUpgrade`, each asked in a goroutine of its own.
unfoldable pub notify_addresses : List PeerEndpoint → List String
notify_addresses [] = []
notify_addresses (ep ∷ eps) =
    if ep.mgmt_addr == "" then notify_addresses eps else ep.mgmt_addr ∷ notify_addresses eps

-- `notifyPeersToUpgrade`
unfoldable pub notify_peers_to_upgrade : ChaincodeOps → Call (Unit {0})
unfolding notify_addresses
notify_peers_to_upgrade cc = modify (λ h. notified (notify_addresses cc.peer_endpoints) ∷ h)

module _ (w : World) where
  unfoldable pub build_new : ChaincodeOps → Call (Unit {0})
  build_new cc = do
    found ← gets w.has_dockerfile
    raise_if (not found) (no_dockerfile cc.project_root)
    answer ← ask w.docker_build built_image
    raise_error answer build_failed

  -- `BuildChaincodeImage`
  unfoldable pub build_chaincode_image : ChaincodeOps → Call (Unit {0})
  unfolding build_new
  build_chaincode_image cc = do
    exists ← gets w.image_exists
    if exists then pure tt else build_new cc

  unfoldable pub start_new : String → Call (Unit {0})
  start_new package_id = do
    modify (λ h. removed_container ∷ h)
    answer ← ask (λ h. w.docker_run h package_id) (ran_container package_id)
    raise_error answer run_failed

  -- `StartCCContainer`
  unfoldable pub start_cc_container : String → Call (Unit {0})
  unfolding start_new
  start_cc_container package_id = do
    running ← gets w.container_running
    if running then pure tt else start_new package_id

  unfoldable pub install_package : ChaincodeOps → Call String
  unfolding install_chaincode
  install_package cc = do
    answer ← ask w.build_package built_package
    path ← raise_error answer package_failed
    install_chaincode w cc path

  -- The package, which is built and installed where it is not on the peer yet.
  unfoldable pub ensure_installed : ChaincodeOps → Call String
  unfolding installed_package_id install_package
  ensure_installed cc = do
    id ← installed_package_id w cc
    if id == "" then install_package cc else pure id

  unfoldable pub ensure_approved : ChaincodeOps → String → ℤ → Call (Unit {0})
  unfolding is_approved_for_my_org approve_chaincode
  ensure_approved cc package_id target = do
    already ← is_approved_for_my_org w cc target
    if already then pure tt else approve_chaincode w cc package_id target

  -- The end of `EnsureChaincodeDeployed`: the commit where a majority has approved.
  unfoldable pub commit_or_notify : ChaincodeOps → ℤ → Call (Unit {0})
  unfolding check_commit_readiness commit_chaincode notify_peers_to_upgrade
  commit_or_notify cc target = do
    found ← check_commit_readiness w cc target
    elim found [
      | none ↦ raise readiness_unknown
      | some approvals ↦
          if has_majority approvals
          then commit_chaincode w cc target
          else notify_peers_to_upgrade cc
    ]

  -- `EnsureChaincodeDeployed`
  unfoldable pub ensure_chaincode_deployed : Codec → ChaincodeOps → Call (Unit {0})
  unfolding committed_sequence committed_signature_policy build_chaincode_image ensure_installed
      start_cc_container wait_for_lifecycle_ready ensure_approved commit_or_notify
  ensure_chaincode_deployed codec cc = do
    latest ← committed_sequence w
    policy ← committed_signature_policy w codec
    let target = target_sequence latest policy cc.signature_policy
    build_chaincode_image cc
    id ← ensure_installed cc
    start_cc_container id
    wait_for_lifecycle_ready w cc target (pos 120)
    ensure_approved cc id target
    let done = leb_ℤ (pos 1) latest && not (is_upgrade latest policy cc.signature_policy)
    if done then pure tt else commit_or_notify cc target

  unfoldable pub approve_with : ChaincodeOps → String → ℤ → Call Bool
  unfolding approve_chaincode
  approve_with cc id target = do r ← caught (approve_chaincode w cc id target); pure (is_ok r)

  unfoldable pub approve_missing : ChaincodeOps → ℤ → Call Bool
  unfolding installed_package_id approve_with
  approve_missing cc target = do
    id ← installed_package_id w cc
    if id == "" then pure false else approve_with cc id target

  -- Whether this org has approved the target after the call, with the package on the peer.
  unfoldable pub approve_installed : ChaincodeOps → ℤ → Call Bool
  unfolding is_approved_for_my_org approve_missing
  approve_installed cc target = do
    already ← is_approved_for_my_org w cc target
    if already then pure true else approve_missing cc target

  -- The end of `TryCommitIfReady`.
  unfoldable pub commit_if_majority : ChaincodeOps → ℤ → Call Bool
  unfolding check_commit_readiness commit_chaincode
  commit_if_majority cc target = do
    found ← check_commit_readiness w cc target
    elim found [
      | none ↦ pure false
      | some approvals ↦
          if not (has_majority approvals)
          then pure false
          else (do r ← caught (commit_chaincode w cc target); pure (is_ok r))
    ]

  unfoldable pub approve_and_commit : ChaincodeOps → ℤ → Call Bool
  unfolding approve_installed commit_if_majority
  approve_and_commit cc target = do
    approved ← approve_installed cc target
    if approved then commit_if_majority cc target else pure false

  unfoldable pub wait_and_commit : ChaincodeOps → ℤ → Call Bool
  unfolding wait_for_lifecycle_ready approve_and_commit
  wait_and_commit cc target = do
    ready ← caught (wait_for_lifecycle_ready w cc target (pos 30))
    if not (is_ok ready) then pure false else approve_and_commit cc target

  -- `TryCommitIfReady`
  unfoldable pub try_commit_if_ready : Codec → ChaincodeOps → Call Bool
  unfolding committed_sequence committed_signature_policy approve_installed wait_and_commit
  try_commit_if_ready codec cc = do
    latest ← committed_sequence w
    policy ← committed_signature_policy w codec
    let target = target_sequence latest policy cc.signature_policy
    let done = leb_ℤ target latest && eq_ℤ target latest
    if done then approve_installed cc target else wait_and_commit cc target
