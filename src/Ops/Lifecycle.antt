-- ===== src/Ops/Lifecycle.antt =====
-- internal/fabricops/chaincode.go: the steps of the chaincode lifecycle. The state of a call is the
-- history of the commands that have been run, to which each command adds itself.
pub mod Deploy
pub mod Steps
pub mod Calls
pub mod Attempts
pub mod Commits
pub mod Deploys
pub mod Chain
use kufi_chain.Prelude.{
  ℕ, zero, suc, ◌+◌, ◌/◌, String, Bool, true, false, not, ◌&&◌, ◌||◌, Option, none, some, List, [],
  ◌∷◌, if◌then◌else◌, ◌==◌, eqb, leb, any, length,
}
use kufi_chain.Prelude.Int.{ℤ, pos, negsuc, eq_ℤ, ltb_ℤ, leb_ℤ, ◌+ℤ◌}
use kufi_chain.Prelude.Dict.{Dict, lookup}
use kufi_chain.Prelude.Action.{Action, Result, ok, err, pure, raise, raise_if, modify, ◌>>=◌, ◌>>◌}
use kufi_chain.Prelude.Action.{caught}
use kufi_chain.Fabric.Client.{has_text}
use kufi_chain.Ops.Types.{
  PeerEndpoint, ChaincodeOps, Error, install_failed, no_package_id, readiness_failed,
  lifecycle_not_ready, approve_failed, commit_failed,
}
use kufi_chain.Ops.Host.{
  Committed, Installed, Event, queried_committed, queried_installed, checked, installed, approved,
  committed, slept, History, World,
}
use kufi_chain.Ops.Policy.{Codec, decode_validation_policy}

abbrev pub syncing_patterns : List String
syncing_patterns =
    "creator org unknown" ∷ "creator is malformed" ∷ "failed to deserialize creator"
    ∷ "access denied" ∷ "channel does not exist" ∷ "not found in channel config"
    ∷ "connection refused" ∷ "context deadline exceeded" ∷ "service unavailable" ∷ "rpc error" ∷ []

-- `isLifecycleSyncingError`
unfoldable pub is_lifecycle_syncing_error : (String → String) → String → Bool
is_lifecycle_syncing_error to_lower msg = any (λ p. has_text (to_lower msg) p) syncing_patterns

-- The loop of `InstalledPackageID`.
unfoldable pub package_labelled : String → List Installed → String
package_labelled label [] = ""
package_labelled label (ic ∷ rest) =
    if ic.label == label then ic.package_id else package_labelled label rest

abbrev pub package_in : String → Option (List Installed) → String
package_in label none = ""
package_in label (some found) = package_labelled label found

abbrev pub sequence_of : Option Committed → ℤ
sequence_of none = pos 0
sequence_of (some c) = c.sequence

-- The approvals of a committed definition, where it answers for this sequence.
abbrev pub committed_approvals : ℤ → Option Committed → Option (Dict Bool)
committed_approvals sequence none = none
committed_approvals sequence (some c) =
    if eq_ℤ c.sequence sequence && not (eqb (length c.approvals) 0) then some c.approvals else none

-- `approvals[mspID]`, also of a nil map
abbrev pub approved_by : String → Option (Dict Bool) → Bool
approved_by msp_id none = false
approved_by msp_id (some approvals) = elim (lookup msp_id approvals) [ none ↦ false | some b ↦ b ]

unfoldable pub approved_count : Dict Bool → ℕ
approved_count [] = 0
approved_count ((msp_id, b) ∷ rest) = (if b then 1 else 0) + approved_count rest

abbrev pub has_majority : Dict Bool → Bool
has_majority approvals = leb (length approvals / 2 + 1) (approved_count approvals)

abbrev pub attempts_of : ℤ → ℕ
attempts_of (pos n) = if eqb n 0 then 1 else n
attempts_of (negsuc n) = 1

abbrev pub Call : Type 0 → Type 0
Call A = Action History Error A

-- Runs a command, and notes it with its answer.
abbrev pub ask : {A : Type 0} → (History → A) → (A → Event) → Call A
ask answer event h = let a = answer h in (ok a, event a ∷ h)

abbrev pub sleep : ℕ → Call (Unit {0})
sleep seconds = modify (λ h. slept seconds ∷ h)

-- `if err != nil { return ... }`
abbrev pub raise_error : {A : Type 0} → Result String A → (String → Error) → Call A
raise_error (ok a) f h = (ok a, h)
raise_error (err e) f h = (err (f e), h)

abbrev pub policy_or_empty : Codec → Committed → String
policy_or_empty codec c = elim (decode_validation_policy codec c.validation_parameter) [
  | err e ↦ ""
  | ok policy ↦ policy
]

abbrev pub approvals_in : Result String (Option (Dict Bool)) → Option (Dict Bool)
approvals_in (ok found) = found
approvals_in (err e) = none

-- Whether a committed definition is at the sequence, or beyond it.
abbrev pub is_past : ℤ → Option Committed → Bool
is_past sequence none = false
is_past sequence (some c) = leb_ℤ sequence c.sequence && ltb_ℤ (pos 0) sequence

module _ (w : World) where
  -- `queryCommittedDefinition`
  unfoldable pub query_committed_definition : Call (Option Committed)
  query_committed_definition = ask w.query_committed queried_committed

  -- `CommittedSequence`
  unfoldable pub committed_sequence : Call ℤ
  unfolding query_committed_definition
  committed_sequence = do c ← query_committed_definition; pure (sequence_of c)

  -- `CommittedSignaturePolicy`
  unfoldable pub committed_signature_policy : Codec → Call String
  unfolding query_committed_definition
  committed_signature_policy codec = do
    c ← query_committed_definition
    pure (elim c [ none ↦ "" | some found ↦ policy_or_empty codec found ])

  -- `InstalledPackageID`
  unfoldable pub installed_package_id : ChaincodeOps → Call String
  installed_package_id cc = do
    found ← ask w.query_installed queried_installed
    pure (package_in cc.cc_label found)

  unfoldable pub install_new : ChaincodeOps → String → Call String
  unfolding installed_package_id
  install_new cc path = do
    answer ← ask (λ h. w.install h path) (installed path)
    raise_error answer install_failed
    id ← installed_package_id cc
    raise_if (id == "") (no_package_id path)
    pure id

  -- `InstallChaincode`
  unfoldable pub install_chaincode : ChaincodeOps → String → Call String
  unfolding installed_package_id install_new
  install_chaincode cc path = do
    known ← installed_package_id cc
    if known == "" then install_new cc path else pure known

  -- checkcommitreadiness with the arguments of `readinessArgs`
  abbrev ask_readiness : ChaincodeOps → ℤ → Call (Result String (Option (Dict Bool)))
  ask_readiness cc sequence =
      ask (λ h. w.check_readiness h sequence cc.signature_policy)
        (checked sequence cc.signature_policy)

  unfoldable pub asked_approvals : ChaincodeOps → ℤ → Call (Option (Dict Bool))
  asked_approvals cc sequence = do answer ← ask_readiness cc sequence; pure (approvals_in answer)

  -- `CheckCommitReadiness`
  unfoldable pub check_commit_readiness : ChaincodeOps → ℤ → Call (Option (Dict Bool))
  unfolding query_committed_definition asked_approvals
  check_commit_readiness cc sequence = do
    c ← query_committed_definition
    elim (committed_approvals sequence c) [
      | some approvals ↦ pure (some approvals)
      | none ↦ asked_approvals cc sequence
    ]

  unfoldable pub is_approved_asked : ChaincodeOps → ℤ → Call Bool
  unfolding check_commit_readiness
  is_approved_asked cc sequence = do
    approvals ← check_commit_readiness cc sequence
    pure (approved_by cc.msp_id approvals)

  -- `IsApprovedForMyOrg`
  unfoldable pub is_approved_for_my_org : ChaincodeOps → ℤ → Call Bool
  unfolding query_committed_definition is_approved_asked
  is_approved_for_my_org cc sequence = do
    c ← query_committed_definition
    elim (committed_approvals sequence c) [
      | some approvals ↦ pure (approved_by cc.msp_id (some approvals))
      | none ↦ is_approved_asked cc sequence
    ]

  -- The loop of `WaitForLifecycleReady`, with the rounds that are left and the last output.
  unfoldable pub readiness_loop : ChaincodeOps → (timeout left : ℕ) → ℤ → String → Call (Unit {0})
  readiness_loop cc timeout zero sequence last = raise (lifecycle_not_ready timeout last)
  readiness_loop cc timeout (suc left) sequence last = do
    answer ← ask_readiness cc sequence
    elim answer [
      | ok found ↦ pure tt
      | err output ↦
          if not (is_lifecycle_syncing_error w.to_lower (w.trim output))
          then raise (readiness_failed (w.trim output))
          else (do sleep 1; readiness_loop cc timeout left sequence (w.trim output))
    ]

  -- `WaitForLifecycleReady`
  unfoldable pub wait_for_lifecycle_ready : ChaincodeOps → ℤ → ℤ → Call (Unit {0})
  unfolding query_committed_definition readiness_loop
  wait_for_lifecycle_ready cc sequence timeout_sec = do
    c ← query_committed_definition
    let timeout = attempts_of timeout_sec
    if is_past sequence c then pure tt else readiness_loop cc timeout timeout sequence ""

  abbrev ask_approve : ChaincodeOps → String → ℤ → Call (Result String (Unit {0}))
  ask_approve cc package_id sequence =
      ask (λ h. w.approve h package_id sequence cc.signature_policy)
        (approved package_id sequence cc.signature_policy)

  -- The loop of `ApproveChaincode`, with the attempts that are left after this one.
  unfoldable pub approve_loop : ChaincodeOps → (left : ℕ) → String → ℤ → Call (Unit {0})
  approve_loop cc zero package_id sequence = do
    answer ← ask_approve cc package_id sequence
    raise_error answer (λ output. approve_failed (w.trim output))
  approve_loop cc (suc left) package_id sequence = do
    answer ← ask_approve cc package_id sequence
    elim answer [
      | ok done ↦ pure tt
      | err output ↦
          if is_lifecycle_syncing_error w.to_lower (w.trim output)
          then (do sleep 5; approve_loop cc left package_id sequence)
          else raise (approve_failed (w.trim output))
    ]

  -- `ApproveChaincode`, with its 24 attempts
  unfoldable pub approve_chaincode : ChaincodeOps → String → ℤ → Call (Unit {0})
  unfolding is_approved_for_my_org approve_loop
  approve_chaincode cc package_id sequence = do
    already ← is_approved_for_my_org cc sequence
    if already then pure tt else approve_loop cc 23 package_id sequence

  -- The peers that the commit is sent to.
  unfoldable pub commit_addresses : List PeerEndpoint → List String
  commit_addresses [] = []
  commit_addresses (ep ∷ eps) =
      if w.file_exists ep.tls_cert_path
      then ep.addr ∷ commit_addresses eps
      else commit_addresses eps

  abbrev ask_commit : ChaincodeOps → List String → ℤ → Call (Result String (Unit {0}))
  ask_commit cc addresses sequence =
      ask (λ h. w.commit h sequence cc.signature_policy addresses)
        (committed sequence cc.signature_policy addresses)

  -- The loop of `CommitChaincode`.
  unfoldable pub commit_loop : ChaincodeOps → (left : ℕ) → List String → ℤ → Call (Unit {0})
  commit_loop cc zero addresses sequence = do
    answer ← ask_commit cc addresses sequence
    raise_error answer (λ output. commit_failed (w.trim output))
  commit_loop cc (suc left) addresses sequence = do
    answer ← ask_commit cc addresses sequence
    elim answer [
      | ok done ↦ pure tt
      | err output ↦
          if is_lifecycle_syncing_error w.to_lower (w.trim output)
          then (do sleep 5; commit_loop cc left addresses sequence)
          else raise (commit_failed (w.trim output))
    ]

  -- `CommitChaincode`, with its 12 attempts
  unfoldable pub commit_chaincode : ChaincodeOps → ℤ → Call (Unit {0})
  unfolding committed_sequence commit_loop commit_addresses
  commit_chaincode cc sequence = do
    latest ← committed_sequence
    let addresses = commit_addresses cc.peer_endpoints
    if leb_ℤ sequence latest then pure tt else commit_loop cc 11 addresses sequence
