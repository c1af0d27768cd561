-- ===== src/Ops/Lifecycle/Chain.antt =====
-- What any calls of `EnsureChaincodeDeployed` and `TryCommitIfReady`, one after the other, leave in
-- the history.
use kufi_chain.Prelude.{String, sym, subst, [], ◌∷◌}
use kufi_chain.Prelude.Int.{ℤ}
use kufi_chain.Prelude.Action.{Result, ok, err}
use kufi_chain.Ops.Types.{ChaincodeOps, Error}
use kufi_chain.Ops.Host.{Event, queried_committed, committed, History, World}
use kufi_chain.Ops.Policy.{Codec}
use kufi_chain.Ops.Lifecycle.Deploy.{ensure_chaincode_deployed, try_commit_if_ready}
use kufi_chain.Ops.Lifecycle.Steps.{Shown, IsMajority, Allowed, Extends, same, more, Ends}
use kufi_chain.Ops.Lifecycle.Commits.{target_after, try_commit_if_ready-Ends}
use kufi_chain.Ops.Lifecycle.Deploys.{ensure_chaincode_deployed-Ends}

-- Before every commit stands an answer that shows a majority for its sequence and policy.
abbrev pub IsBacked : History → Type 0
IsBacked [] = Unit {0}
IsBacked (committed s policy addresses r ∷ h) = Shown (IsMajority s policy) h × IsBacked h
IsBacked (e ∷ h) = IsBacked h

-- The histories that calls lead to, each with what `ChaincodeOps` holds then.
pub data Reach (w : World) (codec : Codec) : History → Type 0 where
  start : Reach w codec []
  deploys :
      (ops : ChaincodeOps) {h : History}
      → Reach w codec h
      → Reach w codec (ensure_chaincode_deployed w codec ops h).1
  tries :
      (ops : ChaincodeOps) {h : History}
      → Reach w codec h
      → Reach w codec (try_commit_if_ready w codec ops h).1

IsBacked-Extends :
    (t : ℤ) (policy : String) (h h' : History) → Extends t policy h h' → IsBacked h → IsBacked h'
IsBacked-Extends t policy h _ same b = b
IsBacked-Extends t policy h _ (more e {h'} x allowed) b =
    next e (IsBacked-Extends t policy h h' x b) allowed
  where
    next : (e : Event) → IsBacked h' → Allowed t policy h' e → IsBacked (e ∷ h')
    next (committed s q addresses r) before (same_sequence, same_policy, majority) = (
      subst (λ x. Shown (IsMajority x q) h') (sym same_sequence)
          (subst (λ x. Shown (IsMajority t x) h') (sym same_policy) majority),
      before,
    )
    next (queried_committed c) before a = before
    next _ before a = before

Extends-Ends :
    {A : Type 0} (t : ℤ) (policy : String) (Q : A → History → Type 0) (h : History)
    (r : Result Error A) (h' : History)
    → Ends t policy Q h r h'
    → Extends t policy h h'
Extends-Ends t policy Q h (ok a) h' (x, q) = x
Extends-Ends t policy Q h (err e) h' x = x

-- In any history that calls of `EnsureChaincodeDeployed` and `TryCommitIfReady` lead to, whatever the
-- peers answer, every commit of a sequence was preceded by an answer in which a majority of the orgs
-- has approved this sequence with the policy that is committed, or by one that shows the sequence as
-- committed with the approvals of a majority.
pub Reach-IsBacked : (w : World) (codec : Codec) (h : History) → Reach w codec h → IsBacked h
Reach-IsBacked w codec _ start = tt
Reach-IsBacked w codec _ (deploys ops {h} before) =
    IsBacked-Extends (target_after w codec ops h) ops.signature_policy h _
      (Extends-Ends (target_after w codec ops h) ops.signature_policy _ h _ _
        (ensure_chaincode_deployed-Ends w codec ops h))
      (Reach-IsBacked w codec h before)
Reach-IsBacked w codec _ (tries ops {h} before) =
    IsBacked-Extends (target_after w codec ops h) ops.signature_policy h _
      (Extends-Ends (target_after w codec ops h) ops.signature_policy _ h _ _
        (try_commit_if_ready-Ends w codec ops h))
      (Reach-IsBacked w codec h before)
