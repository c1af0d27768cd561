-- ===== src/Payment/History.antt =====
-- What holds of an intent over any sequence of committed transactions.
use kufi_chain.Prelude.{
  String, ◌≡◌, refl, ◌≢◌, ◌⊎◌, inl, inr, Option, none, some, arith, sym, ap, ◌∙◌,
}
use kufi_chain.Payment.Types.{TransferIntent, status_pending, status_settled, status_cancelled}
use kufi_chain.Payment.Host.{Json, Ledger}
use kufi_chain.Payment.Lifecycle.{Move, stay, create, settle, cancel, view}
use kufi_chain.Payment.Chain.{Reach, here, next, run_op-Move}

-- What no transaction changes of an intent; once it is no longer PENDING, nothing changes.
pub record Extends (a b : TransferIntent) : Type 0 where
  pub same_hash : b.commitment_hash ≡ a.commitment_hash
  pub same_ref : b.internal_ref ≡ a.internal_ref
  pub same_policy : b.policy_id ≡ a.policy_id
  pub same_creator : b.creator_msp ≡ a.creator_msp
  pub same_id : b.tx_id ≡ a.tx_id
  pub same_created : b.created_at ≡ a.created_at
  pub final : a.status ≢ status_pending → b ≡ a

abbrev pub Follows : Option TransferIntent → Option TransferIntent → Type 0
Follows none o = Unit
Follows (some a) none = ⊥
Follows (some a) (some b) = Extends a b

Extends-refl : (a : TransferIntent) → Extends a a
Extends-refl a = record {
  same_hash = refl;
  same_ref = refl;
  same_policy = refl;
  same_creator = refl;
  same_id = refl;
  same_created = refl;
  final = λ h. refl;
}

Follows-refl : (o : Option TransferIntent) → Follows o o
Follows-refl none = tt
Follows-refl (some a) = Extends-refl a

Move-Follows :
    {caller : Option String} {o p : Option TransferIntent} → Move caller o p → Follows o p
Move-Follows (stay {o = x}) = Follows-refl x
Move-Follows (create i e c) = tt
Move-Follows (settle i now e c) = record {
  same_hash = refl;
  same_ref = refl;
  same_policy = refl;
  same_creator = refl;
  same_id = refl;
  same_created = refl;
  final = λ h. absurd (h e);
}
Move-Follows (cancel i now e c) = record {
  same_hash = refl;
  same_ref = refl;
  same_policy = refl;
  same_creator = refl;
  same_id = refl;
  same_created = refl;
  final = λ h. absurd (h e);
}

Extends-trans : (a b c : TransferIntent) → Extends a b → Extends b c → Extends a c
Extends-trans a b c x y = record {
  same_hash = y.same_hash ∙ x.same_hash;
  same_ref = y.same_ref ∙ x.same_ref;
  same_policy = y.same_policy ∙ x.same_policy;
  same_creator = y.same_creator ∙ x.same_creator;
  same_id = y.same_id ∙ x.same_id;
  same_created = y.same_created ∙ x.same_created;
  final = λ h. y.final (λ pending. h (ap (λ i. i.status) (sym (x.final h)) ∙ pending)) ∙ x.final h;
}

Follows-trans : (o p q : Option TransferIntent) → Follows o p → Follows p q → Follows o q
Follows-trans none p q x y = tt
Follows-trans (some a) none q x y = absurd x
Follows-trans (some a) (some b) none x y = absurd y
Follows-trans (some a) (some b) (some c) x y = Extends-trans a b c x y

module _ (j : Json) where
  -- Over any committed transactions an intent stays under its key, with its hash, reference,
  -- policy, creator and creation time; an intent that is settled or cancelled never changes again.
  pub Reach-Follows :
      (s s' : Ledger j.Bytes) (k : String) → Reach j s s' → Follows (view j s k) (view j s' k)
  Reach-Follows s s' k here = Follows-refl (view j s k)
  Reach-Follows s s' k (next {u} op t r e) =
      Follows-trans (view j s k) (view j u k) (view j s' k) (Reach-Follows s u k r)
        (Move-Follows (run_op-Move j op t u s' k e))

  abbrev pub HasStatus : Option TransferIntent → Type 0
  HasStatus none = Unit
  HasStatus (some i) =
      (i.status ≡ status_pending) ⊎ ((i.status ≡ status_settled) ⊎ (i.status ≡ status_cancelled))

  Move-HasStatus :
      {caller : Option String} {o p : Option TransferIntent}
      → Move caller o p
      → HasStatus o
      → HasStatus p
  Move-HasStatus stay h = h
  Move-HasStatus (create i e c) h = inl e
  Move-HasStatus (settle i now e c) h = inr (inl refl)
  Move-HasStatus (cancel i now e c) h = inr (inr refl)

  -- Under a key that held no intent, committed transactions leave none or one that is PENDING,
  -- SETTLED or CANCELLED: the status FAILED, which the queries accept, is never reached.
  pub Reach-HasStatus :
      (s s' : Ledger j.Bytes) (k : String)
      → view j s k ≡ none
      → Reach j s s'
      → HasStatus (view j s' k)
  Reach-HasStatus s s' k empty here = ground arith
  Reach-HasStatus s s' k empty (next {u} op t r e) =
      Move-HasStatus (run_op-Move j op t u s' k e) (Reach-HasStatus s u k empty r)
