-- ===== src/Payment/Chain.antt =====
-- Transactions on the payment chaincode in sequence. A peer endorses, and so commits, only a
-- transaction whose function returned no error; a failed call leaves the ledger as it was.
use kufi_chain.Prelude.{
  String, ◌≡◌, refl, inl, inr, Option, none, some, arith, ◌==◌, eq_iff, Bool-cases, sym, subst,
  subst,
}
use kufi_chain.Prelude.Dict.{insert}
use kufi_chain.Prelude.Action.{ok}
use kufi_chain.Payment.Types.{TransferIntent, now_ms}
use kufi_chain.Payment.Host.{Json, Ledger, Tx}
use kufi_chain.Payment.Contract.{
  Call, new_intent, settled, cancelled, create_transfer_intent, settle_transfer, cancel_transfer,
}
use kufi_chain.Payment.Lifecycle.{
  Move, stay, create, settle, cancel, view, create_transfer_intent-ok, settle_transfer-ok,
  cancel_transfer-ok, view-insert,
}

-- A call of a function that writes, with its arguments.
pub data Op : Type 0 where
  create_op : String → String → String → Op
  settle_op : String → Op
  cancel_op : String → String → Op

module _ (j : Json) where
  unfoldable pub run_op : Op → Tx j.Bytes → Call j.Bytes (Unit {0})
  run_op (create_op h r p) t = create_transfer_intent j t h r p
  run_op (settle_op k) t = settle_transfer j t k
  run_op (cancel_op k reason) t = cancel_transfer j t k reason

  -- From one ledger to the next by committed transactions.
  pub data Reach (s : Ledger j.Bytes) : Ledger j.Bytes → Type 0 where
    here : Reach s s
    next :
        {u v : Ledger j.Bytes} (op : Op) (t : Tx j.Bytes)
        → Reach s u
        → run_op op t u ≡ (ok tt, v)
        → Reach s v

  -- A write of one key that is a move there is a move on every key.
  write-Move :
      (caller : Option String) (k l : String) (i : TransferIntent) (s s' : Ledger j.Bytes)
      → Move caller (view j s k) (some i)
      → s'.state ≡ insert k (j.marshal_intent i) s.state
      → Move caller (view j s l) (view j s' l)
  write-Move caller k l i s s' m w = elim (Bool-cases (k == l)) [
    | inl same ↦
        let written : view j s' l ≡ some i = ground (arith, view-insert j k l i s s') in
        subst (λ x. Move caller (view j s x) (view j s' l)) ((eq_iff k l).0 same)
          (subst (λ o. Move caller (view j s k) o) (sym written) m)
    | inr differ ↦
        let kept : view j s' l ≡ view j s l = ground (arith, view-insert j k l i s s') in
        subst (λ o. Move caller (view j s l) o) (sym kept) stay
  ]

  create-Move :
      (t : Tx j.Bytes) (h r p : String) (s s' : Ledger j.Bytes) (k : String)
      → create_transfer_intent j t h r p s ≡ (ok tt, s')
      → Move t.client_msp (view j s k) (view j s' k)
  create-Move t h r p s s' k e =
      let (c, ts, ec, et, fresh, w) = create_transfer_intent-ok j t h r p s s' e in
      let i = new_intent t.tx_id h r p c (now_ms ts) in
      let absent : view j s t.tx_id ≡ none = ground arith in
      write-Move t.client_msp t.tx_id k i s s'
        (subst (λ o. Move t.client_msp o (some i)) (sym absent) (create i refl ec)) w

  settle-Move :
      (t : Tx j.Bytes) (x : String) (s s' : Ledger j.Bytes) (k : String)
      → settle_transfer j t x s ≡ (ok tt, s')
      → Move t.client_msp (view j s k) (view j s' k)
  settle-Move t x s s' k e =
      let (i, ts, found, et, pending, ec, w) = settle_transfer-ok j t x s s' e in
      let i' = settled i (now_ms ts) in
      write-Move t.client_msp x k i' s s'
        (subst (λ o. Move t.client_msp o (some i')) (sym found) (settle i (now_ms ts) pending ec)) w

  cancel-Move :
      (t : Tx j.Bytes) (x reason : String) (s s' : Ledger j.Bytes) (k : String)
      → cancel_transfer j t x reason s ≡ (ok tt, s')
      → Move t.client_msp (view j s k) (view j s' k)
  cancel-Move t x reason s s' k e =
      let (i, ts, found, et, pending, ec, w) = cancel_transfer-ok j t x reason s s' e in
      let i' = cancelled i (now_ms ts) in
      write-Move t.client_msp x k i' s s'
        (subst (λ o. Move t.client_msp o (some i')) (sym found) (cancel i (now_ms ts) pending ec)) w

  -- Every call that returns no error makes, on every key, one move of the abstract machine under
  -- the MSP of its caller: it leaves the intent alone, creates a PENDING one where none was, or
  -- settles or cancels a PENDING one whose creator is the caller.
  pub run_op-Move :
      (op : Op) (t : Tx j.Bytes) (s s' : Ledger j.Bytes) (k : String)
      → run_op op t s ≡ (ok tt, s')
      → Move t.client_msp (view j s k) (view j s' k)
  unfolding run_op
  run_op-Move (create_op h r p) t s s' k e = create-Move t h r p s s' k e
  run_op-Move (settle_op x) t s s' k e = settle-Move t x s s' k e
  run_op-Move (cancel_op x reason) t s s' k e = cancel-Move t x reason s s' k e
