-- ===== src/Payment/Effects.antt =====
-- Calls that must succeed, and what a later call then answers.
use kufi_chain.Prelude.{String, ◌≡◌, ◌≢◌, some, false, arith, eq_iff, eq_refl, ◌==◌}
use kufi_chain.Prelude.Action.{ok, err}
use kufi_chain.Prelude.Dict.{insert, lookup-insert_self}
use kufi_chain.Payment.Types.{
  TransferIntent, Timestamp, status_pending, status_settled, status_cancelled, now_ms,
}
use kufi_chain.Payment.Host.{Json, Ledger, Tx}
use kufi_chain.Payment.Contract.{
  settled, cancelled, not_pending, new_intent, create_transfer_intent, settle_transfer,
  cancel_transfer,
}
use kufi_chain.Payment.Queries.{verify_commitment_hash}
use kufi_chain.Payment.Lifecycle.{
  view, create_transfer_intent-ok, settle_transfer-ok, cancel_transfer-ok,
}

module _ (j : Json) where
  -- Where the peer answers every call on the key, the creator can settle its PENDING transfer, and
  -- the intent is then SETTLED at the time of the transaction.
  pub settle_transfer_complete :
      (t : Tx j.Bytes) (k : String) (i : TransferIntent) (ts : Timestamp) (s : Ledger j.Bytes)
      → view j s k ≡ some i
      → i.status ≡ status_pending
      → t.client_msp ≡ some i.creator_msp
      → t.timestamp ≡ some ts
      → t.get_state_fails k ≡ false
      → t.put_state_fails k ≡ false
      → ((settle_transfer j t k s).0 ≡ ok tt)
        × (view j (settle_transfer j t k s).1 k ≡ some (settled i (now_ms ts)))
  unfolding settle_transfer
  settle_transfer_complete t k i ts s found pending caller time reads writes =
      let i' = settled i (now_ms ts) in
      ground (
        arith,
        eq_refl i.creator_msp,
        eq_iff i.status status_pending,
        j.unmarshal-marshal i',
        lookup-insert_self k (j.marshal_intent i') s.state,
      )

  view_self :
      (k : String) (i : TransferIntent) (s s' : Ledger j.Bytes)
      → s'.state ≡ insert k (j.marshal_intent i) s.state
      → view j s' k ≡ some i
  view_self k i s s' w =
      ground (arith, lookup-insert_self k (j.marshal_intent i) s.state, j.unmarshal-marshal i)

  refused :
      (t : Tx j.Bytes) (k reason : String) (i : TransferIntent) (s : Ledger j.Bytes)
      → view j s k ≡ some i
      → i.status ≢ status_pending
      → t.get_state_fails k ≡ false
      → (settle_transfer j t k s ≡ (err (not_pending i.status), s))
        × (cancel_transfer j t k reason s ≡ (err (not_pending i.status), s))
  unfolding settle_transfer cancel_transfer
  refused t k reason i s found done reads = (
    ground (arith, eq_iff i.status status_pending),
    ground (arith, eq_iff i.status status_pending),
  )

  -- After a transfer has been settled, every later call that can read it, whoever makes it, is
  -- refused with the status SETTLED and changes nothing, be it a settlement or a cancellation.
  pub settle_transfer_once :
      (t t' : Tx j.Bytes) (k reason : String) (s s' : Ledger j.Bytes)
      → settle_transfer j t k s ≡ (ok tt, s')
      → t'.get_state_fails k ≡ false
      → (settle_transfer j t' k s' ≡ (err (not_pending status_settled), s'))
        × (cancel_transfer j t' k reason s' ≡ (err (not_pending status_settled), s'))
  settle_transfer_once t t' k reason s s' e reads =
      let (i, ts, found, et, pending, ec, w) = settle_transfer-ok j t k s s' e in
      let i' = settled i (now_ms ts) in
      refused t' k reason i' s' (view_self k i' s s' w) settled_differs reads
    where
      settled_differs : status_settled ≡ status_pending → ⊥
      settled_differs eq = cc ((eq_iff status_settled status_pending).1 eq)

  -- The same after a cancellation, with the status CANCELLED.
  pub cancel_transfer_once :
      (t t' : Tx j.Bytes) (k reason reason' : String) (s s' : Ledger j.Bytes)
      → cancel_transfer j t k reason s ≡ (ok tt, s')
      → t'.get_state_fails k ≡ false
      → (settle_transfer j t' k s' ≡ (err (not_pending status_cancelled), s'))
        × (cancel_transfer j t' k reason' s' ≡ (err (not_pending status_cancelled), s'))
  cancel_transfer_once t t' k reason reason' s s' e reads =
      let (i, ts, found, et, pending, ec, w) = cancel_transfer-ok j t k reason s s' e in
      let i' = cancelled i (now_ms ts) in
      refused t' k reason' i' s' (view_self k i' s s' w) cancelled_differs reads
    where
      cancelled_differs : status_cancelled ≡ status_pending → ⊥
      cancelled_differs eq = cc ((eq_iff status_cancelled status_pending).1 eq)

  -- After `CreateTransferIntent` has succeeded, `VerifyCommitmentHash` accepts a hash exactly when
  -- it is the one that the transfer was created with.
  pub verify-create :
      (t t' : Tx j.Bytes) (h r p hash : String) (s s' : Ledger j.Bytes)
      → create_transfer_intent j t h r p s ≡ (ok tt, s')
      → t'.get_state_fails t.tx_id ≡ false
      → verify_commitment_hash j t' t.tx_id hash s' ≡ (ok (h == hash), s')
  unfolding verify_commitment_hash
  verify-create t t' h r p hash s s' e reads =
      let (c, ts, ec, et, fresh, w) = create_transfer_intent-ok j t h r p s s' e in
      let i = new_intent t.tx_id h r p c (now_ms ts) in ground (arith, view_self t.tx_id i s s' w)
