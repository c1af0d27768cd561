-- ===== src/Payment/Lifecycle.antt =====
-- The life of a transfer intent, as an abstract machine on one key of the public state, and the
-- refinement: every successful call of the contract is one of its moves on every key.
use kufi_chain.Prelude.{
  String, ◌≡◌, refl, inl, inr, Option, none, some, arith, ◌==◌, eq_iff, Option-cases, if◌then◌else◌,
}
use kufi_chain.Prelude.Int.{ℤ}
use kufi_chain.Prelude.Dict.{lookup, insert, lookup-insert}
use kufi_chain.Prelude.Action.{ok}
use kufi_chain.Payment.Types.{TransferIntent, Timestamp, status_pending, now_ms}
use kufi_chain.Payment.Host.{Json, Ledger, Tx}
use kufi_chain.Payment.Contract.{
  new_intent, settled, cancelled, create_transfer_intent, settle_transfer, cancel_transfer,
  process_private_data, store_picked, load_intent, check_pending,
}

-- What one transaction of `caller` may do to the intent under one key.
pub data Move (caller : Option String)
    : Option TransferIntent → Option TransferIntent → Type 0 where
  stay : {o : Option TransferIntent} → Move caller o o
  create :
      (i : TransferIntent)
      → i.status ≡ status_pending
      → caller ≡ some i.creator_msp
      → Move caller none (some i)
  settle :
      (i : TransferIntent) (now : ℤ)
      → i.status ≡ status_pending
      → caller ≡ some i.creator_msp
      → Move caller (some i) (some (settled i now))
  cancel :
      (i : TransferIntent) (now : ℤ)
      → i.status ≡ status_pending
      → caller ≡ some i.creator_msp
      → Move caller (some i) (some (cancelled i now))

module _ (j : Json) where
  -- The intent under a key, as the contract reads it.
  abbrev pub view : Ledger j.Bytes → String → Option TransferIntent
  view s k = elim (lookup k s.state) [ none ↦ none | some b ↦ j.unmarshal_intent b ]

  store_picked-state :
      (t : Tx j.Bytes) (c : String) (p : Option (String × j.Bytes)) (s : Ledger j.Bytes)
      → (store_picked j t c p s).1.state ≡ s.state
  unfolding store_picked
  store_picked-state t c none s = refl
  store_picked-state t c (some (n, v)) s = ground arith

  pub process_private_data-state :
      (t : Tx j.Bytes) (c p : String) (s : Ledger j.Bytes)
      → (process_private_data j t c p s).1.state ≡ s.state
  unfolding process_private_data
  process_private_data-state t c p s = elim (Option-cases t.transient) [
    | inl e ↦ ground arith
    | inr (m, e) ↦ ground arith
  ]

  -- What a successful `CreateTransferIntent` found and wrote.
  pub create_transfer_intent-ok :
      (t : Tx j.Bytes) (h r p : String) (s s' : Ledger j.Bytes)
      → create_transfer_intent j t h r p s ≡ (ok tt, s')
      → (c : String) × (ts : Timestamp) × (t.client_msp ≡ some c)
        × (t.timestamp ≡ some ts)
        × (lookup t.tx_id s.state ≡ none)
        × (s'.state
            ≡ insert t.tx_id (j.marshal_intent (new_intent t.tx_id h r p c (now_ms ts))) s.state)
  unfolding create_transfer_intent
  create_transfer_intent-ok t h r p s s' e = elim (Option-cases t.client_msp) [
    | inl no_caller ↦ absurd (ground arith)
    | inr (c, ec) ↦ elim (Option-cases t.timestamp) [
      | inl no_time ↦ absurd (ground arith)
      | inr (ts, et) ↦ (
        c,
        ts,
        ec,
        et,
        ground arith,
        ground (
          arith,
          process_private_data-state t c p (record s {
            state =
                insert t.tx_id (j.marshal_intent (new_intent t.tx_id h r p c (now_ms ts))) s.state;
          }),
        ),
      )
    ]
  ]

  -- What `check_pending` has established when it lets a call go on.
  pub check_pending-ok :
      (t : Tx j.Bytes) (i : TransferIntent) (ts : Timestamp) (s s' : Ledger j.Bytes)
      → check_pending j t i s ≡ (ok ts, s')
      → (i.status ≡ status_pending)
        × (t.client_msp ≡ some i.creator_msp)
        × (t.timestamp ≡ some ts)
        × (s' ≡ s)
  unfolding check_pending
  check_pending-ok t i ts s s' e = elim (Option-cases t.client_msp) [
    | inl no_caller ↦ absurd (ground arith)
    | inr (c, ec) ↦ ground (arith, eq_iff i.status status_pending, eq_iff c i.creator_msp)
  ]

  pub load_intent-ok :
      (t : Tx j.Bytes) (k : String) (i : TransferIntent) (s s' : Ledger j.Bytes)
      → load_intent j t k s ≡ (ok i, s')
      → (view s k ≡ some i) × (s' ≡ s)
  unfolding load_intent
  load_intent-ok t k i s s' e = ground arith

  -- What a successful `SettleTransfer` found and wrote.
  pub settle_transfer-ok :
      (t : Tx j.Bytes) (k : String) (s s' : Ledger j.Bytes)
      → settle_transfer j t k s ≡ (ok tt, s')
      → (i : TransferIntent) × (ts : Timestamp) × (view s k ≡ some i)
        × (t.timestamp ≡ some ts)
        × (i.status ≡ status_pending)
        × (t.client_msp ≡ some i.creator_msp)
        × (s'.state ≡ insert k (j.marshal_intent (settled i (now_ms ts))) s.state)
  unfolding settle_transfer
  settle_transfer-ok t k s s' e = elim (Option-cases (view s k)) [
    | inl no_intent ↦ absurd (ground arith)
    | inr (i, ei) ↦ elim (Option-cases t.timestamp) [
      | inl no_time ↦ absurd (ground arith)
      | inr (ts, et) ↦
          let checked = check_pending-ok t i ts s s in
          (i, ts, ei, et, ground (arith, checked), ground (arith, checked), ground (arith, checked))
    ]
  ]

  -- What a successful `CancelTransfer` found and wrote.
  pub cancel_transfer-ok :
      (t : Tx j.Bytes) (k reason : String) (s s' : Ledger j.Bytes)
      → cancel_transfer j t k reason s ≡ (ok tt, s')
      → (i : TransferIntent) × (ts : Timestamp) × (view s k ≡ some i)
        × (t.timestamp ≡ some ts)
        × (i.status ≡ status_pending)
        × (t.client_msp ≡ some i.creator_msp)
        × (s'.state ≡ insert k (j.marshal_intent (cancelled i (now_ms ts))) s.state)
  unfolding cancel_transfer
  cancel_transfer-ok t k reason s s' e = elim (Option-cases (view s k)) [
    | inl no_intent ↦ absurd (ground arith)
    | inr (i, ei) ↦ elim (Option-cases t.timestamp) [
      | inl no_time ↦ absurd (ground arith)
      | inr (ts, et) ↦
          let checked = check_pending-ok t i ts s s in
          (i, ts, ei, et, ground (arith, checked), ground (arith, checked), ground (arith, checked))
    ]
  ]

  -- The intent under every key after a write of one of them.
  pub view-insert :
      (k l : String) (i : TransferIntent) (s s' : Ledger j.Bytes)
      → s'.state ≡ insert k (j.marshal_intent i) s.state
      → view s' l ≡ (if k == l then some i else view s l)
  view-insert k l i s s' e =
      ground (arith, lookup-insert k l (j.marshal_intent i) s.state, j.unmarshal-marshal i)
