-- ===== src/Payment/Contract.antt =====
-- The functions of `PaymentContract` that write: `CreateTransferIntent` with `processPrivateData`,
-- `SettleTransfer` and `CancelTransfer`.
use kufi_chain.Prelude.{String, not, Option, none, some, [], ◌∷◌, if◌then◌else◌, is_some, ◌==◌}
use kufi_chain.Prelude.Int.{ℤ, pos}
use kufi_chain.Prelude.Dict.{Dict, lookup, insert}
use kufi_chain.Prelude.Action.{Action, pure, gets, or_raise, raise_if, modify, ◌>>=◌, ◌>>◌}
use kufi_chain.Payment.Types.{
  TransferIntent, TransferDetails, Timestamp, status_pending, status_settled, status_cancelled,
  collection_inter_bank, collection_high_risk, resolve_intra_bank_collection, now_ms, get_string,
  get_int64,
}
use kufi_chain.Payment.Host.{Json, Event, Ledger, Tx}

-- The errors that the functions return, one for each format string.
pub data Error : Type 0 where
  creator_msp_failed check_state_failed already_exists timestamp_failed put_state_failed : Error
  transient_failed unmarshal_private_failed put_private_failed set_event_failed : Error
  get_state_failed not_found unmarshal_failed not_creator : Error
  not_pending : String → Error
  get_private_failed details_not_found invalid_status query_failed next_failed : Error

abbrev pub Call : Type 0 → Type 0 → Type 0
Call Bytes A = Action (Ledger Bytes) Error A

module _ {Bytes : Type 0} where
  -- `GetState`, and the caller's error where it fails
  unfoldable pub get_state : Tx Bytes → String → Error → Call Bytes (Option Bytes)
  get_state t key e = do raise_if (t.get_state_fails key) e; gets (λ s. lookup key s.state)

  unfoldable pub put_state : Tx Bytes → String → Bytes → Call Bytes (Unit {0})
  put_state t key v = do
    raise_if (t.put_state_fails key) put_state_failed
    modify (λ s. record s { state = insert key v s.state })

  abbrev pub or_empty : Option (Dict Bytes) → Dict Bytes
  or_empty none = []
  or_empty (some m) = m

  unfoldable pub put_private_data : Tx Bytes → String → String → Bytes → Call Bytes (Unit {0})
  put_private_data t collection key v = do
    raise_if (t.put_private_fails collection key) put_private_failed
    modify (λ s. record s {
      private_data =
          insert collection (insert key v (or_empty (lookup collection s.private_data)))
            s.private_data;
    })

  -- `SetEvent`: the event of a transaction is the last that was set.
  unfoldable pub set_event : Tx Bytes → Event → Ledger Bytes → Ledger Bytes
  set_event t e s = if t.set_event_fails then s else record s { event = some e }

-- The `switch` on the policy in `processPrivateData`.
unfoldable pub policy_collection : String → String → String
policy_collection policy_id creator_msp =
    if policy_id == "inter_bank_standard"
    then collection_inter_bank
    else if policy_id == "high_risk"
    then collection_high_risk
    else resolve_intra_bank_collection creator_msp

abbrev pub new_intent : String → String → String → String → String → ℤ → TransferIntent
new_intent tx_id commitment_hash internal_ref policy_id creator_msp now = record {
  doc_type = "transferIntent";
  tx_id = tx_id;
  commitment_hash = commitment_hash;
  internal_ref = internal_ref;
  policy_id = policy_id;
  status = status_pending;
  created_at = now;
  updated_at = now;
  settled_at = pos 0;
  creator_msp = creator_msp;
}

abbrev pub settled : TransferIntent → ℤ → TransferIntent
settled i now = record i { status = status_settled; updated_at = now; settled_at = now }

abbrev pub cancelled : TransferIntent → ℤ → TransferIntent
cancelled i now = record i { status = status_cancelled; updated_at = now }

module _ (j : Json) where
  -- The first entry of the transient map that is not empty, in the order of the iteration.
  unfoldable pub first_non_empty : Dict j.Bytes → Option (String × j.Bytes)
  first_non_empty [] = none
  first_non_empty ((name, v) ∷ m) = if j.is_empty v then first_non_empty m else some (name, v)

  -- Which bytes `processPrivateData` takes, and for which collection: those under the policy's
  -- collection, empty or not, or else the first entry with bytes in it.
  unfoldable pub pick_private : String → Dict j.Bytes → Option (String × j.Bytes)
  unfolding first_non_empty
  pick_private collection transient = elim (lookup collection transient) [
    | none ↦ first_non_empty transient
    | some v ↦ if j.is_empty v then none else some (collection, v)
  ]

  unfoldable pub build_details : Tx j.Bytes → String → j.Bytes → Option TransferDetails
  build_details t creator_msp v = elim (j.unmarshal_map v) [
    | none ↦ none
    | some m ↦ some (record {
      doc_type = "transferDetails";
      tx_id = t.tx_id;
      from_id = get_string m "from_id";
      to_id = get_string m "to_id";
      amount_vnd = get_int64 j.truncate m "amount_vnd";
      memo = get_string m "memo";
      internal_ref = get_string m "internal_ref";
      timestamp = get_int64 j.truncate m "timestamp";
      sender_msp = creator_msp;
      receiver_msp = "";
    })
  ]

  unfoldable pub store_picked :
      Tx j.Bytes → String → Option (String × j.Bytes) → Call j.Bytes (Unit {0})
  unfolding build_details put_private_data
  store_picked t creator_msp none = pure tt
  store_picked t creator_msp (some (collection, v)) = do
    details ← or_raise (build_details t creator_msp v) unmarshal_private_failed
    put_private_data t collection t.tx_id (j.marshal_details details)

  -- `processPrivateData`
  unfoldable pub process_private_data : Tx j.Bytes → String → String → Call j.Bytes (Unit {0})
  unfolding store_picked pick_private policy_collection
  process_private_data t creator_msp policy_id = do
    transient ← or_raise t.transient transient_failed
    store_picked t creator_msp (pick_private (policy_collection policy_id creator_msp) transient)

  -- `CreateTransferIntent`
  unfoldable pub create_transfer_intent :
      Tx j.Bytes → String → String → String → Call j.Bytes (Unit {0})
  unfolding get_state put_state set_event
  create_transfer_intent t commitment_hash internal_ref policy_id = do
    creator ← or_raise t.client_msp creator_msp_failed
    existing ← get_state t t.tx_id check_state_failed
    raise_if (is_some existing) already_exists
    ts ← or_raise t.timestamp timestamp_failed
    let intent = new_intent t.tx_id commitment_hash internal_ref policy_id creator (now_ms ts)
    put_state t t.tx_id (j.marshal_intent intent)
    process_private_data t creator policy_id
    raise_if t.set_event_fails set_event_failed
    modify (
        set_event t (record {
          name = "TransferIntentCreated";
          payload =
              ("txId", t.tx_id)
              ∷ ("commitmentHash", commitment_hash)
              ∷ ("status", status_pending)
              ∷ [];
        }))

  -- The part that `SettleTransfer`, `CancelTransfer` and `getTransferIntent` begin with.
  unfoldable pub load_intent : Tx j.Bytes → String → Call j.Bytes TransferIntent
  unfolding get_state
  load_intent t tx_id = do
    found ← get_state t tx_id get_state_failed
    bytes ← or_raise found not_found
    or_raise (j.unmarshal_intent bytes) unmarshal_failed

  -- What `SettleTransfer` and `CancelTransfer` check of the intent, up to the time of the update.
  unfoldable pub check_pending : Tx j.Bytes → TransferIntent → Call j.Bytes Timestamp
  check_pending t intent = do
    raise_if (not (intent.status == status_pending)) (not_pending intent.status)
    caller ← or_raise t.client_msp creator_msp_failed
    raise_if (not (caller == intent.creator_msp)) not_creator
    or_raise t.timestamp timestamp_failed

  -- `SettleTransfer`; the error of `SetEvent` is dropped.
  unfoldable pub settle_transfer : Tx j.Bytes → String → Call j.Bytes (Unit {0})
  unfolding load_intent check_pending put_state set_event
  settle_transfer t tx_id = do
    intent ← load_intent t tx_id
    ts ← check_pending t intent
    put_state t tx_id (j.marshal_intent (settled intent (now_ms ts)))
    modify (
        set_event t (record {
          name = "TransferSettled";
          payload = ("txId", tx_id) ∷ ("status", status_settled) ∷ [];
        }))

  -- `CancelTransfer`
  unfoldable pub cancel_transfer : Tx j.Bytes → String → String → Call j.Bytes (Unit {0})
  unfolding load_intent check_pending put_state set_event
  cancel_transfer t tx_id reason = do
    intent ← load_intent t tx_id
    ts ← check_pending t intent
    put_state t tx_id (j.marshal_intent (cancelled intent (now_ms ts)))
    modify (
        set_event t (record {
          name = "TransferCancelled";
          payload = ("txId", tx_id) ∷ ("status", status_cancelled) ∷ ("reason", reason) ∷ [];
        }))
