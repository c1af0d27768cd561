-- ===== src/Payment/Tests.antt =====
-- The payment chaincode on a small ledger.
use kufi_chain.Prelude.{String, ◌≡◌, refl, ◌≢◌, false, none, some, [], ◌∷◌, arith, eq_iff, ◌==◌}
use kufi_chain.Prelude.Int.{ℤ, pos, ◌+ℤ◌, ◌*ℤ◌}
use kufi_chain.Prelude.Dict.{Dict, lookup, insert}
use kufi_chain.Prelude.Action.{ok}
use kufi_chain.Payment.Types.{
  TransferIntent, TransferDetails, Value, text, float64, now_ms, get_string, get_int64, is_safe,
  sanitize_query_input,
}
use kufi_chain.Payment.Host.{Ledger, Tx}
use kufi_chain.Payment.Contract.{
  put_private_data, policy_collection, first_non_empty, pick_private, build_details, store_picked,
  process_private_data, create_transfer_intent, settle_transfer, cancel_transfer,
}
use kufi_chain.Payment.Lifecycle.{Move, view}
use kufi_chain.Payment.Chain.{create_op, settle_op, run_op, here, next, run_op-Move}
use kufi_chain.Payment.History.{Follows, Reach-Follows}
use kufi_chain.Payment.Sample.{Doc, map_doc, json, tx, empty}

abbrev fields : Dict (Value ℤ)
fields = ("from_id", text "A") ∷ ("to_id", text "B") ∷ ("amount_vnd", float64 (pos 50)) ∷ []

abbrev private : Dict Doc
private = ("collectionHighRisk", map_doc fields) ∷ []

abbrev create_tx : Tx Doc
create_tx = tx "t1" "BankAMSP" (pos 10) private

abbrev settle_tx : Tx Doc
settle_tx = tx "t2" "BankAMSP" (pos 20) []

abbrev cancel_tx : Tx Doc
cancel_tx = tx "t3" "BankBMSP" (pos 30) []

abbrev intent : TransferIntent
intent = record {
  doc_type = "transferIntent";
  tx_id = "t1";
  commitment_hash = "h";
  internal_ref = "ref";
  policy_id = "high_risk";
  status = "PENDING";
  created_at = pos 10007;
  updated_at = pos 10007;
  settled_at = pos 0;
  creator_msp = "BankAMSP";
}

abbrev created : Ledger Doc
created = (create_transfer_intent json create_tx "h" "ref" "high_risk" empty).1

abbrev done : Ledger Doc
done = (settle_transfer json settle_tx "t1" created).1

creates : create_transfer_intent json create_tx "h" "ref" "high_risk" empty ≡ (ok tt, created)
unfolding create_transfer_intent process_private_data store_picked build_details put_private_data
    pick_private first_non_empty policy_collection lookup insert
creates = refl

created-intent : view json created "t1" ≡ some intent
unfolding create_transfer_intent process_private_data store_picked build_details put_private_data
    pick_private first_non_empty policy_collection lookup insert now_ms ◌+ℤ◌ ◌*ℤ◌
created-intent = refl

settles : settle_transfer json settle_tx "t1" created ≡ (ok tt, done)
unfolding settle_transfer create_transfer_intent process_private_data store_picked build_details
    put_private_data pick_private first_non_empty policy_collection lookup insert
settles = refl

-- A stranger cannot cancel, and the ledger stays as it was.
stranger : (cancel_transfer json cancel_tx "t1" "no" created).1 ≡ created
unfolding cancel_transfer create_transfer_intent process_private_data store_picked build_details
    put_private_data pick_private first_non_empty policy_collection lookup insert
stranger = refl

cancels :
    cancel_transfer json settle_tx "t1" "no" created
    ≡ (ok tt, (cancel_transfer json settle_tx "t1" "no" created).1)
unfolding cancel_transfer create_transfer_intent process_private_data store_picked build_details
    put_private_data pick_private first_non_empty policy_collection lookup insert
cancels = refl

runs_create : run_op json (create_op "h" "ref" "high_risk") create_tx empty ≡ (ok tt, created)
unfolding run_op
runs_create = creates

runs_settle : run_op json (settle_op "t1") settle_tx created ≡ (ok tt, done)
unfolding run_op
runs_settle = settles

run_op-Move_example : Move (some "BankAMSP") (view json created "t1") (view json done "t1")
run_op-Move_example = run_op-Move json (settle_op "t1") settle_tx created done "t1" runs_settle

Reach-Follows_example : Follows (view json created "t1") (view json done "t1")
Reach-Follows_example =
    Reach-Follows json created done "t1" (next (settle_op "t1") settle_tx here runs_settle)

nothing_stored : view json empty "t1" ≡ none
unfolding lookup
nothing_stored = refl

abbrev details : TransferDetails
details = record {
  doc_type = "transferDetails";
  tx_id = "t1";
  from_id = "A";
  to_id = "B";
  amount_vnd = pos 50;
  memo = "";
  internal_ref = "";
  timestamp = pos 0;
  sender_msp = "BankAMSP";
  receiver_msp = "";
}

in_transient : lookup (policy_collection "high_risk" "BankAMSP") private ≡ some (map_doc fields)
unfolding lookup policy_collection
in_transient = refl

builds : build_details json create_tx "BankAMSP" (map_doc fields) ≡ some details
unfolding build_details get_string get_int64 lookup
builds = refl

differ : (a b : String) → (a == b) ≡ false → a ≢ b
differ a b e p = ground (arith, eq_iff a b)

sanitized : sanitize_query_input "TXN-1\",\"$or\"" ≡ "TXN-1or"
unfolding sanitize_query_input is_safe
sanitized = refl
