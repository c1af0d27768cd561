-- ===== src/Api/Gateway/Tests.antt =====
-- The handlers on a few requests.
use kufi_chain.Prelude.{
  ℕ, ◌≤◌, ◌≡◌, refl, ◌≢◌, ◌↔◌, inl, true, none, List, [], ◌∷◌, arith, length, All,
}
use kufi_chain.Prelude.Int.{pos, ◌-ℤ◌, ◌+ℤ◌, ◌≤ℤ◌, ltb_ℤ, unix_milli}
use kufi_chain.Prelude.Dict.{lookup}
use kufi_chain.Prelude.Action.{ok}
use kufi_chain.Payment.Contract.{policy_collection}
use kufi_chain.Receipt.Sample.{crypto, builder}
use kufi_chain.Api.Files.Nonces.{new_file_nonce_store, exists}
use kufi_chain.Api.Files.Keys.{new_file_idempotency_store, get_key}
use kufi_chain.Prelude.Copy.{copy, copy_keys}
use kufi_chain.Prelude.Sweep.{keys}
use kufi_chain.Api.Gateway.Host.{ClientCall}
use kufi_chain.Api.Gateway.Requests.{
  validate_transfer_request, is_fresh, determine_policy_id, collection_name,
  is_transparency_policy_met, is_missing_collection_error, is_missing_endorsing_peer_error,
}
use kufi_chain.Api.Gateway.Requests.Transparency.{TwoMsps, is_transparency_policy_met_iff}
use kufi_chain.Api.Gateway.Submit.{
  Stores, admit_transfer, submit_to, submit_orgs, submit_all, finish_transfer, submit_transfer,
}
use kufi_chain.Api.Gateway.Runs.{
  Event, InOrder, Chain, transfer, clean_nonces, reply_of, stores_after, client_calls, run,
}
use kufi_chain.Api.Gateway.Replays.{submit_transfer-replay}
use kufi_chain.Api.Gateway.Repeats.{submit_transfer-repeat}
use kufi_chain.Api.Gateway.Submissions.{
  IsCall, submit_all-AreCalls, collection_name-policy_collection,
}
use kufi_chain.Api.Gateway.Sample.{
  settings, library, result, network, clock, request, storers, stores,
}

-- One second after the epoch, two seconds, and the last millisecond of the window.
first_count :
    length (
      client_calls crypto library settings storers builder network
        (clock 1000000000)
        (ok request)
        stores)
    ≡ 1
unfolding submit_transfer admit_transfer validate_transfer_request is_fresh submit_all submit_orgs
    submit_to is_missing_collection_error is_missing_endorsing_peer_error new_file_nonce_store
    exists new_file_idempotency_store copy copy_keys keys get_key lookup ◌-ℤ◌ unix_milli
first_count = refl

nonempty : (ps : List ClientCall) → length ps ≡ 1 → ps ≢ []
nonempty [] e same = absurd (omega (arith, e))
nonempty (p ∷ ps) e same = cc

first_reached :
    client_calls crypto library settings storers builder network
      (clock 1000000000)
      (ok request)
      stores
    ≢ []
first_reached = nonempty _ first_count

abbrev events : List Event
events =
    clean_nonces (pos 1500000000)
    ∷ transfer network (clock 1600000000)
        (ok (record request { nonce = "fedcba9876543210"; idempotency_key = "other" }))
    ∷ []

at_once : (n : ℕ) → InOrder (clock n)
at_once n =
    (omega arith, omega arith, omega arith, omega arith, omega arith, omega arith, omega arith)

events_later : Chain (pos 1000000000) events (pos 2000000000)
events_later = (omega arith, (omega arith, at_once 1600000000, omega arith))

inside : ltb_ℤ (pos 2000000000 -ℤ pos 1000000000) (storers.nonces.window stores.nonces) ≡ true
unfolding ◌-ℤ◌ new_file_nonce_store
inside = refl

-- After the first request and the events.
abbrev later_stores : Stores storers
later_stores = run crypto library settings storers builder events (
    stores_after crypto library settings storers builder network (clock 1000000000) (ok request)
      stores)

submit_transfer-replay_example :
    client_calls crypto library settings storers builder network
      (clock 2000000000)
      (ok (record request { idempotency_key = "new" }))
      later_stores
    ≡ []
submit_transfer-replay_example =
    submit_transfer-replay crypto library settings storers builder network network
      (clock 1000000000) (clock 2000000000) request (record request { idempotency_key = "new" })
      stores events first_reached refl (at_once 1000000000) events_later inside

first_success :
    (reply_of crypto library settings storers builder network
      (clock 1000000000)
      (ok request)
      stores).body.success
    ≡ true
unfolding submit_transfer admit_transfer finish_transfer validate_transfer_request is_fresh
    submit_all submit_orgs submit_to new_file_nonce_store exists new_file_idempotency_store copy
    copy_keys keys get_key lookup ◌-ℤ◌ unix_milli
first_success = refl

request_valid : validate_transfer_request request ≡ none
unfolding validate_transfer_request
request_valid = refl

in_time : pos 2000000000 ≤ℤ pos 1000000000 +ℤ storers.keys.ttl stores.keys
unfolding ◌+ℤ◌ new_file_idempotency_store copy copy_keys keys
in_time = omega arith

submit_transfer-repeat_example :
    ((reply_of crypto library settings storers builder network
        (clock 2000000000)
        (ok request)
        later_stores).code
      ≡ 200)
    × ((reply_of crypto library settings storers builder network
          (clock 2000000000)
          (ok request)
          later_stores).body.success
        ≡ true)
    × ((reply_of crypto library settings storers builder network
          (clock 2000000000)
          (ok request)
          later_stores).body.tx_id
        ≡ (reply_of crypto library settings storers builder network
            (clock 1000000000)
            (ok request)
            stores).body.tx_id)
    × ((reply_of crypto library settings storers builder network
          (clock 2000000000)
          (ok request)
          later_stores).body.receipt
        ≡ (reply_of crypto library settings storers builder network
            (clock 1000000000)
            (ok request)
            stores).body.receipt)
    × (client_calls crypto library settings storers builder network
          (clock 2000000000)
          (ok request)
          later_stores
        ≡ [])
submit_transfer-repeat_example =
    submit_transfer-repeat crypto library settings storers builder network network
      (clock 1000000000) (clock 2000000000) request request stores events first_reached
      first_success refl request_valid (at_once 1000000000) events_later in_time

submit_all-AreCalls_example :
    (1 ≤ length (submit_all crypto library settings network request).1)
    × (length (submit_all crypto library settings network request).1 ≤ 3)
    × All
        (IsCall crypto library settings request)
        (submit_all crypto library settings network request).1
submit_all-AreCalls_example = submit_all-AreCalls crypto library settings network request

collection_name-policy_collection_example :
    policy_collection (determine_policy_id settings request) "VietcombankMSP"
    ≡ collection_name settings request
collection_name-policy_collection_example =
    collection_name-policy_collection crypto library settings request "VietcombankMSP" (inl refl)
      (inl refl)

is_transparency_policy_met_iff_example :
    (is_transparency_policy_met settings result.endorsements ≡ true) ↔ TwoMsps result.endorsements
is_transparency_policy_met_iff_example = is_transparency_policy_met_iff settings result.endorsements
