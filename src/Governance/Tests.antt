-- ===== src/Governance/Tests.antt =====
-- The governance chaincode on small ledgers.
use kufi_chain.Prelude.{
  length, ◌≤◌, String, ◌≡◌, refl, ◌≢◌, ◌⊎◌, true, false, Option, none, some, [], ◌∷◌, arith, eq_iff,
  ◌==◌, is_some,
}
use kufi_chain.Prelude.Int.{pos, ◌+ℤ◌, ◌*ℤ◌}
use kufi_chain.Prelude.Dict.{lookup, insert}
use kufi_chain.Prelude.Action.{ok}
use kufi_chain.Governance.Types.{JoinRequest, status_pending, status_approved, status_rejected}
use kufi_chain.Governance.Time.{is_expired, wrap_64}
use kufi_chain.Governance.Host.{World}
use kufi_chain.Governance.Contract.{
  client_msp, tx_time, tx_timestamp, evaluate, apply_vote, get_policy, put_policy, update_policy,
  register_org, count_existing_orgs, register_all, register_existing_orgs, required_ack,
  request_join, put_request, put_vote, get_join_request, count_vote, cast_vote, approve_join,
}
use kufi_chain.Governance.Quorum.{IsCounted}
use kufi_chain.Governance.Voting.{view}
use kufi_chain.Governance.Outcome.{IsVoted, cast_vote-IsVoted}
use kufi_chain.Governance.Admission.{
  AllCounted, OnePending, cast_vote-AllCounted, request_join-AllCounted, expired_request_blocks,
}
use kufi_chain.Governance.Registry.{cast_vote-registers}
use kufi_chain.Governance.Chain.{register_op, join_op, run_op, here, next, Holds, Reach-Holds}
use kufi_chain.Governance.Sample.{
  no_policy, json, dates, tx, empty, founded, asked, once, twice, request, Doc, policy_doc,
}

founds : register_existing_orgs json dates (tx "t0" "BankAMSP") "" empty ≡ (ok tt, founded)
unfolding register_existing_orgs register_all register_org insert
founds = refl

asks :
    request_join json dates (tx "t1" "BankCMSP") "BankC" "BankCMSP" "c" "host" (pos 7051) "" founded
    ≡ (ok tt, asked)
unfolding request_join register_existing_orgs register_all register_org insert
asks = refl

approves_once : approve_join json dates (tx "t2" "BankAMSP") "t1" "" asked ≡ (ok tt, once)
unfolding approve_join cast_vote count_vote get_join_request get_policy is_expired client_msp
    tx_time tx_timestamp request_join register_existing_orgs register_all register_org insert lookup
approves_once = refl

asked-request : view json dates asked "t1" ≡ some request
unfolding request_join register_existing_orgs register_all register_org insert lookup required_ack
    count_existing_orgs tx_timestamp tx_time client_msp
asked-request = refl

differ : (a b : String) → (a == b) ≡ false → a ≢ b
differ a b e p = ground (arith, eq_iff a b)

request-IsCounted : IsCounted request
request-IsCounted =
    ground (arith, eq_iff status_pending status_approved, eq_iff status_pending status_rejected)

no_votes : lookup "BankAMSP" request.approvals ≡ none
unfolding lookup
no_votes = refl

founded_requests : founded.requests ≡ []
unfolding register_existing_orgs register_all register_org insert
founded_requests = refl

founded-AllCounted : AllCounted json dates founded
unfolding lookup register_existing_orgs register_all register_org insert
founded-AllCounted id r e = cc

two_orgs : 1 ≤ length founded.orgs
unfolding register_existing_orgs register_all register_org insert
two_orgs = omega arith

votes_once : cast_vote json dates (tx "t2" "BankAMSP") "t1" "APPROVE" "" asked ≡ (ok tt, once)
unfolding approve_join
votes_once = approves_once

asked-AllCounted : AllCounted json dates asked
asked-AllCounted =
    request_join-AllCounted json dates (tx "t1" "BankCMSP") "BankC" "BankCMSP" "c" "host" (pos 7051)
      "" founded asked asks refl two_orgs founded-AllCounted

cast_vote-AllCounted_example : AllCounted json dates once
cast_vote-AllCounted_example =
    cast_vote-AllCounted json dates (tx "t2" "BankAMSP") "t1" "APPROVE" "" asked once votes_once
      asked-AllCounted

cast_vote-IsVoted_example :
    let t = tx "t2" "BankAMSP" in
    (r : JoinRequest) × (r' : JoinRequest) × (view json dates asked "t1" ≡ some r)
    × (view json dates once "t1" ≡ some r')
    × (r.status ≡ status_pending)
    × (is_expired dates r.created_at (get_policy json dates t asked).expiry_hours (tx_time t)
        ≡ false)
    × (client_msp t ≢ r.msp_id)
    × (lookup (client_msp t) r.approvals ≡ none)
    × (lookup (client_msp t) r.rejections ≡ none)
    × IsVoted (tx_timestamp dates t) (client_msp t) "APPROVE" r r'
    × (◌≢◌ {A = String} "t9" "t1" → view json dates once "t9" ≡ view json dates asked "t9")
cast_vote-IsVoted_example =
    cast_vote-IsVoted json dates (tx "t2" "BankAMSP") "t1" "APPROVE" "" "t9" asked once votes_once
      refl

-- Where only the query of the organisations fails, the request is accepted, and one vote admits it.
abbrev uncounted : World Doc
uncounted =
    (request_join json dates (record (tx "t1" "BankCMSP") { orgs_range_fails = true }) "BankC"
      "BankCMSP" "c" "host" (pos 7051) "" founded).1

asks_uncounted :
    request_join json dates
      (record (tx "t1" "BankCMSP") { orgs_range_fails = true })
      "BankC"
      "BankCMSP"
      "c"
      "host"
      (pos 7051)
      ""
      founded
    ≡ (ok tt, uncounted)
unfolding request_join register_existing_orgs register_all register_org insert
asks_uncounted = refl

needs_one :
    view json dates uncounted "t1" ≡ some (record request { required_ack = 1; total_orgs = 0 })
unfolding request_join insert lookup required_ack count_existing_orgs tx_timestamp tx_time
    client_msp register_existing_orgs register_all register_org
needs_one = refl

no_request : (id : String) (r : JoinRequest) → view json dates founded id ≡ some r → ⊥
unfolding lookup
no_request id r e = ground (arith, founded_requests)

founded-OnePending : OnePending json dates founded
founded-OnePending id id' r r' s s' p p' same = absurd (no_request id r s)

votes_twice : cast_vote json dates (tx "t3" "BankBMSP") "t1" "APPROVE" "" once ≡ (ok tt, twice)
unfolding approve_join cast_vote count_vote get_join_request get_policy is_expired client_msp
    tx_time tx_timestamp request_join register_existing_orgs register_all register_org insert lookup
    put_vote put_request evaluate apply_vote required_ack count_existing_orgs
votes_twice = refl

once-AllCounted : AllCounted json dates once
once-AllCounted =
    cast_vote-AllCounted json dates (tx "t2" "BankAMSP") "t1" "APPROVE" "" asked once votes_once (
      request_join-AllCounted json dates (tx "t1" "BankCMSP") "BankC" "BankCMSP" "c" "host"
        (pos 7051) "" founded asked asks refl two_orgs founded-AllCounted)

abbrev voted : JoinRequest
voted = record request { approvals = ("BankAMSP", "later") ∷ [] }

abbrev admitted : JoinRequest
admitted = record request {
  approvals = ("BankAMSP", "later") ∷ ("BankBMSP", "later") ∷ [];
  status = "APPROVED";
  resolved_at = "later";
}

once_request : view json dates once "t1" ≡ some voted
unfolding approve_join cast_vote count_vote get_join_request get_policy is_expired client_msp
    tx_time tx_timestamp request_join register_existing_orgs register_all register_org insert lookup
    put_vote put_request evaluate apply_vote required_ack count_existing_orgs
once_request = refl

twice_request : view json dates twice "t1" ≡ some admitted
unfolding approve_join cast_vote count_vote get_join_request get_policy is_expired client_msp
    tx_time tx_timestamp request_join register_existing_orgs register_all register_org insert lookup
    put_vote put_request evaluate apply_vote required_ack count_existing_orgs
twice_request = refl

cast_vote-registers_example :
    ((admitted.status ≡ status_approved)
      × (is_some (lookup "BankCMSP" twice.orgs) ≡ true)
      × (◌≢◌ {A = String} "BankAMSP" "BankCMSP"
          → lookup "BankAMSP" twice.orgs ≡ lookup "BankAMSP" once.orgs))
    ⊎ ((admitted.status ≢ status_approved) × (twice.orgs ≡ once.orgs))
cast_vote-registers_example =
    cast_vote-registers json dates (tx "t3" "BankBMSP") "t1" "APPROVE" "" "BankAMSP" voted admitted
      once twice votes_twice once-AllCounted once_request twice_request refl refl refl

-- The same on a ledger with no organisation.
abbrev lonely : World Doc
lonely =
    (request_join json dates (tx "t1" "BankCMSP") "BankC" "BankCMSP" "c" "host" (pos 7051) ""
      empty).1

abbrev lonely_vote : World Doc
lonely_vote = (cast_vote json dates (tx "t2" "BankAMSP") "t1" "APPROVE" "" lonely).1

lonely_votes :
    cast_vote json dates (tx "t2" "BankAMSP") "t1" "APPROVE" "" lonely ≡ (ok tt, lonely_vote)
unfolding cast_vote count_vote get_join_request get_policy is_expired client_msp tx_time
    tx_timestamp request_join insert lookup put_vote put_request evaluate apply_vote required_ack
    count_existing_orgs
lonely_votes = refl

abbrev lonely_request : JoinRequest
lonely_request = record request { required_ack = 1; total_orgs = 0 }

lonely_found : view json dates lonely "t1" ≡ some lonely_request
unfolding request_join insert lookup required_ack count_existing_orgs tx_timestamp tx_time
    client_msp
lonely_found = refl

-- An expired request: the policy's hours are up before the date.
abbrev late : World Doc
late = record asked { policy = some (policy_doc (record no_policy { expiry_hours = pos 2562048 })) }

late-request : view json dates late "t1" ≡ some request
late-request = asked-request

late_expires :
    is_expired dates "later"
      (get_policy json dates (tx "t2" "BankAMSP") late).expiry_hours
      (tx_time (tx "t2" "BankAMSP"))
    ≡ true
unfolding is_expired get_policy tx_time wrap_64 ◌+ℤ◌ ◌*ℤ◌
late_expires = refl

expired_request_blocks_example :
    ((cast_vote json dates (tx "t2" "BankAMSP") "t1" "APPROVE" "" late).0 ≢ ok tt)
    × ((request_join json dates (tx "t2" "BankAMSP") "C" "BankCMSP" "c" "h" (pos 1) "" late).0
        ≢ ok tt)
expired_request_blocks_example =
    expired_request_blocks json dates (tx "t2" "BankAMSP") "t1" "APPROVE" "" "C" "c" "h" (pos 1) ""
      request late late-request refl late_expires

abbrev strict : World Doc
strict = (update_policy json dates (tx "t9" "OutsiderMSP") "UNANIMOUS" (pos 100) (pos 1) empty).1

updates :
    update_policy json dates (tx "t9" "OutsiderMSP") "UNANIMOUS" (pos 100) (pos 1) empty
    ≡ (ok tt, strict)
unfolding update_policy put_policy
updates = refl

abbrev unanimous : Option Doc
unanimous =
    some (policy_doc (record no_policy { policy_type = "UNANIMOUS"; expiry_hours = pos 168 }))

same_expiry :
    (get_policy json dates (tx "t2" "BankAMSP") (record asked { policy = unanimous })).expiry_hours
    ≡ (get_policy json dates (tx "t2" "BankAMSP") asked).expiry_hours
unfolding get_policy request_join register_existing_orgs register_all register_org
same_expiry = refl

runs_register : run_op json dates (register_op "") (tx "t0" "BankAMSP") empty ≡ (ok tt, founded)
runs_register = unfold run_op in founds

runs_join :
    run_op json dates
      (join_op "BankC" "BankCMSP" "c" "host" (pos 7051) "")
      (tx "t1" "BankCMSP")
      founded
    ≡ (ok tt, asked)
runs_join = unfold run_op in asks

Reach-Holds_example : Holds json dates asked
Reach-Holds_example = Reach-Holds json dates empty asked refl (
    next (join_op "BankC" "BankCMSP" "c" "host" (pos 7051) "") (tx "t1" "BankCMSP")
      (next (register_op "") (tx "t0" "BankAMSP") here runs_register) runs_join)
