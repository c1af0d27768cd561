-- ===== src/Node/Tests.antt =====
-- A node that receives requests and votes.
use kufi_chain.Prelude.{
  String, ◌≡◌, refl, ◌≢◌, true, false, Option, none, some, List, [], ◌∷◌, arith, ◌==◌, eq_iff,
}
use kufi_chain.Prelude.Dict.{lookup, insert}
use kufi_chain.Prelude.Action.{ok}
use kufi_chain.Node.Types.{
  Vote, JoinRequest, status_pending, required_votes, count_votes, approval_count, majority_reached,
  has_voted,
}
use kufi_chain.Node.Manager.{
  Node, Env, untouched, put_file, gossip_targets, broadcast, put_request, save_join_request,
  load_join_request, announce, check_majority, receive_gossiped_request, own_vote, cast_vote,
  receive_gossiped_vote,
}
use kufi_chain.Node.Sample.{env, vote, request, node, empty}
use kufi_chain.Node.Votes.{recorded, cast_vote-stored}
use kufi_chain.Node.Gossip.{receive_gossiped_vote-commutes, receive_gossiped_request-late}

abbrev status_of : Option JoinRequest → Option String
status_of none = none
status_of (some r) = some r.status

differ : (a b : String) → (a == b) ≡ false → a ≢ b
differ a b e same = ground (arith, eq_iff a b)

here : (votes : List Vote) → lookup "r1" (node votes).requests ≡ some (request votes)
unfolding lookup
here votes = refl

loads : (votes : List Vote) → load_join_request env "r1" (node votes) ≡ some (request votes)
unfolding lookup load_join_request
loads votes = refl

new_b : has_voted "BankBMSP" (request []) ≡ false
unfolding has_voted
new_b = refl

new_c : has_voted "BankCMSP" (request []) ≡ false
unfolding has_voted
new_c = refl

abbrev after_own : Node
after_own = (cast_vote env "r1" true (node (vote "BankBMSP" true ∷ []))).1

casts : cast_vote env "r1" true (node (vote "BankBMSP" true ∷ [])) ≡ (ok tt, after_own)
unfolding cast_vote save_join_request load_join_request lookup has_voted
casts = refl

announced : after_own.approval_ch ≡ "r1" ∷ []
unfolding cast_vote save_join_request put_request put_file load_join_request lookup insert has_voted
    broadcast gossip_targets check_majority majority_reached approval_count count_votes
    required_votes announce
announced = refl

-- The same where the write of the approval fails: the call returns no error, the request is announced,
-- and its file still says PENDING.
abbrev full_disk : Env
full_disk = record env { approval_write = λ id. untouched }

abbrev unmarked : Node
unmarked = (cast_vote full_disk "r1" true (node (vote "BankBMSP" true ∷ []))).1

casts_unmarked :
    cast_vote full_disk "r1" true (node (vote "BankBMSP" true ∷ [])) ≡ (ok tt, unmarked)
unfolding cast_vote save_join_request load_join_request lookup has_voted
casts_unmarked = refl

announced_unmarked : unmarked.approval_ch ≡ "r1" ∷ []
unfolding cast_vote save_join_request put_request put_file load_join_request lookup insert has_voted
    broadcast gossip_targets check_majority majority_reached approval_count count_votes
    required_votes announce
announced_unmarked = refl

pending_unmarked : status_of (lookup "r1" unmarked.requests) ≡ some status_pending
unfolding cast_vote save_join_request put_request put_file load_join_request lookup insert has_voted
    broadcast gossip_targets check_majority majority_reached approval_count count_votes
    required_votes announce
pending_unmarked = refl

cast_vote-stored_example :
    (r : JoinRequest) × (load_join_request env "r1" (node (vote "BankBMSP" true ∷ [])) ≡ some r)
    × (r.status ≡ status_pending)
    × (has_voted "BankAMSP" r ≡ false)
    × (◌≡◌ {A = String} r.id "r1"
        → lookup "r1" after_own.requests
          ≡ recorded env (own_vote env (node (vote "BankBMSP" true ∷ [])) true) r)
cast_vote-stored_example =
    cast_vote-stored env "r1" true (node (vote "BankBMSP" true ∷ [])) after_own casts

receive_gossiped_vote-commutes_example :
    (a : JoinRequest) × (b : JoinRequest) × (lookup "r1"
        (receive_gossiped_vote env "r1"
          (vote "BankCMSP" true)
          (receive_gossiped_vote env "r1" (vote "BankBMSP" true) (node []))).requests
      ≡ some a)
    × (lookup "r1"
          (receive_gossiped_vote env "r1"
            (vote "BankBMSP" true)
            (receive_gossiped_vote env "r1" (vote "BankCMSP" true) (node []))).requests
        ≡ some b)
    × (a.status ≡ b.status)
    × (approval_count a ≡ approval_count b)
receive_gossiped_vote-commutes_example =
    receive_gossiped_vote-commutes env env "r1" (vote "BankBMSP" true) (vote "BankCMSP" true)
      (request []) (node []) (refl, refl, refl) (refl, refl, refl) (here []) refl new_b new_c
      (differ "BankBMSP" "BankCMSP" refl)

abbrev full : JoinRequest
full = request (vote "BankBMSP" true ∷ vote "BankCMSP" true ∷ [])

full_majority : majority_reached full ≡ true
unfolding majority_reached approval_count count_votes required_votes
full_majority = refl

unknown : lookup "r1" empty.requests ≡ none
unfolding lookup
unknown = refl

receive_gossiped_request-late_example :
    let (x, n') = receive_gossiped_request env full empty in
    (x ≡ ok tt)
    × (lookup "r1" n'.requests ≡ some full)
    × (n'.approval_ch ≡ [])
    × (receive_gossiped_request env full n' ≡ (ok tt, n'))
receive_gossiped_request-late_example =
    receive_gossiped_request-late env env full empty (refl, refl, refl) refl unknown
