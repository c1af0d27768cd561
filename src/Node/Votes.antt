-- ===== src/Node/Votes.antt =====
-- What the votes that reach a node make of a join request.
use kufi_chain.Prelude.{
  ◌+◌, String, ◌≡◌, Bool, true, false, some, List, [], ◌∷◌, ◌++◌, arith, ◌==◌, eq_iff,
  if◌then◌else◌, leb, inl, inr, Option-cases, Option, none, ◌&&◌, refl, sym, ap, ◌∙◌, subst,
  eq_refl,
}
use kufi_chain.Prelude.Int.{ℤ}
use kufi_chain.Prelude.Dict.{lookup, lookup-insert_self, lookup-erase}
use kufi_chain.Prelude.Action.{ok}
use kufi_chain.Node.Types.{
  Vote, JoinRequest, status_pending, status_approved, required_votes, counts, count_votes,
  approval_count, majority_reached, has_voted,
}
use kufi_chain.Node.Manager.{
  Node, Env, Write, written, untouched, torn, completed, is_written, approved, put_file, Message,
  vote_message, broadcast, put_request, save_join_request, load_join_request, signal_refresh,
  announce, check_majority, own_vote, add_vote, cast_vote, receive_gossiped_vote,
}

count_votes-append :
    (t : ℤ) (xs : List Vote) (v : Vote)
    → count_votes t (xs ++ v ∷ []) ≡ count_votes t xs + counts t v
unfolding count_votes
count_votes-append t [] v = omega arith
count_votes-append t (x ∷ xs) v = omega (arith, count_votes-append t xs v)

announce-requests : (id : String) (n : Node) → (announce id n).requests ≡ n.requests
unfolding announce
announce-requests id n = ground arith

-- What a write leaves in the file of a request.
abbrev pub file_after : Write → JoinRequest → Option JoinRequest → Option JoinRequest
file_after written r before = some r
file_after untouched r before = before
file_after torn r before = none
file_after completed r before = some r

pub lookup-put_request :
    (x : Write) (r : JoinRequest) (n : Node)
    → lookup r.id (put_request x r n).requests ≡ file_after x r (lookup r.id n.requests)
unfolding put_request put_file
lookup-put_request written r n = lookup-insert_self r.id r n.requests
lookup-put_request untouched r n = refl
lookup-put_request torn r n = ground (arith, lookup-erase r.id r.id n.requests, eq_refl r.id)
lookup-put_request completed r n = lookup-insert_self r.id r n.requests

-- What `checkMajority` leaves under the key of a request that is stored there.
check_majority-stored :
    (e : Env) (r : JoinRequest) (n : Node)
    → lookup r.id n.requests ≡ some r
    → lookup r.id (check_majority e r n).requests ≡ (
        if (r.status == status_pending) && majority_reached r
        then file_after (e.approval_write r.id) (approved e r) (some r)
        else some r)
unfolding check_majority
check_majority-stored e r n stored = ground (
  arith,
  announce-requests r.id (put_request (e.approval_write r.id) (approved e r) n),
  lookup-put_request (e.approval_write r.id) (approved e r) n,
)

written_if : (x : Write) → is_written x ≡ true → x ≡ written
written_if written y = refl
written_if untouched y = absurd (ground arith)
written_if torn y = absurd (ground arith)
written_if completed y = absurd (ground arith)

stored_vote :
    (e : Env) (v : Vote) (r : JoinRequest) (n : Node)
    → e.write r.id ≡ written
    → lookup r.id (put_request (e.write r.id) (add_vote v r) n).requests ≡ some (add_vote v r)
stored_vote e v r n writes =
    lookup-put_request (e.write r.id) (add_vote v r) n
    ∙ ap (λ x. file_after x (add_vote v r) (lookup r.id n.requests)) writes

-- The request with one more vote: `approved` as soon as the majority is there.
abbrev pub voted : Env → Vote → JoinRequest → JoinRequest
voted e v r =
    if r.status == status_pending
    then (if majority_reached (add_vote v r)
        then record r {
          votes = r.votes ++ v ∷ [];
          status = status_approved;
          resolved_at = some e.approval_time;
        }
        else add_vote v r)
    else add_vote v r

-- What stands in the file of a request after one more vote. The request is stored with the vote, and
-- if that makes the majority it is written once more as approved; where the second write fails, the
-- file holds the request as pending, as approved or not at all.
abbrev pub recorded : Env → Vote → JoinRequest → Option JoinRequest
recorded e v r =
    let q = add_vote v r in
    if (r.status == status_pending) && majority_reached q
    then file_after (e.approval_write r.id) (approved e q) (some q)
    else some q

pub recorded-voted :
    (e : Env) (v : Vote) (r : JoinRequest)
    → e.approval_write r.id ≡ written
    → recorded e v r ≡ some (voted e v r)
recorded-voted e v r writes =
    subst
      (λ x.
        (if (r.status == status_pending) && majority_reached (add_vote v r)
          then file_after x (approved e (add_vote v r)) (some (add_vote v r))
          else some (add_vote v r))
        ≡ some (voted e v r))
      (sym writes) (ground arith)

-- A vote that arrives for a request which the node can read and write, from a voter who has not
-- voted on it, is added to it, and the request is approved exactly if it was pending and the vote
-- makes the majority, as far as the write of the approval gets; a second vote of one voter changes
-- nothing.
pub receive_gossiped_vote-stored :
    (e : Env) (id : String) (v : Vote) (r : JoinRequest) (n : Node)
    → load_join_request e id n ≡ some r
    → r.id ≡ id
    → e.write id ≡ written
    → (has_voted v.voter_msp r ≡ true → receive_gossiped_vote e id v n ≡ n)
      × (has_voted v.voter_msp r ≡ false
          → lookup id (receive_gossiped_vote e id v n).requests ≡ recorded e v r)
unfolding receive_gossiped_vote
receive_gossiped_vote-stored e id v r n found named writes = (
  λ h. ground arith,
  λ h. ground (
    arith,
    stored_vote e v r n (ap e.write named ∙ writes),
    check_majority-stored e (add_vote v r)
        (signal_refresh (put_request (e.write r.id) (add_vote v r) n)),
  ),
)

majority_reached-add_vote :
    (v : Vote) (r : JoinRequest)
    → majority_reached (add_vote v r)
      ≡ leb (required_votes r) (approval_count r + counts r.total_peers v)
unfolding majority_reached approval_count required_votes
majority_reached-add_vote v r = ground (arith, count_votes-append r.total_peers r.votes v)

approval_count-add_vote :
    (v : Vote) (r : JoinRequest)
    → approval_count (add_vote v r) ≡ approval_count r + counts r.total_peers v
unfolding approval_count
approval_count-add_vote v r = count_votes-append r.total_peers r.votes v

-- What a vote changes of the count, the quorum and the status.
pub voted_effect :
    (e : Env) (v : Vote) (r : JoinRequest)
    → ((voted e v r).total_peers ≡ r.total_peers)
      × (approval_count (voted e v r) ≡ approval_count r + counts r.total_peers v)
      × (required_votes (voted e v r) ≡ required_votes r)
      × ((voted e v r).status ≡ (
          if r.status == status_pending
          then (if leb (required_votes r) (approval_count r + counts r.total_peers v)
              then status_approved
              else status_pending)
          else r.status))
unfolding required_votes approval_count
voted_effect e v r = ground (
  arith,
  majority_reached-add_vote v r,
  count_votes-append r.total_peers r.votes v,
  eq_iff r.status status_pending,
)

broadcast-requests : (e : Env) (m : Message) (n : Node) → (broadcast e m n).requests ≡ n.requests
unfolding broadcast
broadcast-requests e m n = ground arith

-- A call of `CastVote` that returns no error found a pending request on which this node's MSP had
-- not voted. Where the request stands under its own id, its file then holds it with the node's vote,
-- still pending, if the vote does not make the majority; if it does, the approved request where the
-- write of the approval succeeds, and where that write fails, of which the call tells nothing, the
-- pending request with the vote, the approved one or none that decodes, as the write has left it.
pub cast_vote-stored :
    (e : Env) (id : String) (approve : Bool) (n n' : Node)
    → cast_vote e id approve n ≡ (ok tt, n')
    → (r : JoinRequest) × (load_join_request e id n ≡ some r)
      × (r.status ≡ status_pending)
      × (has_voted n.config.msp_id r ≡ false)
      × (r.id ≡ id → lookup id n'.requests ≡ recorded e (own_vote e n approve) r)
unfolding cast_vote save_join_request
cast_vote-stored e id approve n n' made = elim (Option-cases (load_join_request e id n)) [
  | inl absent ↦ absurd (ground arith)
  | inr (r, found) ↦
      let q = add_vote (own_vote e n approve) r in
      let n₁ = put_request (e.write r.id) q n in
      let saved : e.write r.id ≡ written = written_if (e.write r.id) (ground arith) in
      let m = vote_message id (own_vote e n approve) in
      (
        r,
        found,
        ground (arith, eq_iff r.status status_pending),
        ground arith,
        λ named. ground (
          arith,
          stored_vote e (own_vote e n approve) r n saved,
          broadcast-requests e m n₁,
          check_majority-stored e q (signal_refresh (broadcast e m n₁)),
        ),
      )
]
