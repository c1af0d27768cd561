-- ===== src/Node/Gossip.antt =====
-- Votes and requests that arrive in another order, or late.
use kufi_chain.Prelude.{
  String, ◌≡◌, refl, ◌≢◌, true, false, ◌||◌, none, some, List, [], ◌∷◌, ◌++◌, arith, ◌==◌, eq_iff,
  eq_refl, any, All, ◌∙◌, sym, ap,
}
use kufi_chain.Prelude.Dict.{lookup}
use kufi_chain.Prelude.Action.{ok}
use kufi_chain.Node.Types.{Vote, JoinRequest, status_pending, approval_count, has_voted}
use kufi_chain.Node.Manager.{
  Node, Env, written, save_join_request, load_join_request, receive_gossiped_request, merge_votes,
  receive_gossiped_vote,
}
use kufi_chain.Node.Votes.{
  file_after, lookup-put_request, recorded-voted, voted, voted_effect, receive_gossiped_vote-stored,
}

-- The status and the count of approvals after two votes.
both_effects :
    (e e' : Env) (v w : Vote) (r : JoinRequest)
    → ((voted e' w (voted e v r)).status ≡ (voted e' v (voted e w r)).status)
      × (approval_count (voted e' w (voted e v r)) ≡ approval_count (voted e' v (voted e w r)))
both_effects e e' v w r =
    let f = voted_effect e v r in
    let g = voted_effect e w r in
    let fg = voted_effect e' w (voted e v r) in
    let gf = voted_effect e' v (voted e w r) in
    let p = eq_iff r.status status_pending in
    let q = eq_refl status_pending in
    (ground (arith, f, g, fg, gf, p, q), ground (arith, f, g, fg, gf))

has_voted-voted :
    (e : Env) (v w : Vote) (r : JoinRequest)
    → v.voter_msp ≢ w.voter_msp
    → has_voted w.voter_msp r ≡ false
    → has_voted w.voter_msp (voted e v r) ≡ false
unfolding has_voted
has_voted-voted e v w r differ fresh =
    ground (arith, eq_iff v.voter_msp w.voter_msp, any-append r.votes)
  where
    any-append :
        (us : List Vote)
        → any (λ u. u.voter_msp == w.voter_msp) (us ++ v ∷ [])
          ≡ (any (λ u. u.voter_msp == w.voter_msp) us || (v.voter_msp == w.voter_msp))
    any-append [] = ground arith
    any-append (u ∷ us) = ground (arith, any-append us)

id-voted : (e : Env) (v : Vote) (r : JoinRequest) → (voted e v r).id ≡ r.id
id-voted e v r = ground arith

-- The node reads the request, and makes both writes of it.
abbrev pub Works : String → Env → Type 0
Works id e = (e.read_fails id ≡ false) × (e.write id ≡ written) × (e.approval_write id ≡ written)

two_votes :
    (e e' : Env) (id : String) (v w : Vote) (r : JoinRequest) (n : Node)
    → Works id e
    → Works id e'
    → lookup id n.requests ≡ some r
    → r.id ≡ id
    → has_voted v.voter_msp r ≡ false
    → has_voted w.voter_msp r ≡ false
    → v.voter_msp ≢ w.voter_msp
    → lookup id (receive_gossiped_vote e' id w (receive_gossiped_vote e id v n)).requests
      ≡ some (voted e' w (voted e v r))
unfolding load_join_request
two_votes e e' id v w r n (reads, writes, approves) (reads', writes', approves') found named fv fw
      differ =
    let n₁ = receive_gossiped_vote e id v n in
    let r₁ = voted e v r in
    let first : lookup id n₁.requests ≡ some r₁ =
      (receive_gossiped_vote-stored e id v r n (ground arith) named writes).1 fv
      ∙ recorded-voted e v r (ap e.approval_write named ∙ approves) in
    (receive_gossiped_vote-stored e' id w r₁ n₁ (ground arith) (id-voted e v r ∙ named) writes').1
      (has_voted-voted e v w r differ fw)
    ∙ recorded-voted e' w r₁ (ap e'.approval_write (id-voted e v r ∙ named) ∙ approves')

-- Two votes of different voters on a stored request, which reach a node that can read and write it
-- in either order, leave it with the same status and the same count of approvals.
pub receive_gossiped_vote-commutes :
    (e e' : Env) (id : String) (v w : Vote) (r : JoinRequest) (n : Node)
    → Works id e
    → Works id e'
    → lookup id n.requests ≡ some r
    → r.id ≡ id
    → has_voted v.voter_msp r ≡ false
    → has_voted w.voter_msp r ≡ false
    → v.voter_msp ≢ w.voter_msp
    → (a : JoinRequest) × (b : JoinRequest) × (lookup id
          (receive_gossiped_vote e' id w (receive_gossiped_vote e id v n)).requests
        ≡ some a)
      × (lookup id (receive_gossiped_vote e' id v (receive_gossiped_vote e id w n)).requests
          ≡ some b)
      × (a.status ≡ b.status)
      × (approval_count a ≡ approval_count b)
receive_gossiped_vote-commutes e e' id v w r n works works' found named fv fw differ =
    let (status, count) = both_effects e e' v w r in
    (
      voted e' w (voted e v r),
      voted e' v (voted e w r),
      two_votes e e' id v w r n works works' found named fv fw differ,
      two_votes e e' id w v r n works works' found named fw fv (λ p. differ (sym p)),
      status,
      count,
    )

merge_votes-known :
    (vs : List Vote) (r : JoinRequest)
    → All (λ v. has_voted v.voter_msp r ≡ true) vs
    → merge_votes vs r ≡ (r, false)
unfolding merge_votes
merge_votes-known [] r known = refl
merge_votes-known (v ∷ vs) r (h, known) = ground (arith, merge_votes-known vs r known)

-- The voters of a request have voted on it.
own_votes : (r : JoinRequest) → All (λ v. has_voted v.voter_msp r ≡ true) r.votes
unfolding has_voted
own_votes r = among r.votes r.votes (λ m h. h)
  where
    among :
        (vs us : List Vote)
        → ((m : String)
            → any (λ u. u.voter_msp == m) vs ≡ true
            → any (λ u. u.voter_msp == m) us ≡ true)
        → All (λ v. any (λ u. u.voter_msp == v.voter_msp) us ≡ true) vs
    among [] us h = tt
    among (v ∷ vs) us h = (
      h v.voter_msp (ground (arith, eq_refl v.voter_msp)),
      among vs us (λ m a. h m (ground arith)),
    )

-- A node that learns of a request stores it as it is, without counting the votes that it carries,
-- and a further copy of it that the node can read leaves the node unchanged: a pending request whose
-- votes already make the majority is not approved by either.
pub receive_gossiped_request-late :
    (e e' : Env) (r : JoinRequest) (n : Node)
    → Works r.id e
    → e'.read_fails r.id ≡ false
    → lookup r.id n.requests ≡ none
    → let (x, n') = receive_gossiped_request e r n in
      (x ≡ ok tt)
      × (lookup r.id n'.requests ≡ some r)
      × (n'.approval_ch ≡ n.approval_ch)
      × (receive_gossiped_request e' r n' ≡ (ok tt, n'))
unfolding receive_gossiped_request save_join_request load_join_request
receive_gossiped_request-late e e' r n (reads, writes, approves) reads' unknown =
    let stored =
      lookup-put_request (e.write r.id) r n
      ∙ ap (λ x. file_after x r (lookup r.id n.requests)) writes in
    let same = merge_votes-known r.votes r (own_votes r) in
    (ground arith, ground (arith, stored), ground arith, ground (arith, stored, same))
