-- ===== src/Governance/Outcome.antt =====
-- What the ledger holds of a request after an accepted vote on it, in terms of the votes alone.
use kufi_chain.Prelude.{
  ◌+◌, String, ◌≡◌, ◌≢◌, none, some, false, arith, eq_iff, ltb, leb, length, if◌then◌else◌,
}
use kufi_chain.Prelude.Dict.{lookup, lookup-insert, lookup-insert_self, length-insert}
use kufi_chain.Prelude.Action.{ok}
use kufi_chain.Governance.Types.{JoinRequest, status_pending, status_approved, status_rejected}
use kufi_chain.Governance.Time.{Format, is_expired}
use kufi_chain.Governance.Host.{Json, request_key, World, Tx}
use kufi_chain.Governance.Contract.{
  client_msp, tx_time, tx_timestamp, get_policy, evaluate, apply_vote, put_request, cast_vote,
}
use kufi_chain.Governance.Voting.{view, outcome, cast_vote-ok}

-- `r'` is the pending `r` with one more vote: those of the voter, all others, the status that
-- follows from the numbers, and what a vote leaves alone.
abbrev pub IsVoted : String → String → String → JoinRequest → JoinRequest → Type 0
IsVoted now voter decision r r' =
    (decision ≡ "APPROVE"
      → (lookup voter r'.approvals ≡ some now)
        × (length r'.approvals ≡ length r.approvals + 1)
        × (r'.rejections ≡ r.rejections))
    × (decision ≢ "APPROVE"
        → (lookup voter r'.rejections ≡ some now)
          × (length r'.rejections ≡ length r.rejections + 1)
          × (r'.approvals ≡ r.approvals))
    × (r'.status ≡ (
        if ltb r.total_orgs (length r'.rejections + r.required_ack)
        then status_rejected
        else if leb r.required_ack (length r'.approvals)
        then status_approved
        else status_pending))
    × (r'.msp_id ≡ r.msp_id)
    × (r'.required_ack ≡ r.required_ack)
    × (r'.total_orgs ≡ r.total_orgs)

outcome-IsVoted :
    (now voter decision : String) (r : JoinRequest)
    → r.status ≡ status_pending
    → lookup voter r.approvals ≡ none
    → lookup voter r.rejections ≡ none
    → IsVoted now voter decision r (evaluate now (apply_vote now voter decision r)).0
unfolding evaluate apply_vote
outcome-IsVoted now voter decision r p a b =
    let kind = eq_iff decision "APPROVE" in
    let yea = length-insert voter now r.approvals in
    let nay = length-insert voter now r.rejections in
    let own = lookup-insert_self voter now r.approvals in
    let own' = lookup-insert_self voter now r.rejections in
    (
      (λ e. ground (arith, kind, yea, own, a)),
      (λ e. ground (arith, kind, nay, own', b)),
      ground (arith, kind, p),
      ground arith,
      ground arith,
      ground arith,
    )

module _ (j : Json) (f : Format) where
  -- A call of `castVote` that returns no error found a PENDING request that has not expired and a
  -- caller that is neither the applicant nor a voter on it. Where the peer makes the write of the
  -- request, it is then stored with the caller's vote, which makes one approval or one rejection
  -- more. It is REJECTED if the organisations that have not rejected it are fewer than the quorum,
  -- else APPROVED if the approvals reach the quorum, else still PENDING. Its MSP, its quorum and its
  -- number of organisations stay, and every other request is as before.
  pub cast_vote-IsVoted :
      (t : Tx) (id decision reason other : String) (w w' : World j.Bytes)
      → cast_vote j f t id decision reason w ≡ (ok tt, w')
      → t.put_fails (request_key id) ≡ false
      → (r : JoinRequest) × (r' : JoinRequest) × (view j f w id ≡ some r)
        × (view j f w' id ≡ some r')
        × (r.status ≡ status_pending)
        × (is_expired f r.created_at (get_policy j f t w).expiry_hours (tx_time t) ≡ false)
        × (client_msp t ≢ r.msp_id)
        × (lookup (client_msp t) r.approvals ≡ none)
        × (lookup (client_msp t) r.rejections ≡ none)
        × IsVoted (tx_timestamp f t) (client_msp t) decision r r'
        × (other ≢ id → view j f w' other ≡ view j f w other)
  unfolding put_request
  cast_vote-IsVoted t id decision reason other w w' e stores =
      let (r, found, pending, early, foreign, a, b, stored, o) =
        cast_vote-ok j f t id decision reason w w' e in
      let r' = (outcome j f t decision r).0 in
      (
        r,
        r',
        found,
        ground (
          arith,
          stored,
          lookup-insert_self id (j.marshal_request r') w.requests,
          j.unmarshal-marshal_request r',
        ),
        pending,
        early,
        foreign,
        a,
        b,
        outcome-IsVoted (tx_timestamp f t) (client_msp t) decision r pending a b,
        λ differs. ground (
          arith,
          stored,
          lookup-insert id other (j.marshal_request r') w.requests,
          eq_iff id other,
        ),
      )
