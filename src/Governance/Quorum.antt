-- ===== src/Governance/Quorum.antt =====
-- The count of the votes: one vote on a pending request, and the outcome that follows from it.
use kufi_chain.Prelude.{
  ℕ, ◌+◌, ◌/◌, ◌≤◌, ◌<◌, String, ◌≡◌, ◌⊎◌, ◌↔◌, inl, inr, true, none, arith, eq_iff, ◌==◌, length,
  Bool-cases,
}
use kufi_chain.Prelude.Dict.{lookup, length-insert}
use kufi_chain.Governance.Types.{JoinRequest, status_pending, status_approved, status_rejected}
use kufi_chain.Governance.Contract.{evaluate, apply_vote, required_ack}

-- What holds of a stored request. While it is PENDING it can still be approved and has not been.
pub record IsCounted (r : JoinRequest) : Type 0 where
  pub quorum : r.required_ack ≡ r.total_orgs / 2 + 1
  pub open_short : r.status ≡ status_pending → length r.approvals < r.required_ack
  pub open_possible :
      r.status ≡ status_pending → length r.rejections + r.required_ack ≤ r.total_orgs
  pub approved_full : r.status ≡ status_approved → r.required_ack ≤ length r.approvals
  pub rejected_lost :
      r.status ≡ status_rejected → r.total_orgs < length r.rejections + r.required_ack

-- The approvals needed are a strict majority of the organisations, which all of them together
-- reach if there is one at all.
pub required_ack_majority :
    (n : ℕ) → (n < required_ack n + required_ack n) × (1 ≤ n → required_ack n ≤ n)
unfolding required_ack
required_ack_majority n = ground arith

-- The number of votes in a request.
abbrev pub ballots : JoinRequest → ℕ
ballots r = length r.approvals + length r.rejections

pub ballots-apply_vote :
    (now voter decision : String) (r : JoinRequest)
    → lookup voter r.approvals ≡ none
    → lookup voter r.rejections ≡ none
    → ballots (apply_vote now voter decision r) ≡ ballots r + 1
unfolding apply_vote
ballots-apply_vote now voter decision r a b =
    ground (arith, length-insert voter now r.approvals, length-insert voter now r.rejections)

-- One vote on a PENDING request of a network with at least one organisation: the count stays
-- right, the status is one of PENDING, APPROVED and REJECTED, and the organisation is registered
-- exactly when the request is APPROVED.
pub evaluate-IsCounted :
    (now voter decision : String) (r : JoinRequest)
    → IsCounted r
    → r.status ≡ status_pending
    → lookup voter r.approvals ≡ none
    → lookup voter r.rejections ≡ none
    → let (r', registers) = evaluate now (apply_vote now voter decision r) in
      IsCounted r'
      × ((r'.status ≡ status_pending)
          ⊎ ((r'.status ≡ status_approved) ⊎ (r'.status ≡ status_rejected)))
      × ((registers ≡ true) ↔ (r'.status ≡ status_approved))
unfolding evaluate apply_vote
evaluate-IsCounted now voter decision r c p a b = elim (Bool-cases (decision == "APPROVE")) [
  | inl yea ↦ ground (
    arith,
    c.quorum,
    c.open_short p,
    c.open_possible p,
    length-insert voter now r.approvals,
    eq_iff r.status status_approved,
    eq_iff r.status status_rejected,
    eq_iff status_pending status_approved,
    eq_iff status_rejected status_approved,
    eq_iff status_pending status_rejected,
    eq_iff status_approved status_pending,
    eq_iff status_rejected status_pending,
    eq_iff status_approved status_rejected,
  )
  | inr nay ↦ ground (
    arith,
    c.quorum,
    c.open_short p,
    c.open_possible p,
    length-insert voter now r.rejections,
    eq_iff r.status status_approved,
    eq_iff r.status status_rejected,
    eq_iff status_pending status_approved,
    eq_iff status_rejected status_approved,
    eq_iff status_pending status_rejected,
    eq_iff status_approved status_pending,
    eq_iff status_rejected status_pending,
    eq_iff status_approved status_rejected,
  )
]

-- With no organisation registered the quorum is one and no vote can be spared: the first approval
-- registers the organisation and still leaves its request REJECTED.
pub evaluate_without_orgs :
    (now voter : String) (r : JoinRequest)
    → r.total_orgs ≡ 0
    → r.required_ack ≡ 1
    → lookup voter r.approvals ≡ none
    → let (r', registers) = evaluate now (apply_vote now voter "APPROVE" r) in
      (registers ≡ true) × (r'.status ≡ status_rejected)
unfolding evaluate apply_vote
evaluate_without_orgs now voter r z q a = ground (arith, length-insert voter now r.approvals)
