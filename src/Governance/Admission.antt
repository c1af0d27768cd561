-- ===== src/Governance/Admission.antt =====
-- Invariants of the stored join requests over `RequestJoin` and `castVote`.
use kufi_chain.Prelude.{
  length, ◌≤◌, String, ◌≡◌, refl, ◌≢◌, ◌⊎◌, inl, inr, true, false, some, [], ◌∷◌, arith, eq_iff,
  ◌==◌, any, Bool-cases, Option-cases, if◌then◌else◌, ◌∙◌, sym, subst,
}
use kufi_chain.Prelude.Int.{ℤ}
use kufi_chain.Prelude.Dict.{Dict, lookup, insert, lookup-insert}
use kufi_chain.Prelude.Action.{ok}
use kufi_chain.Governance.Types.{JoinRequest, status_pending, status_approved, status_rejected}
use kufi_chain.Governance.Time.{Format, is_expired}
use kufi_chain.Governance.Host.{Json, request_key, World, Tx}
use kufi_chain.Governance.Contract.{
  client_msp, tx_time, tx_timestamp, get_policy, evaluate, apply_vote, put_request, cast_vote,
  request_join, is_pending_for, count_existing_orgs, required_ack,
}
use kufi_chain.Governance.Quorum.{IsCounted, evaluate-IsCounted, required_ack_majority}
use kufi_chain.Governance.Voting.{view, outcome, cast_vote-ok, cast_vote-expired}

-- An outcome concerns the same applicant.
pub outcome-msp_id :
    (now voter decision : String) (r : JoinRequest)
    → (evaluate now (apply_vote now voter decision r)).0.msp_id ≡ r.msp_id
unfolding evaluate apply_vote
outcome-msp_id now voter decision r = ground arith

module _ (j : Json) (f : Format) where
  abbrev pub AllCounted : World j.Bytes → Type 0
  AllCounted w = (id : String) (r : JoinRequest) → view j f w id ≡ some r → IsCounted r

  -- No two pending requests are for the same MSP.
  abbrev pub OnePending : World j.Bytes → Type 0
  OnePending w =
      (id id' : String) (r r' : JoinRequest)
      → view j f w id ≡ some r
      → view j f w id' ≡ some r'
      → r.status ≡ status_pending
      → r'.status ≡ status_pending
      → r.msp_id ≡ r'.msp_id
      → id ≡ id'

  pub view-put :
      (id x : String) (r : JoinRequest) (w w' : World j.Bytes)
      → w'.requests ≡ insert id (j.marshal_request r) w.requests
      → view j f w' x ≡ (if id == x then some r else view j f w x)
  view-put id x r w w' e =
      ground
        (arith, lookup-insert id x (j.marshal_request r) w.requests, j.unmarshal-marshal_request r)

  view-put_request :
      (t : Tx) (id x : String) (r : JoinRequest) (w w' : World j.Bytes)
      → w'.requests ≡ (put_request j f t id r w).requests
      → (view j f w' x ≡ view j f w x)
        ⊎ (view j f w' x ≡ (if id == x then some r else view j f w x))
  unfolding put_request
  view-put_request t id x r w w' e = elim (Bool-cases (t.put_fails (request_key id))) [
    | inl fails ↦ inl (ground arith)
    | inr works ↦ inr (view-put id x r w w' (ground arith))
  ]

  -- A request that is seen after a write is the old one or the one written.
  pub seen :
      (t : Tx) (id x : String) (r q : JoinRequest) (w w' : World j.Bytes)
      → w'.requests ≡ (put_request j f t id r w).requests
      → view j f w' x ≡ some q
      → (view j f w x ≡ some q) ⊎ ((id ≡ x) × (q ≡ r))
  seen t id x r q w w' e s = elim (view-put_request t id x r w w' e) [
    | inl same ↦ inl (sym same ∙ s)
    | inr written ↦ elim (Bool-cases (id == x)) [
      | inl here ↦ inr ((eq_iff id x).0 here, ground arith)
      | inr there ↦ inl (ground arith)
    ]
  ]

  -- Every vote that is accepted keeps every stored request counted: the quorum is a majority of the
  -- organisations, a PENDING request can still be approved and has not been, an APPROVED one has the
  -- quorum, and a REJECTED one cannot reach it.
  pub cast_vote-AllCounted :
      (t : Tx) (id decision reason : String) (w w' : World j.Bytes)
      → cast_vote j f t id decision reason w ≡ (ok tt, w')
      → AllCounted w
      → AllCounted w'
  cast_vote-AllCounted t id decision reason w w' e h x q s =
      let (r, found, pending, early, other, a, b, stored, o) =
        cast_vote-ok j f t id decision reason w w' e in
      let now = tx_timestamp f t in
      elim (seen t id x (outcome j f t decision r).0 q w w' stored s) [
        | inl old ↦ h x q old
        | inr (same, new) ↦
            subst IsCounted (sym new)
              (evaluate-IsCounted now (client_msp t) decision r (h id r found) pending a b).0
      ]

  any_pending :
      (m k : String) (r : JoinRequest) (es : Dict j.Bytes) (b : j.Bytes)
      → lookup k es ≡ some b
      → j.unmarshal_request b ≡ some r
      → r.msp_id ≡ m
      → r.status ≡ status_pending
      → any (λ e. is_pending_for j f m e.1) es ≡ true
  unfolding lookup is_pending_for
  any_pending m k r [] b found reads mine pending = cc
  any_pending m k r ((i, v) ∷ es) b found reads mine pending = elim (Bool-cases (i == k)) [
    | inl here ↦ ground (arith, eq_iff r.msp_id m, eq_iff r.status status_pending)
    | inr there ↦ ground (arith, any_pending m k r es b)
  ]

  -- The request that `RequestJoin` makes.
  abbrev pub new_request :
      Tx → String → String → String → String → ℤ → String → World j.Bytes → JoinRequest
  new_request t org_name msp_id domain anchor_host anchor_port description w = record {
    doc_type = "joinRequest";
    request_id = t.tx_id;
    org_name = org_name;
    msp_id = msp_id;
    domain = domain;
    description = description;
    anchor_host = anchor_host;
    anchor_port = anchor_port;
    status = status_pending;
    approvals = [];
    rejections = [];
    required_ack = required_ack (count_existing_orgs j f t w);
    total_orgs = count_existing_orgs j f t w;
    created_at = tx_timestamp f t;
    updated_at = tx_timestamp f t;
    resolved_at = "";
    creator_msp = client_msp t;
  }

  -- A call of `RequestJoin` that returns no error found no pending request of the same MSP, and
  -- stores a new one under the transaction's id.
  pub request_join-ok :
      (t : Tx) (n m d h : String) (p : ℤ) (desc : String) (w w' : World j.Bytes)
      → request_join j f t n m d h p desc w ≡ (ok tt, w')
      → (any (λ e. is_pending_for j f m e.1) w.requests ≡ false)
        × (w'.requests
            ≡ insert t.tx_id (j.marshal_request (new_request t n m d h p desc w)) w.requests)
  unfolding request_join
  request_join-ok t n m d h p desc w w' e = (ground arith, ground arith)

  none_pending :
      (m : String) (w : World j.Bytes)
      → any (λ e. is_pending_for j f m e.1) w.requests ≡ false
      → (id : String) (r : JoinRequest) → view j f w id ≡ some r
      → r.msp_id ≡ m
      → r.status ≢ status_pending
  none_pending m w clear id r s mine pending = elim (Option-cases (lookup id w.requests)) [
    | inl absent ↦ ground arith
    | inr (b, found) ↦ ground (arith, any_pending m id r w.requests b found)
  ]

  -- A call of `RequestJoin` that returns no error keeps at most one pending request for each MSP.
  pub request_join-OnePending :
      (t : Tx) (n m d h : String) (p : ℤ) (desc : String) (w w' : World j.Bytes)
      → request_join j f t n m d h p desc w ≡ (ok tt, w')
      → OnePending w
      → OnePending w'
  request_join-OnePending t n m d h p desc w w' e one id id' r r' s s' pe pe' same =
      let new = new_request t n m d h p desc w in
      let (clear, stored) = request_join-ok t n m d h p desc w w' e in
      let at = λ (x : String). view-put t.tx_id x new w w' stored in
      let free = none_pending m w clear in
      elim (Bool-cases (t.tx_id == id)) [
        | inl a ↦ elim (Bool-cases (t.tx_id == id')) [
          | inl b ↦ sym ((eq_iff t.tx_id id).0 a) ∙ (eq_iff t.tx_id id').0 b
          | inr b ↦ absurd (free id' r' (ground (arith, at id')) (ground (arith, at id)) pe')
        ]
        | inr a ↦ elim (Bool-cases (t.tx_id == id')) [
          | inl b ↦ absurd (free id r (ground (arith, at id)) (ground (arith, at id')) pe)
          | inr b ↦ one id id' r r' (ground (arith, at id)) (ground (arith, at id')) pe pe' same
        ]
      ]

  pub request_join-AllCounted :
      (t : Tx) (n m d h : String) (p : ℤ) (desc : String) (w w' : World j.Bytes)
      → request_join j f t n m d h p desc w ≡ (ok tt, w')
      → t.orgs_range_fails ≡ false
      → 1 ≤ length w.orgs
      → AllCounted w
      → AllCounted w'
  unfolding required_ack count_existing_orgs
  request_join-AllCounted t n m d h p desc w w' e counts some_org all x q s =
      let new = new_request t n m d h p desc w in
      let (clear, stored) = request_join-ok t n m d h p desc w w' e in
      let fresh : IsCounted new = ground (
        arith,
        required_ack_majority (count_existing_orgs j f t w),
        eq_iff status_pending status_approved,
        eq_iff status_pending status_rejected,
      ) in
      elim (Bool-cases (t.tx_id == x)) [
        | inl here ↦
            let q_new : q ≡ new = ground (arith, view-put t.tx_id x new w w' stored) in
            subst IsCounted (sym q_new) fresh
        | inr there ↦ all x q (ground (arith, view-put t.tx_id x new w w' stored))
      ]

  -- In a transaction at whose time a stored PENDING request has expired, neither a vote on it nor a
  -- `RequestJoin` for its MSP returns without an error.
  pub expired_request_blocks :
      (t : Tx) (id decision reason n d h : String) (p : ℤ) (desc : String) (r : JoinRequest)
      (w : World j.Bytes)
      → view j f w id ≡ some r
      → r.status ≡ status_pending
      → is_expired f r.created_at (get_policy j f t w).expiry_hours (tx_time t) ≡ true
      → ((cast_vote j f t id decision reason w).0 ≢ ok tt)
        × ((request_join j f t n r.msp_id d h p desc w).0 ≢ ok tt)
  expired_request_blocks t id decision reason n d h p desc r w found pending late = (
    cast_vote-expired j f t id decision reason r w found late,
    λ e.
        let w' = (request_join j f t n r.msp_id d h p desc w).1 in
        let (clear, stored) = request_join-ok t n r.msp_id d h p desc w w' (λ i. (e i, w')) in
        none_pending r.msp_id w clear id r found refl pending,
  )
