-- ===== src/Governance/Chain.antt =====
-- Transactions on the governance chaincode in sequence. A peer endorses, and so commits, only a
-- transaction whose function returned no error.
use kufi_chain.Prelude.{
  String, ◌≡◌, refl, ◌⊎◌, inl, inr, some, List, [], ◌∷◌, arith, eq_iff, ◌==◌, Bool-cases,
  Option-cases, ◌∙◌, sym, ap,
}
use kufi_chain.Prelude.Int.{ℤ}
use kufi_chain.Prelude.Dict.{lookup}
use kufi_chain.Prelude.Action.{ok}
use kufi_chain.Governance.Types.{
  JoinRequest, OrgEntry, status_pending, status_approved, status_rejected,
}
use kufi_chain.Governance.Time.{Format}
use kufi_chain.Governance.Host.{Json, World, Tx}
use kufi_chain.Governance.Contract.{
  Call, client_msp, tx_timestamp, evaluate, apply_vote, init_ledger, update_policy, put_policy,
  register_existing_orgs, register_all, register_org, request_join, approve_join, reject_join,
  cast_vote,
}
use kufi_chain.Governance.Voting.{view, outcome, cast_vote-ok}
use kufi_chain.Governance.Admission.{
  OnePending, outcome-msp_id, seen, view-put, request_join-ok, request_join-OnePending, new_request,
}

-- A call of a function that writes, with its arguments.
pub data Op : Type 0 where
  init_op : Op
  policy_op : String → ℤ → ℤ → Op
  register_op : String → Op
  join_op : String → String → String → String → ℤ → String → Op
  approve_op reject_op : String → String → Op

-- The only statuses that a committed transaction gives a request.
abbrev pub IsLive : JoinRequest → Type 0
IsLive r =
    (r.status ≡ status_pending) ⊎ ((r.status ≡ status_approved) ⊎ (r.status ≡ status_rejected))

outcome-IsLive :
    (now voter decision : String) (r : JoinRequest)
    → IsLive r
    → IsLive (evaluate now (apply_vote now voter decision r)).0
unfolding evaluate apply_vote
outcome-IsLive now voter decision r live = ground arith

-- A vote that leaves the request pending found it so.
outcome-pending :
    (now voter decision : String) (r : JoinRequest)
    → (evaluate now (apply_vote now voter decision r)).0.status ≡ status_pending
    → r.status ≡ status_pending
unfolding evaluate apply_vote
outcome-pending now voter decision r e =
    ground (arith, eq_iff status_approved status_pending, eq_iff status_rejected status_pending)

module _ (j : Json) (f : Format) where
  unfoldable pub run_op : Op → Tx → Call j.Bytes (Unit {0})
  run_op init_op t = init_ledger j f t
  run_op (policy_op kind pct hours) t = update_policy j f t kind pct hours
  run_op (register_op orgs_json) t = register_existing_orgs j f t orgs_json
  run_op (join_op n m d h p desc) t = request_join j f t n m d h p desc
  run_op (approve_op id reason) t = approve_join j f t id reason
  run_op (reject_op id reason) t = reject_join j f t id reason

  pub data Reach (w : World j.Bytes) : World j.Bytes → Type 0 where
    here : Reach w w
    next :
        {u v : World j.Bytes} (op : Op) (t : Tx)
        → Reach w u
        → run_op op t u ≡ (ok tt, v)
        → Reach w v

  register_all-requests :
      (t : Tx) (os : List OrgEntry) (w : World j.Bytes)
      → (register_all j f t os w).requests ≡ w.requests
  unfolding register_all register_org
  register_all-requests t [] w = refl
  register_all-requests t (o ∷ os) w =
      ground (arith, register_all-requests t os (register_org j f t o.msp_id o.name o.domain w))

  -- What the request operations keep, the others keep too, as they do not write requests.
  abbrev pub Holds : World j.Bytes → Type 0
  Holds w = OnePending j f w × ((id : String) (r : JoinRequest) → view j f w id ≡ some r → IsLive r)

  same_requests :
      (w w' : World j.Bytes)
      → w'.requests ≡ w.requests
      → (id : String) → view j f w' id ≡ view j f w id
  same_requests w w' e id = ground arith

  Holds-same : (w w' : World j.Bytes) → w'.requests ≡ w.requests → Holds w → Holds w'
  Holds-same w w' e (one, live) =
      let s = same_requests w w' e in
      (
        λ id id' r r' a b. one id id' r r' (sym (s id) ∙ a) (sym (s id') ∙ b),
        λ id r a. live id r (sym (s id) ∙ a),
      )

  vote-Holds :
      (t : Tx) (id decision reason : String) (w w' : World j.Bytes)
      → cast_vote j f t id decision reason w ≡ (ok tt, w')
      → Holds w
      → Holds w'
  vote-Holds t id decision reason w w' e (one, live) =
      let (r, found, pending, early, other, a, b, stored, o) =
        cast_vote-ok j f t id decision reason w w' e in
      let now = tx_timestamp f t in
      let new = (outcome j f t decision r).0 in
      let back : (x : String) (q : JoinRequest)
          → view j f w' x ≡ some q
          → q.status ≡ status_pending
          → (p : JoinRequest) × (view j f w x ≡ some p)
            × (p.status ≡ status_pending)
            × (p.msp_id ≡ q.msp_id) =
        λ x q s pq. elim (seen j f t id x new q w w' stored s) [
          | inl old ↦ (q, old, pq, refl)
          | inr (same, is_new) ↦ (
            r,
            ground arith,
            pending,
            sym (outcome-msp_id now (client_msp t) decision r) ∙ ap (λ y. y.msp_id) (sym is_new),
          )
        ] in
      (
        λ x y q q' s s' pq pq' same.
            let (p, vp, pp, mp) = back x q s pq in
            let (p', vp', pp', mp') = back y q' s' pq' in
            one x y p p' vp vp' pp pp' (mp ∙ same ∙ sym mp'),
        λ x q s. elim (seen j f t id x new q w w' stored s) [
          | inl old ↦ live x q old
          | inr (same, is_new) ↦
              let l = outcome-IsLive now (client_msp t) decision r (inl pending) in ground arith
        ],
      )

  join-Holds :
      (t : Tx) (n m d h : String) (p : ℤ) (desc : String) (w w' : World j.Bytes)
      → request_join j f t n m d h p desc w ≡ (ok tt, w')
      → Holds w
      → Holds w'
  join-Holds t n m d h p desc w w' e (one, live) = (
    request_join-OnePending j f t n m d h p desc w w' e one,
    λ x q s.
        let new = new_request j f t n m d h p desc w in
        let (clear, stored) = request_join-ok j f t n m d h p desc w w' e in
        elim (Bool-cases (t.tx_id == x)) [
          | inl is_here ↦
              let q_new : q ≡ new = ground (arith, view-put j f t.tx_id x new w w' stored) in
              inl (ap (λ y. y.status) q_new)
          | inr there ↦ live x q (ground (arith, view-put j f t.tx_id x new w w' stored))
        ],
  )

  run_op-Holds :
      (op : Op) (t : Tx) (w w' : World j.Bytes) → run_op op t w ≡ (ok tt, w') → Holds w → Holds w'
  unfolding run_op init_ledger update_policy put_policy register_existing_orgs approve_join
      reject_join
  run_op-Holds init_op t w w' e h = Holds-same w w' (ground arith) h
  run_op-Holds (policy_op kind pct hours) t w w' e h = Holds-same w w' (ground arith) h
  run_op-Holds (register_op text) t w w' e h = elim (Option-cases (j.unmarshal_orgs text)) [
    | inl bad ↦ absurd (ground arith)
    | inr (os, parsed) ↦ Holds-same w w' (ground (arith, register_all-requests t os w)) h
  ]
  run_op-Holds (join_op n m d a p desc) t w w' e h = join-Holds t n m d a p desc w w' e h
  run_op-Holds (approve_op id reason) t w w' e h = vote-Holds t id "APPROVE" reason w w' e h
  run_op-Holds (reject_op id reason) t w w' e h = vote-Holds t id "REJECT" reason w w' e h

  -- On any ledger that committed transactions reach from one without requests, no MSP has two
  -- pending requests, and every request is PENDING, APPROVED or REJECTED: the status EXPIRED that
  -- `castVote` writes is never committed.
  pub Reach-Holds : (w w' : World j.Bytes) → w.requests ≡ [] → Reach w w' → Holds w'
  unfolding lookup
  Reach-Holds w w' empty here =
      (λ id id' r r' a. absurd (ground arith), λ id r a. absurd (ground arith))
  Reach-Holds w w' empty (next {u} op t r e) = run_op-Holds op t u w' e (Reach-Holds w u empty r)
