-- ===== src/Governance/Voting.antt =====
-- What a call of `castVote` finds and writes, on every branch.
use kufi_chain.Prelude.{
  String, ◌≡◌, ◌≢◌, inl, inr, Bool, true, false, Option, none, some, arith, eq_iff, Bool-cases,
  Option-cases, if◌then◌else◌,
}
use kufi_chain.Prelude.Dict.{lookup}
use kufi_chain.Prelude.Action.{ok}
use kufi_chain.Governance.Types.{JoinRequest, VoteRecord, status_pending}
use kufi_chain.Governance.Time.{Format, is_expired}
use kufi_chain.Governance.Host.{Json, World, Tx}
use kufi_chain.Governance.Contract.{
  client_msp, tx_time, tx_timestamp, get_policy, evaluate, apply_vote, register_org, put_request,
  put_vote, get_join_request, expire, count_vote, cast_vote,
}

module _ (j : Json) (f : Format) where
  -- The request under an id, as the contract reads it.
  abbrev pub view : World j.Bytes → String → Option JoinRequest
  view w id = elim (lookup id w.requests) [ none ↦ none | some b ↦ j.unmarshal_request b ]

  put_vote_frame :
      (t : Tx) (v : VoteRecord) (w : World j.Bytes)
      → ((put_vote j f t v w).requests ≡ w.requests) × ((put_vote j f t v w).orgs ≡ w.orgs)
  unfolding put_vote
  put_vote_frame t v w = ground arith

  -- `registerOrg` reads nothing but the registry.
  register_org-orgs :
      (t : Tx) (m n d : String) (w w' : World j.Bytes)
      → w'.orgs ≡ w.orgs
      → (register_org j f t m n d w').orgs ≡ (register_org j f t m n d w).orgs
  unfolding register_org
  register_org-orgs t m n d w w' e = ground arith

  register_org_frame :
      (t : Tx) (m n d : String) (w : World j.Bytes)
      → (register_org j f t m n d w).requests ≡ w.requests
  unfolding register_org
  register_org_frame t m n d w = ground arith

  get_join_request-ok :
      (t : Tx) (id : String) (r : JoinRequest) (w w' : World j.Bytes)
      → get_join_request j f t id w ≡ (ok r, w')
      → (view w id ≡ some r) × (w' ≡ w)
  unfolding get_join_request
  get_join_request-ok t id r w w' e = ground arith

  -- The request that a counted vote leaves, and whether the organisation is registered.
  abbrev pub outcome : Tx → String → JoinRequest → JoinRequest × Bool
  outcome t decision r =
      evaluate (tx_timestamp f t) (apply_vote (tx_timestamp f t) (client_msp t) decision r)

  abbrev vote_record : Tx → String → String → String → VoteRecord
  vote_record t id decision reason = record {
    doc_type = "voteRecord";
    request_id = id;
    voter_msp = client_msp t;
    decision = decision;
    reason = reason;
    timestamp = tx_timestamp f t;
  }

  count_vote-ok :
      (t : Tx) (id decision reason : String) (r : JoinRequest) (w w' : World j.Bytes)
      → count_vote j f t id decision reason r w ≡ (ok tt, w')
      → (client_msp t ≢ r.msp_id)
        × (lookup (client_msp t) r.approvals ≡ none)
        × (lookup (client_msp t) r.rejections ≡ none)
        × (w'.requests ≡ (put_request j f t id (outcome t decision r).0 w).requests)
        × (w'.orgs
            ≡ (if (outcome t decision r).1
                then register_org j f t r.msp_id r.org_name r.domain w
                else w).orgs)
  unfolding count_vote put_request
  count_vote-ok t id decision reason r w w' e =
      let v = vote_record t id decision reason in
      let w₁ = put_vote j f t v w in
      ground (
        arith,
        eq_iff (client_msp t) r.msp_id,
        put_vote_frame t v w,
        register_org_frame t r.msp_id r.org_name r.domain w₁,
        register_org-orgs t r.msp_id r.org_name r.domain w w₁,
      )

  -- A call of `castVote` that returns no error found a PENDING request that has not expired and a
  -- caller that is neither the applicant nor a voter on it. It tries to write the outcome of the vote
  -- under the request's id, and the applicant into the registry where the outcome says so; the error
  -- of a write that the peer refuses is dropped.
  pub cast_vote-ok :
      (t : Tx) (id decision reason : String) (w w' : World j.Bytes)
      → cast_vote j f t id decision reason w ≡ (ok tt, w')
      → (r : JoinRequest) × (view w id ≡ some r)
        × (r.status ≡ status_pending)
        × (is_expired f r.created_at (get_policy j f t w).expiry_hours (tx_time t) ≡ false)
        × (client_msp t ≢ r.msp_id)
        × (lookup (client_msp t) r.approvals ≡ none)
        × (lookup (client_msp t) r.rejections ≡ none)
        × (w'.requests ≡ (put_request j f t id (outcome t decision r).0 w).requests)
        × (w'.orgs
            ≡ (if (outcome t decision r).1
                then register_org j f t r.msp_id r.org_name r.domain w
                else w).orgs)
  unfolding cast_vote expire get_join_request
  cast_vote-ok t id decision reason w w' e = elim (Option-cases (view w id)) [
    | inl no_request ↦ absurd (ground arith)
    | inr (r, found) ↦
        let counted = count_vote-ok t id decision reason r w w' in
        let expires = is_expired f r.created_at (get_policy j f t w).expiry_hours (tx_time t) in
        elim (Bool-cases expires) [
          | inl late ↦ absurd (ground arith)
          | inr early ↦
              let made : count_vote j f t id decision reason r w ≡ (ok tt, w') = ground arith in
              let (a, b, c, d, o) = counted made in
              (r, found, ground (arith, eq_iff r.status status_pending), early, a, b, c, d, o)
        ]
  ]

  -- A vote on an expired request returns an error, whoever casts it and however.
  pub cast_vote-expired :
      (t : Tx) (id decision reason : String) (r : JoinRequest) (w : World j.Bytes)
      → view w id ≡ some r
      → is_expired f r.created_at (get_policy j f t w).expiry_hours (tx_time t) ≡ true
      → (cast_vote j f t id decision reason w).0 ≢ ok tt
  unfolding cast_vote expire get_join_request
  cast_vote-expired t id decision reason r w found late = ground arith
