-- ===== src/Governance/Registry.antt =====
-- Which votes register an organisation.
use kufi_chain.Prelude.{
  String, ◌≡◌, ◌≢◌, ◌⊎◌, inl, inr, true, false, some, arith, eq_iff, is_some, Bool-cases, ◌∙◌, ap,
  sym,
}
use kufi_chain.Prelude.Dict.{lookup, insert, lookup-insert, lookup-insert_self}
use kufi_chain.Prelude.Action.{ok}
use kufi_chain.Governance.Types.{JoinRequest, OrgEntry, status_approved, status_rejected}
use kufi_chain.Governance.Time.{Format}
use kufi_chain.Governance.Host.{Json, request_key, org_key, World, Tx}
use kufi_chain.Governance.Contract.{client_msp, tx_timestamp, register_org, put_request, cast_vote}
use kufi_chain.Governance.Quorum.{evaluate-IsCounted, evaluate_without_orgs}
use kufi_chain.Governance.Voting.{view, outcome, cast_vote-ok}
use kufi_chain.Governance.Admission.{AllCounted}

module _ (j : Json) (f : Format) where
  view-stored :
      (t : Tx) (id : String) (r : JoinRequest) (w w' : World j.Bytes)
      → t.put_fails (request_key id) ≡ false
      → w'.requests ≡ (put_request j f t id r w).requests
      → view j f w' id ≡ some r
  unfolding put_request
  view-stored t id r w w' works e =
      ground (
        arith,
        lookup-insert_self id (j.marshal_request r) w.requests,
        j.unmarshal-marshal_request r,
      )

  registered :
      (t : Tx) (m n d : String) (w : World j.Bytes)
      → t.key_fails (org_key m) ≡ false
      → t.put_fails (org_key m) ≡ false
      → (register_org j f t m n d w).orgs
        ≡ insert m
            (j.marshal_org
              (record { msp_id = m; name = n; domain = d; registered_at = tx_timestamp f t }))
            w.orgs
  unfolding register_org
  registered t m n d w k p = ground arith

  -- An accepted vote on a ledger whose requests are all counted, where the peer makes every write: if
  -- the request is now APPROVED, the applicant is in the registry, and every other entry is as
  -- before; if not, the registry is unchanged.
  pub cast_vote-registers :
      (t : Tx) (id decision reason m : String) (r r' : JoinRequest) (w w' : World j.Bytes)
      → cast_vote j f t id decision reason w ≡ (ok tt, w')
      → AllCounted j f w
      → view j f w id ≡ some r
      → view j f w' id ≡ some r'
      → t.put_fails (request_key id) ≡ false
      → t.put_fails (org_key r.msp_id) ≡ false
      → t.key_fails (org_key r.msp_id) ≡ false
      → ((r'.status ≡ status_approved)
          × (is_some (lookup r.msp_id w'.orgs) ≡ true)
          × (m ≢ r.msp_id → lookup m w'.orgs ≡ lookup m w.orgs))
        ⊎ ((r'.status ≢ status_approved) × (w'.orgs ≡ w.orgs))
  cast_vote-registers t id decision reason m r r' w w' e all found found' stores enters keyed =
      let (q, fq, pending, early, other, a, b, stored, o) =
        cast_vote-ok j f t id decision reason w w' e in
      let now = tx_timestamp f t in
      let (counted, statuses, exactly) =
        evaluate-IsCounted now (client_msp t) decision q (all id q fq) pending a b in
      let same : r ≡ q = ground arith in
      let out : r' ≡ (outcome j f t decision q).0 =
        ground (arith, view-stored t id (outcome j f t decision q).0 w w' stores stored) in
      elim (Bool-cases (outcome j f t decision q).1) [
        | inl yes_registers ↦ inl (
          ap (λ x. x.status) out ∙ exactly.0 yes_registers,
          ground (
            arith,
            registered t r.msp_id r.org_name r.domain w keyed enters,
            lookup-insert_self r.msp_id (j.marshal_org (entry r)) w.orgs,
          ),
          λ differs. ground (
            arith,
            registered t r.msp_id r.org_name r.domain w keyed enters,
            lookup-insert r.msp_id m (j.marshal_org (entry r)) w.orgs,
            eq_iff r.msp_id m,
          ),
        )
        | inr no_registers ↦ inr (
          (λ approved. cc (exactly.1 (sym (ap (λ x. x.status) out) ∙ approved), no_registers)),
          ground arith,
        )
      ]
    where
      entry : JoinRequest → OrgEntry
      entry x = record {
        msp_id = x.msp_id;
        name = x.org_name;
        domain = x.domain;
        registered_at = tx_timestamp f t;
      }

  -- On a request that was made when no organisation was registered, the first approval puts the
  -- applicant into the registry and marks its request REJECTED.
  pub cast_vote_without_orgs :
      (t : Tx) (id reason : String) (r : JoinRequest) (w w' : World j.Bytes)
      → cast_vote j f t id "APPROVE" reason w ≡ (ok tt, w')
      → view j f w id ≡ some r
      → r.total_orgs ≡ 0
      → r.required_ack ≡ 1
      → t.put_fails (request_key id) ≡ false
      → t.put_fails (org_key r.msp_id) ≡ false
      → t.key_fails (org_key r.msp_id) ≡ false
      → (r' : JoinRequest) × (view j f w' id ≡ some r')
        × (r'.status ≡ status_rejected)
        × (is_some (lookup r.msp_id w'.orgs) ≡ true)
  cast_vote_without_orgs t id reason r w w' e found none_registered one stores enters keyed =
      let (q, fq, pending, early, other, a, b, stored, o) =
        cast_vote-ok j f t id "APPROVE" reason w w' e in
      let same : q ≡ r = ground arith in
      let (registers, rejected) =
        evaluate_without_orgs (tx_timestamp f t) (client_msp t) q
          (ap (λ x. x.total_orgs) same ∙ none_registered) (ap (λ x. x.required_ack) same ∙ one) a in
      let put = registered t r.msp_id r.org_name r.domain w keyed enters in
      (
        (outcome j f t "APPROVE" q).0,
        view-stored t id (outcome j f t "APPROVE" q).0 w w' stores stored,
        rejected,
        ground (
          arith,
          put,
          lookup-insert_self r.msp_id
              (j.marshal_org (record {
                msp_id = r.msp_id;
                name = r.org_name;
                domain = r.domain;
                registered_at = tx_timestamp f t;
              }))
              w.orgs,
        ),
      )
