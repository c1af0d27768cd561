-- ===== src/Governance/Contract.antt =====
-- The functions of `GovernanceContract`.
use kufi_chain.Prelude.{
  ℕ, ◌+◌, ◌/◌, String, Bool, false, not, ◌&&◌, ◌||◌, Option, none, some, List, [], ◌∷◌,
  if◌then◌else◌, is_some, ◌==◌, leb, ltb, length, any,
}
use kufi_chain.Prelude.Int.{ℤ, pos, leb_ℤ, ltb_ℤ, sub_ℕ}
use kufi_chain.Prelude.Dict.{Dict, lookup, insert}
use kufi_chain.Prelude.Action.{Action, pure, raise, gets, or_raise, raise_if, modify, ◌>>=◌, ◌>>◌}
use kufi_chain.Governance.Types.{
  JoinRequest, VoteRecord, GovernancePolicy, OrgEntry, status_pending, status_approved,
  status_rejected, status_expired, default_policy_id, default_policy_type,
}
use kufi_chain.Governance.Time.{Format, is_expired}
use kufi_chain.Governance.Host.{Json, policy_key, request_key, vote_key, org_key, World, Tx}

pub data Error : Type 0 where
  missing_fields invalid_port query_failed pending_exists create_key_failed save_failed : Error
  request_not_found unmarshal_failed expired own_request already_voted : Error
  invalid_policy_type invalid_threshold invalid_expiry check_policy_failed orgs_json_failed : Error
  no_longer_pending : String → Error

-- `clientMSP`, whose error is dropped
unfoldable pub client_msp : Tx → String
client_msp t = elim t.client_msp [ none ↦ "" | some m ↦ m ]

-- `txTime`
unfoldable pub tx_time : Tx → ℤ
tx_time t = elim t.timestamp [ none ↦ t.clock | some ts ↦ ts ]

-- `txTimestamp`
unfoldable pub tx_timestamp : Format → Tx → String
unfolding tx_time
tx_timestamp f t = f.format (tx_time t)

abbrev pub Call : Type 0 → Type 0 → Type 0
Call Bytes A = Action (World Bytes) Error A

-- The outcome that `castVote` works out once the vote has been counted, and whether the
-- organisation is registered.
unfoldable pub evaluate : String → JoinRequest → JoinRequest × Bool
evaluate now r =
    let approved = leb r.required_ack (length r.approvals) in
    let r₁ = if approved then record r { status = status_approved; resolved_at = now } else r in
    let max_possible_approvals = sub_ℕ r₁.total_orgs (length r₁.rejections) in
    let r₂ =
      if ltb_ℤ max_possible_approvals (pos r₁.required_ack)
      then record r₁ { status = status_rejected; resolved_at = now }
      else r₁ in
    (r₂, approved)

-- The vote as it is entered in the request.
unfoldable pub apply_vote : String → String → String → JoinRequest → JoinRequest
apply_vote now voter decision r =
    if decision == "APPROVE"
    then record r { approvals = insert voter now r.approvals; updated_at = now }
    else record r { rejections = insert voter now r.rejections; updated_at = now }

unfoldable pub event_name : String → String
event_name status =
    if status == status_approved
    then "JoinApproved"
    else if status == status_rejected
    then "JoinRejected"
    else "JoinVoteCast"

-- The default that `getPolicy` falls back on, and `InitLedger` stores with its other fields.
abbrev pub default_policy : GovernancePolicy
default_policy = record {
  doc_type = "";
  policy_id = "";
  policy_type = default_policy_type;
  threshold_pct = pos 51;
  expiry_hours = pos 168;
  updated_at = "";
  updated_by_msp = "";
}

-- The quorum of `RequestJoin`: a majority of the organisations.
unfoldable pub required_ack : ℕ → ℕ
required_ack total_orgs = let n = total_orgs / 2 + 1 in if ltb n 1 then 1 else n

module _ (j : Json) (f : Format) where
  -- `getPolicy`
  unfoldable pub get_policy : Tx → World j.Bytes → GovernancePolicy
  get_policy t w =
      if t.get_fails policy_key
      then default_policy
      else elim w.policy [ none ↦ default_policy | some b ↦ j.unmarshal_policy b ]

  unfoldable pub put_policy : Tx → GovernancePolicy → Call j.Bytes (Unit {0})
  put_policy t p = do
    raise_if (t.put_fails policy_key) save_failed
    modify (λ w. record w { policy = some (j.marshal_policy p) })

  -- `InitLedger`
  unfoldable pub init_ledger : Tx → Call j.Bytes (Unit {0})
  unfolding put_policy tx_timestamp client_msp
  init_ledger t = do
    raise_if (t.get_fails policy_key) check_policy_failed
    existing ← gets (λ w. w.policy)
    if is_some existing
        then pure tt
        else put_policy t (record default_policy {
          doc_type = "governancePolicy";
          policy_id = default_policy_id;
          updated_at = tx_timestamp f t;
          updated_by_msp = client_msp t;
        })

  -- `UpdatePolicy`
  unfoldable pub update_policy : Tx → String → ℤ → ℤ → Call j.Bytes (Unit {0})
  unfolding put_policy tx_timestamp client_msp
  update_policy t policy_type threshold_pct expiry_hours = do
    raise_if
        (not (policy_type == "MAJORITY")
          && not (policy_type == "UNANIMOUS")
          && not (policy_type == "THRESHOLD"))
        invalid_policy_type
    raise_if (ltb_ℤ threshold_pct (pos 1) || ltb_ℤ (pos 100) threshold_pct) invalid_threshold
    raise_if (ltb_ℤ expiry_hours (pos 1)) invalid_expiry
    put_policy t (record {
      doc_type = "governancePolicy";
      policy_id = default_policy_id;
      policy_type = policy_type;
      threshold_pct = threshold_pct;
      expiry_hours = expiry_hours;
      updated_at = tx_timestamp f t;
      updated_by_msp = client_msp t;
    })

  -- `registerOrg`, which drops every error
  unfoldable pub register_org : Tx → String → String → String → World j.Bytes → World j.Bytes
  unfolding tx_timestamp
  register_org t msp_id name domain w =
      if t.key_fails (org_key msp_id) || t.put_fails (org_key msp_id) then w else record w {
        orgs =
            insert msp_id
              (j.marshal_org (record {
                msp_id = msp_id;
                name = name;
                domain = domain;
                registered_at = tx_timestamp f t;
              }))
              w.orgs;
      }

  -- `countExistingOrgs`
  unfoldable pub count_existing_orgs : Tx → World j.Bytes → ℕ
  count_existing_orgs t w = if t.orgs_range_fails then 0 else length w.orgs

  unfoldable pub register_all : Tx → List OrgEntry → World j.Bytes → World j.Bytes
  register_all t [] w = w
  register_all t (o ∷ os) w = register_all t os (register_org t o.msp_id o.name o.domain w)

  -- `RegisterExistingOrgs`
  unfoldable pub register_existing_orgs : Tx → String → Call j.Bytes (Unit {0})
  register_existing_orgs t orgs_json = do
    orgs ← or_raise (j.unmarshal_orgs orgs_json) orgs_json_failed
    modify (register_all t orgs)

  -- The test of the loop in `RequestJoin`.
  unfoldable pub is_pending_for : String → j.Bytes → Bool
  is_pending_for msp_id b = elim (j.unmarshal_request b) [
    | none ↦ false
    | some r ↦ r.msp_id == msp_id && r.status == status_pending
  ]

  -- `RequestJoin`
  unfoldable pub request_join :
      Tx → String → String → String → String → ℤ → String → Call j.Bytes (Unit {0})
  unfolding is_pending_for count_existing_orgs required_ack tx_timestamp client_msp
  request_join t org_name msp_id domain anchor_host anchor_port description = do
    raise_if (org_name == "" || msp_id == "" || domain == "") missing_fields
    raise_if (leb_ℤ anchor_port (pos 0) || ltb_ℤ (pos 65535) anchor_port) invalid_port
    raise_if t.requests_range_fails query_failed
    pending ← gets (λ w. any (λ e. is_pending_for msp_id e.1) w.requests)
    raise_if pending pending_exists
    total_orgs ← gets (count_existing_orgs t)
    let now = tx_timestamp f t
    let req : JoinRequest = record {
      doc_type = "joinRequest";
      request_id = t.tx_id;
      org_name = org_name;
      msp_id = msp_id;
      domain = domain;
      description = description;
      anchor_host = anchor_host;
      anchor_port = anchor_port;
      status = status_pending;
      approvals = [];
      rejections = [];
      required_ack = required_ack total_orgs;
      total_orgs = total_orgs;
      created_at = now;
      updated_at = now;
      resolved_at = "";
      creator_msp = client_msp t;
    }
    raise_if (t.key_fails (request_key t.tx_id)) create_key_failed
    raise_if (t.put_fails (request_key t.tx_id)) save_failed
    modify (λ w. record w {
      requests = insert t.tx_id (j.marshal_request req) w.requests;
      event = some ("JoinRequested", j.marshal_request req);
    })

  -- A `PutState` of a request whose error is dropped.
  unfoldable pub put_request : Tx → String → JoinRequest → World j.Bytes → World j.Bytes
  put_request t id r w =
      if t.put_fails (request_key id)
      then w
      else record w { requests = insert id (j.marshal_request r) w.requests }

  abbrev pub or_empty : Option (Dict j.Bytes) → Dict j.Bytes
  or_empty none = []
  or_empty (some m) = m

  unfoldable pub put_vote : Tx → VoteRecord → World j.Bytes → World j.Bytes
  put_vote t v w =
      let k = vote_key v.request_id v.voter_msp in
      if t.key_fails k || t.put_fails k then w else record w {
        votes =
            insert v.request_id
              (insert v.voter_msp (j.marshal_vote v) (or_empty (lookup v.request_id w.votes)))
              w.votes;
      }

  -- `GetJoinRequest`, with which `castVote` begins too.
  unfoldable pub get_join_request : Tx → String → Call j.Bytes JoinRequest
  get_join_request t id = do
    raise_if (t.key_fails (request_key id)) create_key_failed
    found ← gets (λ w. if t.get_fails (request_key id) then none else lookup id w.requests)
    bytes ← or_raise found request_not_found
    or_raise (j.unmarshal_request bytes) unmarshal_failed

  -- The branch of `castVote` on an expired request: it writes, and then returns an error.
  unfoldable pub expire : Tx → String → JoinRequest → Call j.Bytes (Unit {0})
  expire t id r = do
    let now = tx_timestamp f t
    modify (
        put_request t id
          (record r { status = status_expired; updated_at = now; resolved_at = now }))
    raise expired

  -- The rest of `castVote`: the checks of the voter, the record of the vote, and the outcome.
  unfoldable pub count_vote : Tx → String → String → String → JoinRequest → Call j.Bytes (Unit {0})
  count_vote t id decision reason r = do
    let voter = client_msp t
    raise_if (voter == r.msp_id) own_request
    raise_if (is_some (lookup voter r.approvals)) already_voted
    raise_if (is_some (lookup voter r.rejections)) already_voted
    let now = tx_timestamp f t
    modify (
        put_vote t (record {
          doc_type = "voteRecord";
          request_id = id;
          voter_msp = voter;
          decision = decision;
          reason = reason;
          timestamp = now;
        }))
    let (r', registers) = evaluate now (apply_vote now voter decision r)
    modify (λ w. if registers then register_org t r.msp_id r.org_name r.domain w else w)
    modify (put_request t id r')
    modify (λ w. record w { event = some (event_name r'.status, j.marshal_request r') })

  -- `castVote`
  unfoldable pub cast_vote : Tx → String → String → String → Call j.Bytes (Unit {0})
  cast_vote t id decision reason = do
    r ← get_join_request t id
    raise_if (not (r.status == status_pending)) (no_longer_pending r.status)
    policy ← gets (get_policy t)
    if is_expired f r.created_at policy.expiry_hours (tx_time t)
        then expire t id r
        else count_vote t id decision reason r

  -- `ApproveJoin` and `RejectJoin`
  unfoldable pub approve_join : Tx → String → String → Call j.Bytes (Unit {0})
  approve_join t id reason = cast_vote t id "APPROVE" reason

  unfoldable pub reject_join : Tx → String → String → Call j.Bytes (Unit {0})
  reject_join t id reason = cast_vote t id "REJECT" reason
