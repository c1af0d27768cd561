-- ===== src/Governance/Policy.antt =====
-- The policy of the governance chaincode: who may change it, and what the votes take from it.
use kufi_chain.Prelude.{
  ℕ, ◌*◌, ◌≤◌, ◌↔◌, String, ◌≡◌, ◌⊎◌, true, false, Option, some, arith, eq_iff,
}
use kufi_chain.Prelude.Int.{ℤ, pos, ltb_ℤ, ◌≤ℤ◌, ◌+ℤ◌, ◌*ℤ◌}
use kufi_chain.Prelude.Action.{ok}
use kufi_chain.Governance.Types.{GovernancePolicy}
use kufi_chain.Governance.Time.{Format, is_expired, wrap_64, hour}
use kufi_chain.Governance.Host.{Json, policy_key, World, Tx}
use kufi_chain.Governance.Contract.{
  client_msp, tx_timestamp, get_policy, put_policy, update_policy, cast_vote, count_vote, expire,
  get_join_request, put_vote, put_request, register_org,
}

module _ (j : Json) (f : Format) where
  -- `UpdatePolicy` returns no error exactly for the three policy types, a threshold of 1 to 100 and
  -- an expiry of at least an hour, where the peer makes the write. The caller's MSP is not among the
  -- conditions.
  pub update_policy-ok_iff :
      (t : Tx) (kind : String) (pct hours : ℤ) (w : World j.Bytes)
      → t.put_fails policy_key ≡ false
      → ((update_policy j f t kind pct hours w).0 ≡ ok tt) ↔ (
          ((kind ≡ "MAJORITY") ⊎ ((kind ≡ "UNANIMOUS") ⊎ (kind ≡ "THRESHOLD")))
          × (pos 1 ≤ℤ pct)
          × (pct ≤ℤ pos 100)
          × (pos 1 ≤ℤ hours))
  unfolding update_policy put_policy
  update_policy-ok_iff t kind pct hours w works = (
    λ e. ground (arith, eq_iff kind "MAJORITY", eq_iff kind "UNANIMOUS", eq_iff kind "THRESHOLD"),
    λ c. ground (arith, eq_iff kind "MAJORITY", eq_iff kind "UNANIMOUS", eq_iff kind "THRESHOLD"),
  )

  -- After an accepted `UpdatePolicy` a transaction whose read of the policy succeeds finds the type,
  -- the threshold, the hours and the caller's MSP that it was given.
  pub get_policy-update_policy :
      (t t' : Tx) (kind : String) (pct hours : ℤ) (w w' : World j.Bytes)
      → update_policy j f t kind pct hours w ≡ (ok tt, w')
      → t'.get_fails policy_key ≡ false
      → let p = get_policy j f t' w' in
        (p.policy_type ≡ kind)
        × (p.threshold_pct ≡ pct)
        × (p.expiry_hours ≡ hours)
        × (p.updated_by_msp ≡ client_msp t)
  unfolding update_policy put_policy get_policy
  get_policy-update_policy t t' kind pct hours w w' e reads =
      let p : GovernancePolicy = record {
        doc_type = "governancePolicy";
        policy_id = "default-join-policy";
        policy_type = kind;
        threshold_pct = pct;
        expiry_hours = hours;
        updated_at = tx_timestamp f t;
        updated_by_msp = client_msp t;
      } in
      let law = j.unmarshal-marshal_policy p in
      (ground (arith, law), ground (arith, law), ground (arith, law), ground (arith, law))

  -- Two policies that expire requests alike, and may differ in type and threshold, give every vote
  -- the same result, and leave the same requests, votes, registry and event.
  pub cast_vote_ignores_threshold :
      (t : Tx) (id decision reason : String) (b : Option j.Bytes) (w : World j.Bytes)
      → (get_policy j f t (record w { policy = b })).expiry_hours
        ≡ (get_policy j f t w).expiry_hours
      → let (x, v) = cast_vote j f t id decision reason w in
        let (x', v') = cast_vote j f t id decision reason (record w { policy = b }) in
        (x' ≡ x)
        × (v'.requests ≡ v.requests)
        × (v'.votes ≡ v.votes)
        × (v'.orgs ≡ v.orgs)
        × (v'.event ≡ v.event)
  unfolding cast_vote count_vote expire get_join_request put_vote put_request register_org
  cast_vote_ignores_threshold t id decision reason b w same =
      (ground arith, ground arith, ground arith, ground arith, ground arith)

-- The duration of 2,562,048 to 5,124,095 hours, as an int64 of nanoseconds, is negative.
wrap_64_overflow :
    (hours : ℕ)
    → 2562048 ≤ hours
    → hours ≤ 5124095
    → ltb_ℤ (wrap_64 (pos hours *ℤ hour)) (pos 0) ≡ true
unfolding wrap_64 ◌*ℤ◌
wrap_64_overflow hours low high = ground arith

-- With an expiry of 2,562,048 to 5,124,095 hours, which `UpdatePolicy` accepts, a request whose date
-- can be read is expired at every time from its making on.
pub is_expired_overflow :
    (f : Format) (created_at : String) (created now : ℤ) (hours : ℕ)
    → f.parse created_at ≡ some created
    → created ≤ℤ now
    → 2562048 ≤ hours
    → hours ≤ 5124095
    → is_expired f created_at (pos hours) now ≡ true
unfolding is_expired
is_expired_overflow f created_at created now hours reads later low high = ground arith

-- With an expiry of at most 2,562,047 hours a request whose date can be read is expired exactly when
-- more than the policy's hours have passed since it was made.
pub is_expired_iff :
    (f : Format) (created_at : String) (created now : ℤ) (hours : ℕ)
    → f.parse created_at ≡ some created
    → hours ≤ 2562047
    → (is_expired f created_at (pos hours) now ≡ true)
      ↔ (created +ℤ pos (hours * 3600000000000) +ℤ pos 1 ≤ℤ now)
unfolding is_expired wrap_64 ◌*ℤ◌ ◌+ℤ◌
is_expired_iff f created_at created now hours reads low = (λ e. ground arith, λ e. ground arith)
