-- ===== src/Governance/Types.antt =====
-- Records and constants of chaincode/governance/governance.go.
use kufi_chain.Prelude.{ℕ, String}
use kufi_chain.Prelude.Int.{ℤ}
use kufi_chain.Prelude.Dict.{Dict}

-- `RequiredAck` and `TotalOrgs` are counts and never negative.
pub record JoinRequest : Type 0 where
  pub doc_type : String
  pub request_id : String
  pub org_name : String
  pub msp_id : String
  pub domain : String
  pub description : String
  pub anchor_host : String
  pub anchor_port : ℤ
  pub status : String
  pub approvals : Dict String
  pub rejections : Dict String
  pub required_ack : ℕ
  pub total_orgs : ℕ
  pub created_at : String
  pub updated_at : String
  pub resolved_at : String
  pub creator_msp : String

pub record VoteRecord : Type 0 where
  pub doc_type : String
  pub request_id : String
  pub voter_msp : String
  pub decision : String
  pub reason : String
  pub timestamp : String

pub record GovernancePolicy : Type 0 where
  pub doc_type : String
  pub policy_id : String
  pub policy_type : String
  pub threshold_pct : ℤ
  pub expiry_hours : ℤ
  pub updated_at : String
  pub updated_by_msp : String

-- The entry that `registerOrg` stores, and with no date the `OrgEntry` of `RegisterExistingOrgs`.
pub record OrgEntry : Type 0 where
  pub msp_id : String
  pub name : String
  pub domain : String
  pub registered_at : String

abbrev pub status_pending : String
status_pending = "PENDING"

abbrev pub status_approved : String
status_approved = "APPROVED"

abbrev pub status_rejected : String
status_rejected = "REJECTED"

abbrev pub status_expired : String
status_expired = "EXPIRED"

abbrev pub default_policy_id : String
default_policy_id = "default-join-policy"

abbrev pub default_policy_type : String
default_policy_type = "MAJORITY"
