-- ===== src/Node/Types.antt =====
-- internal/nodemgr/types.go: the records, and the methods of `JoinRequest` that count votes.
use kufi_chain.Prelude.{
  ℕ, ◌+◌, ◌/◌, String, Bool, false, not, ◌||◌, Option, List, [], ◌∷◌, if◌then◌else◌, ◌==◌, eqb, leb,
  any,
}
use kufi_chain.Prelude.Int.{ℤ, pos, negsuc}

abbrev pub role_bootstrap : String
role_bootstrap = "bootstrap"

abbrev pub role_orderer : String
role_orderer = "orderer"

abbrev pub orderer_msp_id : String
orderer_msp_id = "OrdererMSP"

abbrev pub status_pending : String
status_pending = "pending"

abbrev pub status_approved : String
status_approved = "approved"

pub record NodeConfig : Type 0 where
  pub role : String
  pub org_name : String
  pub msp_id : String
  pub domain : String
  pub network_domain : String
  pub channel_name : String
  pub peer_port : ℤ
  pub chaincode_port : ℤ
  pub couchdb_port : ℤ
  pub ops_port : ℤ
  pub gateway_port : ℤ
  pub mgmt_port : ℤ
  pub orderer_port : ℤ
  pub orderer_admin_port : ℤ
  pub orderer_addr : String
  pub orderer_mgmt_addr : String
  pub external_host : String
  pub data_dir : String
  pub deploy_dir : String

pub record PeerInfo : Type 0 where
  pub org_name : String
  pub msp_id : String
  pub domain : String
  pub peer_addr : String
  pub mgmt_addr : String
  pub joined_at : ℤ
  pub last_seen : ℤ

pub record Vote : Type 0 where
  pub voter_org : String
  pub voter_msp : String
  pub approve : Bool
  pub timestamp : ℤ

pub record JoinRequest : Type 0 where
  pub id : String
  pub org_name : String
  pub msp_id : String
  pub domain : String
  pub peer_host : String
  pub anchor_host : String
  pub anchor_port : ℤ
  pub peer_port : ℤ
  pub mgmt_addr : String
  pub org_definition : String
  pub org_msp_bundle : String
  pub status : String
  pub votes : List Vote
  pub total_peers : ℤ
  pub created_at : ℤ
  pub resolved_at : Option ℤ

abbrev votes_for : ℤ → ℕ
votes_for (pos n) = if eqb n 0 then 1 else n / 2 + 1
votes_for (negsuc n) = 1

-- `RequiredVotes`
unfoldable pub required_votes : JoinRequest → ℕ
required_votes r = votes_for r.total_peers

abbrev is_zero : ℤ → Bool
is_zero (pos n) = eqb n 0
is_zero (negsuc n) = false

-- Whether the loop of `ApprovalCount` counts a vote.
abbrev pub counts : ℤ → Vote → ℕ
counts total_peers v =
    if v.approve
    then (if is_zero total_peers || not (v.voter_msp == orderer_msp_id) then 1 else 0)
    else 0

unfoldable pub count_votes : ℤ → List Vote → ℕ
count_votes total_peers [] = 0
count_votes total_peers (v ∷ vs) = counts total_peers v + count_votes total_peers vs

-- `ApprovalCount`
unfoldable pub approval_count : JoinRequest → ℕ
approval_count r = count_votes r.total_peers r.votes

-- `MajorityReached`
unfoldable pub majority_reached : JoinRequest → Bool
majority_reached r = leb (required_votes r) (approval_count r)

-- `HasVoted`
unfoldable pub has_voted : String → JoinRequest → Bool
has_voted msp_id r = any (λ v. v.voter_msp == msp_id) r.votes
