-- ===== src/Node/Manager.antt =====
-- internal/nodemgr/manager.go, and what it needs of store.go and gossip.go.
use kufi_chain.Prelude.{
  String, Bool, true, false, not, ◌||◌, Option, none, some, List, [], ◌∷◌, ◌++◌, if◌then◌else◌,
  ◌==◌, ltb, eqb, length, map, contains,
}
use kufi_chain.Prelude.Int.{ℤ, pos, eq_ℤ, zero_time}
use kufi_chain.Prelude.Dict.{Dict, lookup, insert, erase}
use kufi_chain.Prelude.Action.{Action, pure, gets, or_raise, raise_if, modify, ◌>>=◌, ◌>>◌}
use kufi_chain.Node.Types.{
  NodeConfig, PeerInfo, Vote, JoinRequest, role_bootstrap, role_orderer, status_pending,
  status_approved, majority_reached, has_voted,
}

pub data Message : Type 0 where
  request_message : JoinRequest → Message
  vote_message : String → Vote → Message
  peer_message : PeerInfo → Message
  -- The MSP of the sender.
  heartbeat_message : String → Message

pub record OrgBundle : Type 0 where
  pub org_name : String
  pub msp_id : String
  pub domain : String
  pub bundle : String

-- `ApprovalNotification`
pub record Notification : Type 0 where
  pub request_id : String
  pub is_approved : Bool
  pub orderer_addr : String
  pub orderer_host_ip : String
  pub orderer_tls_ca : String
  pub orderer_mgmt_addr : String
  pub channel_name : String
  pub network_domain : String
  pub existing_peers : List PeerInfo
  pub existing_bundles : List OrgBundle

-- A node: the files of its store that decode, each with what it holds, where `peers` is `none` if the
-- file of the peers does not decode and empty if there is none, the messages it has sent
-- with their targets, the channels `ApprovalCh` and `NotifyCh`, whether `RefreshCh`, which holds one
-- signal, is full, and the requests whose `executeApproval` it has started.
pub record Node : Type 0 where
  pub config : NodeConfig
  pub node_file : Option NodeConfig
  pub peers : Option (List PeerInfo)
  pub requests : Dict JoinRequest
  pub outbox : List (List String × Message)
  pub approval_ch : List String
  pub notify_ch : List Notification
  pub refresh_ch : Bool
  pub executing : List String

-- How `writeJSON` ends: without an error, or with one that leaves the file as it was, with a part of
-- the text, which does not decode, or with all of it.
pub data Write : Type 0 where
  written untouched torn completed : Write

abbrev pub is_written : Write → Bool
is_written written = true
is_written _ = false

-- One call: its time and that of the approval in it, the random id, whether each of its reads of a
-- request, of the peers and, for the targets of a message, of the peers and of the configuration
-- fails, and how each of its writes ends: the one that an operation makes of a request, the one that
-- `checkMajority` makes after it, and the one of the peers.
pub record Env : Type 0 where
  pub now : ℤ
  pub approval_time : ℤ
  pub new_id : String
  pub write : String → Write
  pub approval_write : String → Write
  pub read_fails : String → Bool
  pub peers_fail : Bool
  pub targets_fail : Bool
  pub config_fails : Bool
  pub peers_write : Write

pub data Error : Type 0 where
  save_failed request_not_found already_voted : Error
  already_resolved : String → Error

abbrev pub Call : Type 0 → Type 0
Call A = Action Node Error A

-- `LoadPeers`, whose error leaves no peers
abbrev pub load_peers : Bool → Node → List PeerInfo
load_peers fails n = if fails then [] else elim n.peers [ none ↦ [] | some ps ↦ ps ]

-- `gossipTargets`
unfoldable pub gossip_targets : Env → Node → List String
gossip_targets e n =
    let addrs = map PeerInfo.mgmt_addr (load_peers e.targets_fail n) in
    elim (if e.config_fails then none else n.node_file) [
      | none ↦ addrs
      | some cfg ↦
          if (cfg.orderer_mgmt_addr == "") || contains cfg.orderer_mgmt_addr addrs
          then addrs
          else addrs ++ cfg.orderer_mgmt_addr ∷ []
    ]

-- `signalRefresh`
abbrev pub signal_refresh : Node → Node
signal_refresh n = record n { refresh_ch = true }

-- `BroadcastJoinRequest`, `BroadcastVote`, `BroadcastPeerJoined` and `SendHeartbeat`
unfoldable pub broadcast : Env → Message → Node → Node
broadcast e m n =
    let targets = gossip_targets e n in
    if eqb (length targets) 0 then n else record n { outbox = n.outbox ++ (targets, m) ∷ [] }

-- The files of the requests after a write. To every reader a file that does not decode is as one
-- that is not there.
unfoldable pub put_file : Write → JoinRequest → Dict JoinRequest → Dict JoinRequest
put_file written r files = insert r.id r files
put_file untouched r files = files
put_file torn r files = erase r.id files
put_file completed r files = insert r.id r files

-- `SaveJoinRequest` where its error is dropped
unfoldable pub put_request : Write → JoinRequest → Node → Node
put_request x r n = record n { requests = put_file x r n.requests }

-- `SaveJoinRequest`
unfoldable pub save_join_request : Env → JoinRequest → Call (Unit {0})
unfolding put_request
save_join_request e r = do
  modify (put_request (e.write r.id) r)
  raise_if (not (is_written (e.write r.id))) save_failed

-- `LoadJoinRequest`; `none` is its error.
unfoldable pub load_join_request : Env → String → Node → Option JoinRequest
load_join_request e id n = if e.read_fails id then none else lookup id n.requests

abbrev pub approved : Env → JoinRequest → JoinRequest
approved e r = record r { status = status_approved; resolved_at = some e.approval_time }

-- The send on `ApprovalCh`, which holds ten, and the start of `executeApproval`.
unfoldable pub announce : String → Node → Node
announce id n =
    let n' =
      if ltb (length n.approval_ch) 10
      then record n { approval_ch = n.approval_ch ++ id ∷ [] }
      else n in
    if (n.config.role == role_bootstrap) || (n.config.role == role_orderer)
    then record n' { executing = n'.executing ++ id ∷ [] }
    else n'

-- `checkMajority`
unfoldable pub check_majority : Env → JoinRequest → Node → Node
check_majority e r n =
    if not (r.status == status_pending)
    then n
    else if not (majority_reached r)
    then n
    else announce r.id (put_request (e.approval_write r.id) (approved e r) n)

-- What `SubmitJoinRequest` fills in.
unfoldable pub filled : Env → Node → JoinRequest → JoinRequest
filled e n r =
    let r₁ = if r.id == "" then record r { id = e.new_id } else r in
    let r₂ = if r₁.status == "" then record r₁ { status = status_pending } else r₁ in
    let r₃ = if eq_ℤ r₂.created_at zero_time then record r₂ { created_at = e.now } else r₂ in
    record r₃ { total_peers = pos (length (load_peers e.peers_fail n)) }

-- `SubmitJoinRequest`; the caller sees the request with what has been filled in.
unfoldable pub submit_join_request : Env → JoinRequest → Call JoinRequest
unfolding filled
submit_join_request e r = do
  r' ← gets (λ n. filled e n r)
  save_join_request e r'
  modify (broadcast e (request_message r'))
  modify signal_refresh
  pure r'

abbrev pub add_vote : Vote → JoinRequest → JoinRequest
add_vote v r = record r { votes = r.votes ++ v ∷ [] }

-- The loop of `ReceiveGossipedRequest`: the request with the new votes, and whether it has changed.
unfoldable pub merge_votes : List Vote → JoinRequest → JoinRequest × Bool
merge_votes [] r = (r, false)
merge_votes (v ∷ vs) r =
    let known = has_voted v.voter_msp r in
    let (merged, changed) = merge_votes vs (if known then r else add_vote v r) in
    (merged, not known || changed)

-- `ReceiveGossipedRequest`
unfoldable pub receive_gossiped_request : Env → JoinRequest → Call (Unit {0})
receive_gossiped_request e r = do
  existing ← gets (load_join_request e r.id)
  elim existing [
    | none ↦ save_join_request e r >> modify signal_refresh
    | some old ↦
        let (merged, changed) = merge_votes r.votes old in
        modify (λ n.
          if changed then check_majority e merged (put_request (e.write merged.id) merged n) else n)
  ]

abbrev pub own_vote : Env → Node → Bool → Vote
own_vote e n approve = record {
  voter_org = n.config.org_name;
  voter_msp = n.config.msp_id;
  approve = approve;
  timestamp = e.now;
}

-- `CastVote`
unfoldable pub cast_vote : Env → String → Bool → Call (Unit {0})
cast_vote e id approve = do
  found ← gets (load_join_request e id)
  r ← or_raise found request_not_found
  raise_if (not (r.status == status_pending)) (already_resolved r.status)
  voter ← gets (λ n. n.config.msp_id)
  raise_if (has_voted voter r) already_voted
  vote ← gets (λ n. own_vote e n approve)
  save_join_request e (add_vote vote r)
  modify (broadcast e (vote_message id vote))
  modify signal_refresh
  modify (check_majority e (add_vote vote r))

-- `ReceiveGossipedVote`, which returns no error
unfoldable pub receive_gossiped_vote : Env → String → Vote → Node → Node
receive_gossiped_vote e id vote n = elim (load_join_request e id n) [
  | none ↦ n
  | some r ↦
      if has_voted vote.voter_msp r
      then n
      else check_majority e (add_vote vote r)
          (signal_refresh (put_request (e.write r.id) (add_vote vote r) n))
]
