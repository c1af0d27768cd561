-- ===== src/Node/Server.antt =====
-- internal/nodemgr/server.go: the management API, with what it calls of manager.go and store.go and
-- is not in Node/Manager.
pub mod Replies
pub mod Delivery
mod Tests
use kufi_chain.Prelude.{
  ℕ, String, Bool, true, false, not, ◌||◌, Option, none, some, List, [], ◌∷◌, ◌++◌, if◌then◌else◌,
  ◌==◌, ltb, length,
}
use kufi_chain.Prelude.Int.{ℤ}
use kufi_chain.Prelude.Dict.{Dict, lookup}
use kufi_chain.Prelude.Sweep.{keys}
use kufi_chain.Prelude.Sort.{sort}
use kufi_chain.Prelude.Action.{Result, ok, err}
use kufi_chain.Fabric.Client.{◌⊕◌}
use kufi_chain.Node.Types.{NodeConfig, PeerInfo, Vote, JoinRequest, status_pending, required_votes}
use kufi_chain.Node.Peers.{put_peer, touch_peer, has_msp}
use kufi_chain.Node.Manager.{
  Node, Env, Write, written, untouched, torn, completed, Error, save_failed, request_not_found,
  already_voted, already_resolved, Notification, load_peers, signal_refresh, submit_join_request,
  cast_vote, receive_gossiped_request, receive_gossiped_vote,
}

-- encoding/json on the body of a request, and the signing of an envelope by Fabric's tools.
pub record Wire : Type 1 where
  pub Body : Type 0
  pub join_request : Body → Option JoinRequest
  pub vote : Body → Option (String × Bool)
  pub gossip_vote : Body → Option (String × Vote)
  pub peer_info : Body → Option PeerInfo
  pub sign_request : Body → Option String
  pub notification : Body → Option Notification
  -- The MSP of a heartbeat.
  pub heartbeat : Body → Option String
  pub sign_envelope : String → Result String String
  pub error_text : Error → String
  -- The error of reading the file of the peers.
  pub peers_error : String

-- A request: the body is what `readBody` gives, which is cut off after ten megabytes, and
-- `read_error` the error that it may give beside it.
pub record HttpRequest (Body : Type 0) : Type 0 where
  pub method : String
  pub path : String
  pub query_status : String
  pub body : Body
  pub read_error : Option String

-- What a reply carries.
pub data Payload : Type 0 where
  -- The id, the status, the peers and the votes that are needed.
  submitted : String → String → ℤ → ℕ → Payload
  requests_listed : List JoinRequest → Payload
  peers_listed : List PeerInfo → Payload
  -- The configuration, and how many peers and pending requests there are.
  node_status : NodeConfig → ℕ → ℕ → Payload
  state : String → Payload
  signed : String → Payload
  sign_failed : String → Payload
  failure : String → Payload
  plain : String → Payload

pub record Reply : Type 0 where
  pub code : ℕ
  pub payload : Payload

-- `jsonOK`
abbrev pub json_ok : Payload → Reply
json_ok p = record { code = 200; payload = p }

-- `jsonError`
abbrev pub json_error : String → ℕ → Reply
json_error message c = record { code = c; payload = failure message }

abbrev pub post_only : Reply
post_only = record { code = 405; payload = plain "POST only" }

-- What the multiplexer sends for any other path.
abbrev pub not_found : Reply
not_found = record { code = 404; payload = plain "404 page not found" }

abbrev in_dict : {V : Type 0} → Dict V → List String → List V
in_dict m [] = []
in_dict m (k ∷ ks) = elim (lookup k m) [ none ↦ in_dict m ks | some v ↦ v ∷ in_dict m ks ]

-- The files that can be read, under their names.
unfoldable pub request_files : Env → Dict JoinRequest → Dict JoinRequest
request_files e [] = []
request_files e ((id, r) ∷ rest) =
    if e.read_fails id then request_files e rest else (id ⊕ ".json", r) ∷ request_files e rest

unfoldable pub with_status : String → List JoinRequest → List JoinRequest
with_status status [] = []
with_status status (r ∷ rs) =
    if (status == "") || (r.status == status)
    then r ∷ with_status status rs
    else with_status status rs

-- `ListJoinRequests`, where the directory can be read: in the order of the names of the files.
unfoldable pub list_join_requests : Env → String → Node → List JoinRequest
unfolding request_files with_status
list_join_requests e status n =
    let files = request_files e n.requests in with_status status (in_dict files (sort (keys files)))

-- `HandleNotification`; the channel holds ten.
unfoldable pub handle_notification : Notification → Node → Node
handle_notification x n =
    if ltb (length n.notify_ch) 10 then record n { notify_ch = n.notify_ch ++ x ∷ [] } else n

-- The file of the peers after a write.
unfoldable pub put_peers : Write → List PeerInfo → Node → Node
put_peers written ps n = record n { peers = some ps }
put_peers untouched ps n = n
put_peers torn ps n = record n { peers = none }
put_peers completed ps n = record n { peers = some ps }

-- `HandlePeerJoined`, with `AddPeer`
unfoldable pub handle_peer_joined : Env → PeerInfo → Node → Node
handle_peer_joined e p n =
    signal_refresh (put_peers e.peers_write (put_peer p (load_peers e.peers_fail n)) n)

-- `HandleHeartbeat`, with `UpdatePeerLastSeen`
unfoldable pub handle_heartbeat : Env → String → Node → Node
handle_heartbeat e msp_id n = if e.peers_fail then n else elim n.peers [
  | none ↦ n
  | some ps ↦
      if has_msp msp_id ps then put_peers e.peers_write (touch_peer e.now msp_id ps) n else n
]

-- What a handler sends, and the node after it.
abbrev pub Handled : Type 0
Handled = Reply × Node

abbrev pub state_reply : String → Reply
state_reply s = json_ok (state s)

-- `json.Unmarshal` of the body.
abbrev pub decoded : {A : Type 0} → Option A → String → (A → Handled) → Node → Handled
decoded none message f n = (json_error message 400, n)
decoded (some a) message f n = f a

abbrev pub posted : String → Handled → Node → Handled
posted method handled n = if method == "POST" then handled else (post_only, n)

module _ (w : Wire) (e : Env) where
  -- `jsonOK` or `jsonError` for a call of the manager.
  abbrev pub answered : {A : Type 0} → Reply → ℕ → Result Error A × Node → Handled
  answered good c (ok a, n) = (good, n)
  answered good c (err x, n) = (json_error (w.error_text x) c, n)

  -- The request as `SubmitJoinRequest` leaves it: what is stored under its id.
  abbrev submitted_reply : JoinRequest → Reply
  submitted_reply r = json_ok (submitted r.id r.status r.total_peers (required_votes r))

  abbrev pub submit_reply : Result Error JoinRequest × Node → Handled
  submit_reply (ok r, n) = (submitted_reply r, n)
  submit_reply (err x, n) = (json_error (w.error_text x) 500, n)

  -- `handleJoinRequest`
  unfoldable pub handle_join_request : HttpRequest w.Body → Node → Handled
  handle_join_request r n =
      posted r.method
        (decoded (w.join_request r.body) "invalid request body"
          (λ req. submit_reply (submit_join_request e req n)) n)
        n

  -- `handleListJoinRequests`
  unfoldable pub handle_list_join_requests : HttpRequest w.Body → Node → Handled
  handle_list_join_requests r n =
      (json_ok (requests_listed (list_join_requests e r.query_status n)), n)

  -- `handleVote`
  unfoldable pub handle_vote : HttpRequest w.Body → Node → Handled
  handle_vote r n =
      posted r.method
        (decoded (w.vote r.body) "invalid body"
          (λ (id, approve). answered (state_reply "voted") 400 (cast_vote e id approve n)) n)
        n

  -- `handleGossipRequest`, which drops the error
  unfoldable pub handle_gossip_request : HttpRequest w.Body → Node → Handled
  handle_gossip_request r n =
      posted r.method
        (decoded (w.join_request r.body) "invalid body"
          (λ req. (state_reply "received", (receive_gossiped_request e req n).1)) n)
        n

  -- `handleGossipVote`
  unfoldable pub handle_gossip_vote : HttpRequest w.Body → Node → Handled
  handle_gossip_vote r n =
      posted r.method
        (decoded (w.gossip_vote r.body) "invalid body"
          (λ (id, vote). (state_reply "received", receive_gossiped_vote e id vote n)) n)
        n

  -- `handleGossipPeerJoined`
  unfoldable pub handle_gossip_peer_joined : HttpRequest w.Body → Node → Handled
  handle_gossip_peer_joined r n =
      posted r.method
        (decoded (w.peer_info r.body) "invalid body"
          (λ p. (state_reply "received", handle_peer_joined e p n)) n)
        n

  abbrev pub sign_reply : Result String String → Reply
  sign_reply (ok envelope) = json_ok (signed envelope)
  sign_reply (err text) = json_ok (sign_failed text)

  -- `handleSignConfigUpdate`
  unfoldable pub handle_sign_config_update : HttpRequest w.Body → Node → Handled
  handle_sign_config_update r n =
      posted r.method
        (decoded (w.sign_request r.body) "invalid body"
          (λ envelope. (sign_reply (w.sign_envelope envelope), n)) n)
        n

  -- `handleNotifyApproved`
  unfoldable pub handle_notify_approved : HttpRequest w.Body → Node → Handled
  handle_notify_approved r n =
      posted r.method
        (decoded (w.notification r.body) "invalid body"
          (λ x. (state_reply "received", handle_notification x n)) n)
        n

  -- `handleStatus`
  unfoldable pub handle_status : Node → Handled
  handle_status n = (
    json_ok (
        node_status n.config (length (load_peers e.peers_fail n))
          (length (list_join_requests e status_pending n))),
    n,
  )

  -- `handlePeers`
  unfoldable pub handle_peers : Node → Handled
  handle_peers n = if e.peers_fail then (json_error w.peers_error 500, n) else elim n.peers [
    | none ↦ (json_error w.peers_error 500, n)
    | some ps ↦ (json_ok (peers_listed ps), n)
  ]

  -- What is done with the error of reading the body of a heartbeat, and with the body.
  abbrev pub heartbeat_read : Option String → Option String → Node → Handled
  heartbeat_read (some text) msp n = (json_error ("read body: " ⊕ text) 400, n)
  heartbeat_read none msp n =
      decoded msp "invalid body" (λ msp_id. (state_reply "ok", handle_heartbeat e msp_id n)) n

  -- `handleHeartbeat`, the only handler that looks at the error of reading the body
  unfoldable pub handle_heartbeat_request : HttpRequest w.Body → Node → Handled
  handle_heartbeat_request r n =
      posted r.method (heartbeat_read r.read_error (w.heartbeat r.body) n) n

  -- `handleChaincodeUpgrade`
  unfoldable pub handle_chaincode_upgrade : HttpRequest w.Body → Node → Handled
  handle_chaincode_upgrade r n = posted r.method (state_reply "triggered", signal_refresh n) n

  -- The routes of `Start`.
  unfoldable pub serve : HttpRequest w.Body → Node → Handled
  serve r n =
      if r.path == "/api/join-request"
      then handle_join_request r n
      else if r.path == "/api/join-requests"
      then handle_list_join_requests r n
      else if r.path == "/api/vote"
      then handle_vote r n
      else if r.path == "/api/gossip/request"
      then handle_gossip_request r n
      else if r.path == "/api/gossip/vote"
      then handle_gossip_vote r n
      else if r.path == "/api/gossip/peer-joined"
      then handle_gossip_peer_joined r n
      else if r.path == "/api/sign-config-update"
      then handle_sign_config_update r n
      else if r.path == "/api/notify/approved"
      then handle_notify_approved r n
      else if r.path == "/api/status"
      then handle_status n
      else if r.path == "/api/peers"
      then handle_peers n
      else if r.path == "/api/heartbeat"
      then handle_heartbeat_request r n
      else if r.path == "/api/chaincode/trigger-upgrade"
      then handle_chaincode_upgrade r n
      else (not_found, n)
