-- ===== src/Node/Server/Delivery.antt =====
-- The gossip between two nodes: `sendToPeer` of gossip.go, and the server that takes the message.
use kufi_chain.Prelude.{String, ◌≡◌, ◌∙◌, ap, subst, Bool, false, none, some, arith}
use kufi_chain.Prelude.Dict.{lookup}
use kufi_chain.Prelude.Action.{ok}
use kufi_chain.Node.Types.{PeerInfo, Vote, JoinRequest, has_voted}
use kufi_chain.Node.Manager.{
  Node, Env, written, Message, request_message, vote_message, peer_message, heartbeat_message,
  load_join_request, own_vote, cast_vote, receive_gossiped_request, receive_gossiped_vote,
}
use kufi_chain.Node.Votes.{
  recorded, recorded-voted, voted, cast_vote-stored, receive_gossiped_vote-stored,
}
use kufi_chain.Node.Gossip.{Works}
use kufi_chain.Node.Server.{
  Wire, decoded, state_reply, handle_peer_joined, handle_heartbeat, handle_gossip_request,
  handle_gossip_vote, handle_gossip_peer_joined, handle_heartbeat_request, serve,
}

-- json.Marshal of the four messages, which the receiver decodes to what was sent.
pub record Encoder (w : Wire) : Type 0 where
  pub request : JoinRequest → w.Body
  pub vote : String → Vote → w.Body
  pub peer : PeerInfo → w.Body
  pub heartbeat : String → w.Body
  pub decodes_request : (r : JoinRequest) → w.join_request (request r) ≡ some r
  pub decodes_vote : (id : String) (v : Vote) → w.gossip_vote (vote id v) ≡ some (id, v)
  pub decodes_peer : (p : PeerInfo) → w.peer_info (peer p) ≡ some p
  pub decodes_heartbeat : (msp_id : String) → w.heartbeat (heartbeat msp_id) ≡ some msp_id

module _ (w : Wire) (c : Encoder w) (e : Env) where
  abbrev path_of : Message → String
  path_of (request_message r) = "/api/gossip/request"
  path_of (vote_message id v) = "/api/gossip/vote"
  path_of (peer_message p) = "/api/gossip/peer-joined"
  path_of (heartbeat_message msp_id) = "/api/heartbeat"

  abbrev body_of : Message → w.Body
  body_of (request_message r) = c.request r
  body_of (vote_message id v) = c.vote id v
  body_of (peer_message p) = c.peer p
  body_of (heartbeat_message msp_id) = c.heartbeat msp_id

  -- A message that arrives: `sendToPeer` at the sender, and the server of the receiver.
  unfoldable pub deliver : Message → Node → Node
  unfolding serve
  deliver m n =
      (serve w e
        (record {
          method = "POST";
          path = path_of m;
          query_status = "";
          body = body_of m;
          read_error = none;
        })
        n).1

  -- What the manager does with each message.
  abbrev pub received : Message → Node → Node
  received (request_message r) n = (receive_gossiped_request e r n).1
  received (vote_message id v) n = receive_gossiped_vote e id v n
  received (peer_message p) n = handle_peer_joined e p n
  received (heartbeat_message msp_id) n = handle_heartbeat e msp_id n

  -- Each of the four messages that the nodes pass on, sent as JSON to the path that the sender uses
  -- for it, reaches the operation of the manager that is meant for it, with what was sent.
  pub deliver-received : (m : Message) (n : Node) → deliver m n ≡ received m n
  unfolding deliver handle_gossip_request handle_gossip_vote handle_gossip_peer_joined
      handle_heartbeat_request
  deliver-received (request_message r) n =
      ap
        (λ o.
          (decoded o "invalid body"
            (λ req. (state_reply "received", (receive_gossiped_request e req n).1)) n).1)
        (c.decodes_request r)
  deliver-received (vote_message id v) n =
      ap
        (λ o.
          (decoded o "invalid body"
            (λ (i, vote). (state_reply "received", receive_gossiped_vote e i vote n)) n).1)
        (c.decodes_vote id v)
  deliver-received (peer_message p) n =
      ap
        (λ o.
          (decoded o "invalid body" (λ x. (state_reply "received", handle_peer_joined e x n)) n).1)
        (c.decodes_peer p)
  deliver-received (heartbeat_message msp_id) n =
      ap (λ o. (decoded o "invalid body" (λ m. (state_reply "ok", handle_heartbeat e m n)) n).1)
        (c.decodes_heartbeat msp_id)

  -- Two nodes that hold the same request hold the same votes on it, and give it the same status, after
  -- one of them has voted on it without an error and its vote has reached the other, where the other
  -- can read and write the request, and the first can make the write that marks it as approved.
  pub cast_vote-deliver :
      (e' : Env) (id : String) (approve : Bool) (a a' b : Node) (r : JoinRequest)
      → cast_vote e' id approve a ≡ (ok tt, a')
      → load_join_request e' id a ≡ some r
      → lookup id b.requests ≡ some r
      → r.id ≡ id
      → e'.approval_write id ≡ written
      → Works id e
      → let b' = deliver (vote_message id (own_vote e' a approve)) b in
        (x : JoinRequest) × (y : JoinRequest) × (lookup id a'.requests ≡ some x)
        × (lookup id b'.requests ≡ some y)
        × (x.votes ≡ y.votes)
        × (x.status ≡ y.status)
  unfolding load_join_request
  cast_vote-deliver e' id approve a a' b r cast found held named marks (reads, writes, approves) =
      let v = own_vote e' a approve in
      let (q, q_found, pending, fresh, stored) = cast_vote-stored e' id approve a a' cast in
      let same : q ≡ r = cc in
      let there =
        (receive_gossiped_vote-stored e id v r b (ground arith) named writes).1
          (subst (λ x. has_voted a.config.msp_id x ≡ false) same fresh)
        ∙ recorded-voted e v r (ap e.approval_write named ∙ approves) in
      let here =
        subst (λ x. lookup id a'.requests ≡ recorded e' v x) same
          (stored (ap JoinRequest.id same ∙ named))
        ∙ recorded-voted e' v r (ap e'.approval_write named ∙ marks) in
      (
        voted e' v r,
        voted e v r,
        here,
        ap (λ n. lookup id n.requests) (deliver-received (vote_message id v) b) ∙ there,
        ground arith,
        ground arith,
      )
