-- ===== src/Node/Server/Tests.antt =====
-- Requests to a node's server, and a vote that reaches another node.
use kufi_chain.Prelude.{String, ◌≡◌, refl, true, Option, none, some, []}
use kufi_chain.Prelude.Dict.{lookup, erase}
use kufi_chain.Prelude.Action.{ok, err}
use kufi_chain.Node.Types.{PeerInfo, Vote, JoinRequest, has_voted}
use kufi_chain.Node.Manager.{
  Node, Env, torn, submit_join_request, filled, put_request, put_file, save_join_request,
  load_join_request, own_vote, cast_vote, vote_message,
}
use kufi_chain.Node.Sample.{env, request, node}
use kufi_chain.Node.Server.{Wire, HttpRequest, handle_join_request, serve}
use kufi_chain.Node.Server.Replies.{Kept, serve-Kept}
use kufi_chain.Node.Server.Delivery.{Encoder, deliver, cast_vote-deliver}

-- A body that is what has been encoded.
data Content : Type 0 where
  request_body : JoinRequest → Content
  vote_body : String → Vote → Content
  peer_body : PeerInfo → Content
  heartbeat_body : String → Content

abbrev request_in : Content → Option JoinRequest
request_in (request_body r) = some r
request_in _ = none

abbrev vote_in : Content → Option (String × Vote)
vote_in (vote_body id v) = some (id, v)
vote_in _ = none

abbrev peer_in : Content → Option PeerInfo
peer_in (peer_body p) = some p
peer_in _ = none

abbrev heartbeat_in : Content → Option String
heartbeat_in (heartbeat_body m) = some m
heartbeat_in _ = none

abbrev wire : Wire
wire = record {
  Body = Content;
  join_request = request_in;
  vote = λ b. none;
  gossip_vote = vote_in;
  peer_info = peer_in;
  sign_request = λ b. none;
  notification = λ b. none;
  heartbeat = heartbeat_in;
  sign_envelope = λ s. err "no tools";
  error_text = λ x. "error";
  peers_error = "error";
}

abbrev encoder : Encoder wire
encoder = record {
  request = request_body;
  vote = vote_body;
  peer = peer_body;
  heartbeat = heartbeat_body;
  decodes_request = λ r. refl;
  decodes_vote = λ id v. refl;
  decodes_peer = λ p. refl;
  decodes_heartbeat = λ m. refl;
}

abbrev get_vote : HttpRequest Content
get_vote = record {
  method = "GET";
  path = "/api/vote";
  query_status = "";
  body = heartbeat_body "x";
  read_error = none;
}

-- A request to join that is posted to a node whose disk is full.
abbrev full_disk : Env
full_disk = record env { write = λ id. torn }

abbrev post_request : HttpRequest Content
post_request = record get_vote {
  method = "POST";
  path = "/api/join-request";
  body = request_body (request []);
}

loses_request :
    ((serve wire full_disk post_request (node [])).0.code ≡ 500)
    × (lookup "r1" (serve wire full_disk post_request (node [])).1.requests ≡ none)
unfolding serve handle_join_request submit_join_request filled save_join_request put_request
    put_file erase lookup
loses_request = (refl, refl)

serve-Kept_example : Kept wire "POST" (node []) (serve wire full_disk post_request (node []))
serve-Kept_example = serve-Kept wire full_disk (node []) post_request

abbrev voter : Node
voter = (cast_vote env "r1" true (node [])).1

casts : cast_vote env "r1" true (node []) ≡ (ok tt, voter)
unfolding cast_vote save_join_request load_join_request lookup has_voted
casts = refl

loads : load_join_request env "r1" (node []) ≡ some (request [])
unfolding lookup load_join_request
loads = refl

holds : lookup "r1" (node []).requests ≡ some (request [])
unfolding lookup
holds = refl

cast_vote-deliver_example :
    let other =
      deliver wire encoder env (vote_message "r1" (own_vote env (node []) true)) (node []) in
    (x : JoinRequest) × (y : JoinRequest) × (lookup "r1" voter.requests ≡ some x)
    × (lookup "r1" other.requests ≡ some y)
    × (x.votes ≡ y.votes)
    × (x.status ≡ y.status)
cast_vote-deliver_example =
    cast_vote-deliver wire encoder env env "r1" true (node []) voter (node []) (request []) casts
      loads holds refl refl (refl, refl, refl)
