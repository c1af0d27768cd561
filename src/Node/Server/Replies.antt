-- ===== src/Node/Server/Replies.antt =====
-- Which requests change a node.
use kufi_chain.Prelude.{
  String, ◌≡◌, refl, ◌≢◌, ◌⊎◌, sym, subst, Bool, true, false, Option, none, some, if◌then◌else◌,
  ◌==◌, arith, Bool-cases, Option-cases, inl, inr,
}
use kufi_chain.Prelude.Action.{Result, ok, err}
use kufi_chain.Node.Types.{JoinRequest, status_pending, has_voted}
use kufi_chain.Node.Manager.{
  Node, Env, Write, is_written, put_request, save_failed, own_vote, add_vote, signal_refresh,
  load_join_request, filled, save_join_request, submit_join_request, cast_vote,
}
use kufi_chain.Node.Server.{
  Wire, HttpRequest, Handled, heartbeat_read, failure, post_only, not_found, decoded, posted,
  submit_reply, answered, state_reply, sign_reply, handle_heartbeat, handle_join_request,
  handle_list_join_requests, handle_vote, handle_gossip_request, handle_gossip_vote,
  handle_gossip_peer_joined, handle_sign_config_update, handle_notify_approved, handle_status,
  handle_peers, handle_heartbeat_request, handle_chaincode_upgrade, serve,
}

module _ (w : Wire) where
  -- The node is as before, or a write of one request has failed, the reply carries this error, and
  -- the file of this request is what the write has left.
  abbrev pub IsKept : Node → Handled → Type 0
  IsKept n (reply, n') =
      (n' ≡ n)
      ⊎ ((r : JoinRequest) × (x : Write) × (is_written x ≡ false)
          × (n' ≡ put_request x r n)
          × (reply.payload ≡ failure (w.error_text save_failed)))

  -- What is not answered with 200, and what is not posted.
  abbrev pub Kept : String → Node → Handled → Type 0
  Kept method n (reply, n') =
      (reply.code ≢ 200 → IsKept n (reply, n')) × ((method == "POST") ≡ false → n' ≡ n)

  if-Kept :
      (method : String) (n : Node) (b : Bool) (x y : Handled)
      → Kept method n x
      → Kept method n y
      → Kept method n (if b then x else y)
  if-Kept method n true x y kx ky = kx
  if-Kept method n false x y kx ky = ky

  -- A handler that leaves the node alone.
  same-Kept : (method : String) (n : Node) (x : Handled) → x.1 ≡ n → Kept method n x
  same-Kept method n x same = (λ h. inl same, λ h. same)

  posted-Kept :
      (method : String) (n : Node) (x : Handled)
      → (x.0.code ≢ 200 → IsKept n x)
      → Kept method n (posted method x n)
  posted-Kept method n x kept = elim (Bool-cases (method == "POST")) [
    | inl e ↦
        subst (λ b. Kept method n (if b then x else (post_only, n))) (sym e)
          (kept, λ other. absurd (ground arith))
    | inr e ↦
        subst (λ b. Kept method n (if b then x else (post_only, n))) (sym e)
          (same-Kept method n (post_only, n) refl)
  ]

module _ (w : Wire) (e : Env) (n : Node) where
  submit_reply-IsKept :
      (req : JoinRequest)
      → (submit_reply w e (submit_join_request e req n)).0.code ≢ 200
      → IsKept w n (submit_reply w e (submit_join_request e req n))
  unfolding submit_join_request save_join_request
  submit_reply-IsKept req h =
      let q = filled e n req in
      elim (Bool-cases (is_written (e.write q.id))) [
        | inr fails ↦ inr (q, e.write q.id, fails, ground arith, ground arith)
        | inl works ↦ absurd (ground arith)
      ]

  vote_reply-IsKept :
      (id : String) (approve : Bool)
      → (answered w e (state_reply "voted") 400 (cast_vote e id approve n)).0.code ≢ 200
      → IsKept w n (answered w e (state_reply "voted") 400 (cast_vote e id approve n))
  unfolding cast_vote save_join_request
  vote_reply-IsKept id approve h = elim (Option-cases (load_join_request e id n)) [
    | inl absent ↦ inl (ground arith)
    | inr (r, found) ↦ elim (Bool-cases (r.status == status_pending)) [
      | inr resolved ↦ inl (ground arith)
      | inl pending ↦ elim (Bool-cases (has_voted n.config.msp_id r)) [
        | inl voted ↦ inl (ground arith)
        | inr fresh ↦ elim (Bool-cases (is_written (e.write r.id))) [
          | inr fails ↦
              inr
                (add_vote (own_vote e n approve) r, e.write r.id, fails, ground arith, ground arith)
          | inl works ↦ absurd (ground arith)
        ]
      ]
    ]
  ]

  decoded-IsKept :
      {A : Type 0} (o : Option A) (message : String) (f : A → Handled)
      → ((a : A) → (f a).0.code ≢ 200 → IsKept w n (f a))
      → (decoded o message f n).0.code ≢ 200
      → IsKept w n (decoded o message f n)
  decoded-IsKept none message f h kept = inl refl
  decoded-IsKept (some a) message f h kept = h a kept

  -- A handler whose calls are all answered with 200.
  decoded-Kept :
      {A : Type 0} (o : Option A) (message method : String) (f : A → Handled)
      → ((a : A) → (f a).0.code ≡ 200)
      → Kept w method n (posted method (decoded o message f n) n)
  decoded-Kept o message method f done =
      posted-Kept w method n (decoded o message f n)
        (decoded-IsKept o message f (λ a h. absurd (h (done a))))

  sign_reply-done : (x : Result String String) → (sign_reply w e x).code ≡ 200
  sign_reply-done (ok envelope) = refl
  sign_reply-done (err text) = refl

  heartbeat_read-IsKept :
      (o msp : Option String)
      → (heartbeat_read w e o msp n).0.code ≢ 200
      → IsKept w n (heartbeat_read w e o msp n)
  heartbeat_read-IsKept (some text) msp h = inl refl
  heartbeat_read-IsKept none msp h =
      decoded-IsKept msp "invalid body" (λ msp_id. (state_reply "ok", handle_heartbeat e msp_id n))
        (λ a h. absurd (h refl)) h

  handle_heartbeat_request-Kept :
      (r : HttpRequest w.Body) → Kept w r.method n (handle_heartbeat_request w e r n)
  unfolding handle_heartbeat_request
  handle_heartbeat_request-Kept r =
      posted-Kept w r.method n _ (heartbeat_read-IsKept r.read_error (w.heartbeat r.body))

  handle_peers-same : (handle_peers w e n).1 ≡ n
  unfolding handle_peers
  handle_peers-same = ground arith

  -- A request that is not a POST leaves the node as it was. One that is not answered with 200 does so
  -- too, unless its reply carries the error of saving a join request: then only the file of this
  -- request may have changed, as the failed write has left it.
  pub serve-Kept : (r : HttpRequest w.Body) → Kept w r.method n (serve w e r n)
  unfolding serve handle_join_request handle_list_join_requests handle_vote handle_gossip_request
      handle_gossip_vote handle_gossip_peer_joined handle_sign_config_update handle_notify_approved
      handle_status handle_chaincode_upgrade
  serve-Kept r =
      if-Kept w r.method n (r.path == "/api/join-request") _ _
        (posted-Kept w r.method n _
          (decoded-IsKept (w.join_request r.body) _ _ submit_reply-IsKept))
        (if-Kept w r.method n (r.path == "/api/join-requests") _ _
          (same-Kept w r.method n (handle_list_join_requests w e r n) refl)
          (if-Kept w r.method n (r.path == "/api/vote") _ _
            (posted-Kept w r.method n _
              (decoded-IsKept (w.vote r.body) _ _ (λ (id, approve). vote_reply-IsKept id approve)))
            (if-Kept w r.method n (r.path == "/api/gossip/request") _ _
              (decoded-Kept (w.join_request r.body) _ r.method _ (λ a. refl))
              (if-Kept w r.method n (r.path == "/api/gossip/vote") _ _
                (decoded-Kept (w.gossip_vote r.body) _ r.method _ (λ (id, vote). refl))
                (if-Kept w r.method n (r.path == "/api/gossip/peer-joined") _ _
                  (decoded-Kept (w.peer_info r.body) _ r.method _ (λ a. refl))
                  (if-Kept w r.method n (r.path == "/api/sign-config-update") _ _
                    (decoded-Kept (w.sign_request r.body) _ r.method _
                      (λ a. sign_reply-done (w.sign_envelope a)))
                    (if-Kept w r.method n (r.path == "/api/notify/approved") _ _
                      (decoded-Kept (w.notification r.body) _ r.method _ (λ a. refl))
                      (if-Kept w r.method n (r.path == "/api/status") _ _
                        (same-Kept w r.method n (handle_status w e n) refl)
                        (if-Kept w r.method n (r.path == "/api/peers") _ _
                          (same-Kept w r.method n (handle_peers w e n) handle_peers-same)
                          (if-Kept w r.method n (r.path == "/api/heartbeat") _ _
                            (handle_heartbeat_request-Kept r)
                            (if-Kept w r.method n (r.path == "/api/chaincode/trigger-upgrade") _ _
                              (posted-Kept w r.method n (state_reply "triggered", signal_refresh n)
                                (λ h. absurd (h refl)))
                              (same-Kept w r.method n (not_found, n) refl))))))))))))
