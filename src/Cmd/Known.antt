-- ===== src/Cmd/Known.antt =====
-- cmd/kufichain/main.go: the known peers, the endorsement policy that covers them, and their
-- endpoints.
use kufi_chain.Prelude.{String, Bool, not, ◌&&◌, ◌||◌, List, [], ◌∷◌, if◌then◌else◌, ◌==◌, contains}
use kufi_chain.Prelude.Int.{ℤ, zero_time}
use kufi_chain.Prelude.Dict.{Dict, insert}
use kufi_chain.Prelude.Sort.{leb_text}
use kufi_chain.Fabric.Client.{◌⊕◌}
use kufi_chain.Node.Types.{NodeConfig, PeerInfo}
use kufi_chain.Node.Peers.{Net, PeersFile, peers_in}
use kufi_chain.Ops.Types.{PeerEndpoint}
use kufi_chain.Ops.Policy.{or_policy}

abbrev pub role_peer : String
role_peer = "peer"

-- The loop of `collectKnownPeers` over the file: the last entry of an MSP counts.
unfoldable pub by_msp : List PeerInfo → Dict PeerInfo → Dict PeerInfo
by_msp [] m = m
by_msp (p ∷ ps) m = by_msp ps (if p.msp_id == "" then m else insert p.msp_id p m)

-- The values of the map, in some order.
unfoldable pub values : {V : Type 0} → Dict V → List V
values [] = []
values ((k, v) ∷ m) = v ∷ values m

unfoldable pub place_peer : PeerInfo → List PeerInfo → List PeerInfo
place_peer p [] = p ∷ []
place_peer p (q ∷ qs) = if leb_text p.msp_id q.msp_id then p ∷ q ∷ qs else q ∷ place_peer p qs

-- `sort.Slice` by the MSP
unfoldable pub sort_peers : List PeerInfo → List PeerInfo
sort_peers [] = []
sort_peers (p ∷ ps) = place_peer p (sort_peers ps)

-- The loop of `buildSignaturePolicy`.
unfoldable pub policy_msps : (seen : List String) → List PeerInfo → List String
policy_msps seen [] = []
policy_msps seen (p ∷ ps) =
    let rest = policy_msps (p.msp_id ∷ seen) ps in
    let skipped = policy_msps seen ps in
    if (p.msp_id == "") || contains p.msp_id seen then skipped else p.msp_id ∷ rest

abbrev pub is_own : NodeConfig → Bool
is_own cfg = (cfg.role == role_peer) && not (cfg.msp_id == "")

module _ (w : Net) (decimal : ℤ → String) where
  abbrev host_of : NodeConfig → String
  host_of cfg =
      let host = w.trim cfg.external_host in if host == "" then "peer0." ⊕ cfg.domain else host

  -- The node's own entry.
  abbrev pub own_peer : NodeConfig → PeerInfo
  own_peer cfg = record {
    org_name = cfg.org_name;
    msp_id = cfg.msp_id;
    domain = cfg.domain;
    peer_addr = w.join_host_port (host_of cfg) cfg.peer_port;
    mgmt_addr = "http://" ⊕ host_of cfg ⊕ ":" ⊕ decimal cfg.mgmt_port;
    joined_at = zero_time;
    last_seen = zero_time;
  }

  -- `collectKnownPeers`
  unfoldable pub collect_known_peers : PeersFile → NodeConfig → List PeerInfo
  unfolding by_msp values sort_peers
  collect_known_peers file cfg =
      let found = by_msp (peers_in file) [] in
      sort_peers (values (if is_own cfg then insert cfg.msp_id (own_peer cfg) found else found))

  -- `buildSignaturePolicy`
  unfoldable pub build_signature_policy : PeersFile → NodeConfig → String
  unfolding collect_known_peers policy_msps
  build_signature_policy file cfg = or_policy (policy_msps [] (collect_known_peers file cfg))

  -- The loop of `buildPeerEndpoints`; `tls_cert` is the path of a peer's certificate, and `exists`
  -- looks for it.
  unfoldable pub endpoints_of :
      (String → String → String) → (String → Bool) → NodeConfig → List PeerInfo → List PeerEndpoint
  endpoints_of tls_cert exists cfg [] = []
  endpoints_of tls_cert exists cfg (p ∷ ps) =
      let rest = endpoints_of tls_cert exists cfg ps in
      if (p.domain == "") || (p.peer_addr == "") || not (exists (tls_cert cfg.deploy_dir p.domain))
      then rest
      else record {
        addr =
            if p.msp_id == cfg.msp_id
            then w.join_host_port "localhost" cfg.peer_port
            else p.peer_addr;
        tls_cert_path = tls_cert cfg.deploy_dir p.domain;
        mgmt_addr = p.mgmt_addr;
      }
        ∷ rest

  -- `buildPeerEndpoints`
  unfoldable pub build_peer_endpoints :
      (String → String → String) → (String → Bool) → PeersFile → NodeConfig → List PeerEndpoint
  unfolding collect_known_peers endpoints_of
  build_peer_endpoints tls_cert exists file cfg =
      endpoints_of tls_cert exists cfg (collect_known_peers file cfg)
