-- ===== src/Node/Peers.antt =====
-- internal/nodemgr: the file of the known peers (store.go), and the peer that an approved request
-- becomes (manager.go).
use kufi_chain.Prelude.{
  String, ◌≡◌, refl, Bool, true, false, ◌&&◌, not, Option, none, some, List, [], ◌∷◌, if◌then◌else◌,
  ◌==◌, any, arith, eq_iff, Bool-cases, inl, inr,
}
use kufi_chain.Prelude.Int.{ℤ, pos, eq_ℤ, zero_time}
use kufi_chain.Node.Types.{PeerInfo, JoinRequest}

-- strings.TrimSpace, the host of a parsed URL, and net.JoinHostPort with the port in decimal.
pub record Net : Type 0 where
  pub trim : String → String
  pub hostname : String → Option String
  pub join_host_port : String → ℤ → String

module _ (w : Net) where
  abbrev host_in_url : String → String
  host_in_url addr = elim (w.hostname addr) [ none ↦ "" | some host ↦ host ]

  -- The host of the peer: that of the request, that of its management address, or the anchor's.
  abbrev peer_host_of : JoinRequest → String
  peer_host_of r =
      let host = w.trim r.peer_host in
      let parsed =
        if (host == "") && not (r.mgmt_addr == "") then host_in_url r.mgmt_addr else host in
      if parsed == "" then r.anchor_host else parsed

  -- `peerInfoFromJoinRequest`
  unfoldable pub peer_info_from_join_request : JoinRequest → PeerInfo
  peer_info_from_join_request r = record {
    org_name = r.org_name;
    msp_id = r.msp_id;
    domain = r.domain;
    peer_addr =
        w.join_host_port (peer_host_of r)
          (if eq_ℤ r.peer_port (pos 0) then r.anchor_port else r.peer_port);
    mgmt_addr = r.mgmt_addr;
    joined_at = zero_time;
    last_seen = zero_time;
  }

-- `peers.json`: `none` where it is missing or does not decode.
abbrev pub PeersFile : Type 0
PeersFile = Option (List PeerInfo)

abbrev pub peers_in : PeersFile → List PeerInfo
peers_in none = []
peers_in (some ps) = ps

-- The loop of `AddPeer`, with the `append` after it.
unfoldable pub put_peer : PeerInfo → List PeerInfo → List PeerInfo
put_peer peer [] = peer ∷ []
put_peer peer (p ∷ ps) = if p.msp_id == peer.msp_id then peer ∷ ps else p ∷ put_peer peer ps

-- `AddPeer`, which does not look at the error of reading; where the file can be written.
unfoldable pub add_peer : PeerInfo → PeersFile → PeersFile
unfolding put_peer
add_peer peer file = some (put_peer peer (peers_in file))

-- The loop of `UpdatePeerLastSeen`.
unfoldable pub touch_peer : ℤ → String → List PeerInfo → List PeerInfo
touch_peer now msp_id [] = []
touch_peer now msp_id (p ∷ ps) =
    if p.msp_id == msp_id then record p { last_seen = now } ∷ ps else p ∷ touch_peer now msp_id ps

-- `UpdatePeerLastSeen`; without a match the file stays as it is.
unfoldable pub update_peer_last_seen : ℤ → String → PeersFile → PeersFile
unfolding touch_peer
update_peer_last_seen now msp_id none = none
update_peer_last_seen now msp_id (some ps) = some (touch_peer now msp_id ps)

abbrev pub has_msp : String → List PeerInfo → Bool
has_msp msp_id ps = any (λ p. p.msp_id == msp_id) ps

-- No two peers of one MSP.
abbrev pub IsDistinct : List PeerInfo → Type 0
IsDistinct [] = Unit
IsDistinct (p ∷ ps) = (has_msp p.msp_id ps ≡ false) × IsDistinct ps

has_msp-put_peer :
    (peer : PeerInfo) (m : String) (ps : List PeerInfo)
    → has_msp m (put_peer peer ps) ≡ (if peer.msp_id == m then true else has_msp m ps)
unfolding put_peer
has_msp-put_peer peer m [] = ground arith
has_msp-put_peer peer m (p ∷ ps) = ground (
  arith,
  eq_iff p.msp_id peer.msp_id,
  eq_iff p.msp_id m,
  eq_iff peer.msp_id m,
  has_msp-put_peer peer m ps,
)

put_peer-IsDistinct :
    (peer : PeerInfo) (ps : List PeerInfo) → IsDistinct ps → IsDistinct (put_peer peer ps)
unfolding put_peer
put_peer-IsDistinct peer [] h = (refl, tt)
put_peer-IsDistinct peer (p ∷ ps) (new, rest) = elim (Bool-cases (p.msp_id == peer.msp_id)) [
  | inl same ↦ ground (arith, eq_iff p.msp_id peer.msp_id)
  | inr other ↦
      let left = put_peer-IsDistinct peer ps rest in
      ground (
        arith,
        left,
        has_msp-put_peer peer p.msp_id ps,
        eq_iff peer.msp_id p.msp_id,
        eq_iff p.msp_id peer.msp_id,
      )
]

has_msp-touch_peer :
    (now : ℤ) (k m : String) (ps : List PeerInfo) → has_msp m (touch_peer now k ps) ≡ has_msp m ps
unfolding touch_peer
has_msp-touch_peer now k m [] = refl
has_msp-touch_peer now k m (p ∷ ps) = ground (arith, has_msp-touch_peer now k m ps)

touch_peer-IsDistinct :
    (now : ℤ) (k : String) (ps : List PeerInfo) → IsDistinct ps → IsDistinct (touch_peer now k ps)
unfolding touch_peer
touch_peer-IsDistinct now k [] h = tt
touch_peer-IsDistinct now k (p ∷ ps) (new, rest) =
    let left = touch_peer-IsDistinct now k ps rest in
    ground (arith, left, has_msp-touch_peer now k p.msp_id ps)

-- The two operations on the file keep at most one peer for each MSP. After `AddPeer` exactly the MSPs
-- that were there before and that of the new peer are there; `UpdatePeerLastSeen` keeps the MSPs.
pub peers-IsDistinct :
    (now : ℤ) (peer : PeerInfo) (msp_id m : String) (file : PeersFile)
    → IsDistinct (peers_in file)
    → IsDistinct (peers_in (add_peer peer file))
      × IsDistinct (peers_in (update_peer_last_seen now msp_id file))
      × (has_msp m (peers_in (add_peer peer file))
          ≡ (if peer.msp_id == m then true else has_msp m (peers_in file)))
      × (has_msp m (peers_in (update_peer_last_seen now msp_id file)) ≡ has_msp m (peers_in file))
unfolding add_peer update_peer_last_seen
peers-IsDistinct now peer msp_id m none h =
    (put_peer-IsDistinct peer [] h, tt, has_msp-put_peer peer m [], refl)
peers-IsDistinct now peer msp_id m (some ps) h = (
  put_peer-IsDistinct peer ps h,
  touch_peer-IsDistinct now msp_id ps h,
  has_msp-put_peer peer m ps,
  has_msp-touch_peer now msp_id m ps,
)
