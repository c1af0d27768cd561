-- ===== src/Cmd/Members.antt =====
-- Which organisations the policy of a node names.
use kufi_chain.Prelude.{
  String, ◌≡◌, refl, not, ◌&&◌, ◌||◌, List, [], ◌∷◌, ◌==◌, contains, arith, eq_iff, eq_refl,
  Bool-cases, inl, inr,
}
use kufi_chain.Prelude.Int.{ℤ}
use kufi_chain.Prelude.Dict.{Dict, insert}
use kufi_chain.Prelude.Sort.{AreDistinct}
use kufi_chain.Node.Types.{NodeConfig, PeerInfo}
use kufi_chain.Node.Peers.{Net, PeersFile, peers_in, has_msp}
use kufi_chain.Cmd.Known.{
  by_msp, values, place_peer, sort_peers, own_peer, is_own, collect_known_peers, policy_msps,
}

-- Every value stands under its own MSP.
abbrev AreKeyed : Dict PeerInfo → Type 0
AreKeyed [] = Unit {0}
AreKeyed ((k, p) ∷ m) = (p.msp_id ≡ k) × AreKeyed m

insert-AreKeyed :
    (k : String) (p : PeerInfo) (m : Dict PeerInfo)
    → p.msp_id ≡ k
    → AreKeyed m
    → AreKeyed (insert k p m)
unfolding insert
insert-AreKeyed k p [] e h = (e, tt)
insert-AreKeyed k p ((j, q) ∷ m) e (here, rest) =
    let tail = insert-AreKeyed k p m e rest in ground (arith, eq_iff j k, tail)

has_msp-insert :
    (m k : String) (p : PeerInfo) (d : Dict PeerInfo)
    → p.msp_id ≡ k
    → AreKeyed d
    → has_msp m (values (insert k p d)) ≡ ((k == m) || has_msp m (values d))
unfolding insert values
has_msp-insert m k p [] e h = ground arith
has_msp-insert m k p ((j, q) ∷ d) e (here, rest) =
    ground (arith, eq_iff j k, eq_iff k m, eq_iff j m, has_msp-insert m k p d e rest)

has_msp-by_msp :
    (m : String) (ps : List PeerInfo) (d : Dict PeerInfo)
    → AreKeyed d
    → AreKeyed (by_msp ps d)
      × (has_msp m (values (by_msp ps d))
          ≡ ((not (m == "") && has_msp m ps) || has_msp m (values d)))
unfolding by_msp
has_msp-by_msp m [] d h = (h, ground arith)
has_msp-by_msp m (p ∷ ps) d h = elim (Bool-cases (p.msp_id == "")) [
  | inl e ↦
      let rest = has_msp-by_msp m ps d h in
      ground (arith, rest, eq_iff p.msp_id "", eq_iff m "", eq_iff p.msp_id m)
  | inr e ↦
      let keyed = insert-AreKeyed p.msp_id p d refl h in
      let rest = has_msp-by_msp m ps (insert p.msp_id p d) keyed in
      let one = has_msp-insert m p.msp_id p d refl h in
      ground (arith, rest, one, eq_iff p.msp_id "", eq_iff m "", eq_iff p.msp_id m)
]

has_msp-place_peer :
    (m : String) (p : PeerInfo) (ps : List PeerInfo)
    → has_msp m (place_peer p ps) ≡ ((p.msp_id == m) || has_msp m ps)
unfolding place_peer
has_msp-place_peer m p [] = refl
has_msp-place_peer m p (q ∷ qs) = ground (arith, has_msp-place_peer m p qs)

has_msp-sort_peers : (m : String) (ps : List PeerInfo) → has_msp m (sort_peers ps) ≡ has_msp m ps
unfolding sort_peers
has_msp-sort_peers m [] = refl
has_msp-sort_peers m (p ∷ ps) =
    ground (arith, has_msp-place_peer m p (sort_peers ps), has_msp-sort_peers m ps)

policy_msps-members :
    (m : String) (seen : List String) (ps : List PeerInfo)
    → contains m (policy_msps seen ps) ≡ (not (m == "") && not (contains m seen) && has_msp m ps)
unfolding policy_msps
policy_msps-members m seen [] = ground arith
policy_msps-members m seen (p ∷ ps) = ground (
  arith,
  policy_msps-members m seen ps,
  policy_msps-members m (p.msp_id ∷ seen) ps,
  eq_iff p.msp_id "",
  eq_iff p.msp_id m,
  eq_iff m "",
)

policy_msps-AreDistinct :
    (seen : List String) (ps : List PeerInfo) → AreDistinct (policy_msps seen ps)
unfolding policy_msps
policy_msps-AreDistinct seen [] = tt
policy_msps-AreDistinct seen (p ∷ ps) =
    let skipped = policy_msps-AreDistinct seen ps in
    let kept = policy_msps-AreDistinct (p.msp_id ∷ seen) ps in
    ground
      (arith, skipped, kept, policy_msps-members p.msp_id (p.msp_id ∷ seen) ps, eq_refl p.msp_id)

-- The endorsement policy of a node names no organisation twice, and it names exactly those that are
-- in the file of the peers under an MSP that is not empty, and the node's own where it is a peer.
pub build_signature_policy-members :
    (w : Net) (decimal : ℤ → String) (file : PeersFile) (cfg : NodeConfig) (m : String)
    → let named = policy_msps [] (collect_known_peers w decimal file cfg) in
      AreDistinct named
      × (contains m named
          ≡ (not (m == "") && (has_msp m (peers_in file) || (is_own cfg && (cfg.msp_id == m)))))
unfolding collect_known_peers values
build_signature_policy-members w decimal file cfg m =
    let found = by_msp (peers_in file) [] in
    let known = collect_known_peers w decimal file cfg in
    let (keyed, in_file) = has_msp-by_msp m (peers_in file) [] tt in
    let own = has_msp-insert m cfg.msp_id (own_peer w decimal cfg) found refl keyed in
    let named = policy_msps-members m [] known in
    (
      policy_msps-AreDistinct [] known,
      elim (Bool-cases (is_own cfg)) [
        | inl e ↦
            let sorted =
              has_msp-sort_peers m (values (insert cfg.msp_id (own_peer w decimal cfg) found)) in
            ground (
              arith,
              named,
              in_file,
              own,
              sorted,
              eq_iff cfg.msp_id m,
              eq_iff m "",
              eq_iff cfg.msp_id "",
            )
        | inr e ↦
            let sorted = has_msp-sort_peers m (values found) in
            ground (arith, named, in_file, sorted, eq_iff m "")
      ],
    )
