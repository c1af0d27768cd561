-- ===== src/Cmd/Agreement.antt =====
-- The policy that a node wants, and the one that is committed.
use kufi_chain.Prelude.{
  String, ◌≡◌, sym, ◌∙◌, Bool, true, false, not, ◌&&◌, ◌||◌, List, [], ◌==◌, contains, arith,
  eq_refl, length,
}
use kufi_chain.Prelude.Int.{ℤ, pos, leb_ℤ}
use kufi_chain.Prelude.Sort.{AreDistinct, sort_of_members}
use kufi_chain.Prelude.Action.{ok}
use kufi_chain.Node.Types.{NodeConfig}
use kufi_chain.Node.Peers.{Net, PeersFile, peers_in, has_msp}
use kufi_chain.Ops.Host.{Committed}
use kufi_chain.Ops.Policy.{
  Codec, SignaturePolicyEnvelope, signature_policy, is_or_policy_rule, or_policy, principal_msps,
  signature_envelope_to_policy, decode_validation_policy,
}
use kufi_chain.Ops.Lifecycle.{policy_or_empty}
use kufi_chain.Ops.Lifecycle.Deploy.{target_sequence}
use kufi_chain.Cmd.Known.{is_own, collect_known_peers, policy_msps, build_signature_policy}
use kufi_chain.Cmd.Members.{build_signature_policy-members}

-- The organisations that a node knows: those of the file, and its own.
abbrev pub is_known : PeersFile → NodeConfig → String → Bool
is_known file cfg m =
    not (m == "") && (has_msp m (peers_in file) || (is_own cfg && (cfg.msp_id == m)))

or_policy_of_members :
    (ss ts : List String)
    → AreDistinct ss
    → AreDistinct ts
    → ((m : String) → contains m ss ≡ contains m ts)
    → or_policy ss ≡ or_policy ts
unfolding or_policy
or_policy_of_members ss ts ds dt h = rw (sort_of_members ss ts ds dt h)

-- A committed policy that any peer of exactly the organisations which the node knows may meet, each
-- named once and in any order, is decoded to the text that the node builds; the lifecycle then stays
-- at the committed sequence.
pub decode_validation_policy-build :
    (c : Codec) (w : Net) (decimal : ℤ → String) (file : PeersFile) (cfg : NodeConfig)
    (committed : Committed) (raw : c.Bytes) (env : SignaturePolicyEnvelope c.Bytes)
    (msps : List String)
    → (c.trim committed.validation_parameter == "") ≡ false
    → c.base64 committed.validation_parameter ≡ ok raw
    → c.application_policy raw ≡ ok (signature_policy env)
    → principal_msps c env.identities ≡ ok msps
    → is_or_policy_rule env.rule (length msps) ≡ true
    → AreDistinct msps
    → ((m : String) → contains m msps ≡ is_known file cfg m)
    → let wanted = build_signature_policy w decimal file cfg in
      (decode_validation_policy c committed.validation_parameter ≡ ok wanted)
      × (leb_ℤ (pos 1) committed.sequence ≡ true
          → target_sequence committed.sequence (policy_or_empty c committed) wanted
            ≡ committed.sequence)
unfolding decode_validation_policy signature_envelope_to_policy build_signature_policy
    target_sequence
decode_validation_policy-build c w decimal file cfg committed raw env msps filled decoded app named
      rule distinct known =
    let own = policy_msps [] (collect_known_peers w decimal file cfg) in
    let same : or_policy msps ≡ or_policy own =
      or_policy_of_members msps own distinct
        (build_signature_policy-members w decimal file cfg "").0
        (λ m. known m ∙ sym (build_signature_policy-members w decimal file cfg m).1) in
    (ground (arith, same), λ positive. ground (arith, same, eq_refl (or_policy own)))
