-- ===== src/Cmd/Tests.antt =====
-- A node that knows one other organisation, and the policy that is committed for both.
use kufi_chain.Prelude.{
  String, ◌≡◌, refl, true, not, ◌&&◌, ◌||◌, none, some, List, [], ◌∷◌, arith, ◌==◌, eq_iff,
  contains, length,
}
use kufi_chain.Prelude.Int.{pos, leb_ℤ}
use kufi_chain.Prelude.Dict.{insert}
use kufi_chain.Prelude.Sort.{leb_text, place, sort, AreDistinct}
use kufi_chain.Prelude.Action.{ok, err}
use kufi_chain.Node.Types.{NodeConfig, PeerInfo}
use kufi_chain.Node.Peers.{Net, PeersFile, peers_in, has_msp}
use kufi_chain.Ops.Host.{Committed}
use kufi_chain.Fabric.Client.{join}
use kufi_chain.Ops.Policy.{
  signed_by, n_out_of, no_rules, rule_and, SignaturePolicyEnvelope, Codec, signature_policy,
  rule_count, seen_signers, is_or_policy_rule, or_policy, principal_msps, decode_validation_policy,
}
use kufi_chain.Ops.Lifecycle.{policy_or_empty}
use kufi_chain.Ops.Lifecycle.Deploy.{target_sequence}
use kufi_chain.Cmd.Known.{
  place_peer, is_own, collect_known_peers, policy_msps, build_signature_policy,
}
use kufi_chain.Cmd.Members.{build_signature_policy-members}
use kufi_chain.Cmd.Agreement.{is_known, decode_validation_policy-build}

abbrev config : NodeConfig
config = record {
  role = "peer";
  org_name = "PeerTwo";
  msp_id = "PeerTwoMSP";
  domain = "two";
  network_domain = "net";
  channel_name = "main";
  peer_port = pos 8051;
  chaincode_port = pos 0;
  couchdb_port = pos 0;
  ops_port = pos 0;
  gateway_port = pos 0;
  mgmt_port = pos 9502;
  orderer_port = pos 0;
  orderer_admin_port = pos 0;
  orderer_addr = "o";
  orderer_mgmt_addr = "";
  external_host = "127.0.0.1";
  data_dir = "";
  deploy_dir = "";
}

abbrev peer : String → PeerInfo
peer msp = record {
  org_name = msp;
  msp_id = msp;
  domain = "d";
  peer_addr = "h:1";
  mgmt_addr = "";
  joined_at = pos 0;
  last_seen = pos 0;
}

abbrev file : PeersFile
file = some (peer "PeerThreeMSP" ∷ peer "PeerOneMSP" ∷ [])

abbrev net : Net
net = record { trim = λ s. s; hostname = λ s. none; join_host_port = λ h p. h }

-- The repository's own test of `buildSignaturePolicy`.
policy_text :
    build_signature_policy net (λ n. "0") file config
    ≡ "OR('PeerOneMSP.peer','PeerThreeMSP.peer','PeerTwoMSP.peer')"
unfolding build_signature_policy place_peer leb_text place sort or_policy join insert
policy_text = refl

build_signature_policy-members_example :
    let named = policy_msps [] (collect_known_peers net (λ n. "0") file config) in
    AreDistinct named
    × (contains "PeerTwoMSP" named ≡ (
        not ("PeerTwoMSP" == "")
        && (has_msp "PeerTwoMSP" (peers_in file)
            || (is_own config && (config.msp_id == "PeerTwoMSP")))))
build_signature_policy-members_example =
    build_signature_policy-members net (λ n. "0") file config "PeerTwoMSP"

abbrev envelope : SignaturePolicyEnvelope String
envelope = record {
  rule = some (
      n_out_of (pos 1) (
        rule_and (signed_by (pos 0))
          (rule_and (signed_by (pos 1)) (rule_and (signed_by (pos 2)) no_rules))));
  identities =
      record { is_role = true; principal = "PeerTwoMSP" }
      ∷ record { is_role = true; principal = "PeerOneMSP" }
      ∷ record { is_role = true; principal = "PeerThreeMSP" }
      ∷ [];
}

abbrev codec : Codec
codec = record {
  Bytes = String;
  base64 = λ s. ok s;
  application_policy = λ b. ok (signature_policy envelope);
  envelope = λ b. err "not an envelope";
  msp_role = λ b. ok ("PEER", b);
  trim = λ s. s;
}

abbrev current : Committed
current = record { sequence = pos 4; validation_parameter = "v"; approvals = [] }

abbrev named : List String
named = "PeerTwoMSP" ∷ "PeerOneMSP" ∷ "PeerThreeMSP" ∷ []

named_roles : principal_msps codec envelope.identities ≡ ok named
unfolding principal_msps
named_roles = refl

is_or : is_or_policy_rule envelope.rule (length named) ≡ true
unfolding is_or_policy_rule seen_signers rule_count
is_or = refl

known : (m : String) → contains m named ≡ is_known file config m
known m = ground (
  arith,
  eq_iff m "",
  eq_iff "PeerTwoMSP" m,
  eq_iff "PeerOneMSP" m,
  eq_iff "PeerThreeMSP" m,
  eq_iff "PeerTwoMSP" "",
  eq_iff "PeerOneMSP" "",
  eq_iff "PeerThreeMSP" "",
)

decode_validation_policy-build_example :
    let wanted = build_signature_policy net (λ n. "0") file config in
    (decode_validation_policy codec "v" ≡ ok wanted)
    × (leb_ℤ (pos 1) (pos 4) ≡ true
        → target_sequence (pos 4) (policy_or_empty codec current) wanted ≡ pos 4)
decode_validation_policy-build_example =
    decode_validation_policy-build codec net (λ n. "0") file config current "v" envelope named refl
      refl refl named_roles is_or (refl, (refl, (refl, tt))) known
