-- ===== src/Ops/Tests.antt =====
-- A channel with two organisations, and the lifecycle run on it.
use kufi_chain.Prelude.{String, ◌≡◌, refl, Bool, true, false, Option, none, some, [], ◌∷◌, eqb}
use kufi_chain.Prelude.Int.{pos}
use kufi_chain.Prelude.Dict.{lookup}
use kufi_chain.Prelude.Action.{ok, err}
use kufi_chain.Ops.Types.{ChaincodeOps}
use kufi_chain.Ops.Host.{Committed, approved, committed, History, World}
use kufi_chain.Ops.Policy.{
  SignaturePolicy, signed_by, n_out_of, no_rules, rule_and, Codec, no_policy, rule_count,
  seen_signers, is_or_policy_rule,
}
use kufi_chain.Ops.Policy.Rule.{is_met, any_below, is_or_policy_rule-is_met}
use kufi_chain.Ops.Lifecycle.{
  package_labelled, approved_count, readiness_loop, approve_loop, commit_loop, commit_addresses,
}
use kufi_chain.Ops.Lifecycle.Deploy.{
  target_sequence, ensure_chaincode_deployed, try_commit_if_ready,
}
use kufi_chain.Ops.Lifecycle.Steps.{Shown, IsApproval, IsCommit, Ends}
use kufi_chain.Ops.Lifecycle.Commits.{target_after, try_commit_if_ready-Ends}
use kufi_chain.Ops.Lifecycle.Chain.{IsBacked, start, deploys, tries, Reach-IsBacked}

abbrev ops : ChaincodeOps
ops = record {
  deploy_dir = "deploy";
  channel_name = "main";
  orderer_addr = "o:7050";
  network_dom = "net";
  org_name = "BankA";
  msp_id = "BankAMSP";
  domain = "a";
  peer_port = pos 7051;
  chaincode_name = "payment";
  chaincode_ver = "1.0";
  cc_label = "payment_1.0";
  project_root = "root";
  peer_endpoints = [];
  signature_policy = "OR('BankAMSP.peer','BankBMSP.peer')";
}

-- The second org has approved; the first approves, and commits, where it says so.
abbrev own_approval : History → Bool
own_approval [] = false
own_approval (approved id s q (ok u) ∷ h) = true
own_approval (e ∷ h) = own_approval h

abbrev definition : History → Option Committed
definition [] = none
definition (committed s q a (ok u) ∷ h) =
    some (record { sequence = s; validation_parameter = "v"; approvals = [] })
definition (e ∷ h) = definition h

abbrev world : World
world = record {
  query_committed = definition;
  query_installed = λ h. some (record { package_id = "id1"; label = "payment_1.0" } ∷ []);
  check_readiness = λ h s q. ok (some (("BankAMSP", own_approval h) ∷ ("BankBMSP", true) ∷ []));
  install = λ h path. ok tt;
  approve = λ h id s q. ok tt;
  commit = λ h s q a. ok tt;
  image_exists = λ h. true;
  has_dockerfile = λ h. true;
  docker_build = λ h. ok tt;
  build_package = λ h. ok "path";
  container_running = λ h. true;
  docker_run = λ h id. ok tt;
  file_exists = λ path. true;
  to_lower = λ s. s;
  trim = λ s. s;
}

-- Nothing decodes.
abbrev codec : Codec
codec = record {
  Bytes = String;
  base64 = λ s. err "illegal base64 data";
  application_policy = λ b. ok no_policy;
  envelope = λ b. err "no envelope";
  msp_role = λ b. err "no role";
  trim = λ s. s;
}

abbrev after : History
after = (try_commit_if_ready world codec ops []).1

commits : (try_commit_if_ready world codec ops []).0 ≡ ok true
unfolding try_commit_if_ready target_sequence package_labelled approved_count readiness_loop lookup
    approve_loop commit_loop commit_addresses
commits = refl

target_one : target_after world codec ops [] ≡ pos 1
unfolding target_sequence
target_one = refl

try_commit_if_ready-Ends_example :
    let r = try_commit_if_ready world codec ops [] in
    Ends
      (target_after world codec ops [])
      ops.signature_policy
      (λ b h'.
        b ≡ true
        → Shown (IsApproval "BankAMSP" (target_after world codec ops []) ops.signature_policy) h'
          × Shown (IsCommit (target_after world codec ops [])) h')
      []
      r.0
      r.1
try_commit_if_ready-Ends_example = try_commit_if_ready-Ends world codec ops []

Reach-IsBacked_example : IsBacked (ensure_chaincode_deployed world codec ops after).1
Reach-IsBacked_example =
    Reach-IsBacked world codec (ensure_chaincode_deployed world codec ops after).1
      (deploys ops (tries ops start))

abbrev two_of : SignaturePolicy
two_of = n_out_of (pos 1) (rule_and (signed_by (pos 1)) (rule_and (signed_by (pos 0)) no_rules))

accepts : is_or_policy_rule (some two_of) 2 ≡ true
unfolding is_or_policy_rule seen_signers rule_count
accepts = refl

is_or_policy_rule-is_met_example : is_met (λ i. eqb i 1) two_of ≡ any_below 2 (λ i. eqb i 1)
is_or_policy_rule-is_met_example = is_or_policy_rule-is_met two_of 2 (λ i. eqb i 1) accepts

-- An identity that is named twice leaves another one out.
rejects_double :
    is_or_policy_rule
      (some
        (n_out_of (pos 1) (rule_and (signed_by (pos 1)) (rule_and (signed_by (pos 1)) no_rules))))
      2
    ≡ false
unfolding is_or_policy_rule seen_signers rule_count
rejects_double = refl
