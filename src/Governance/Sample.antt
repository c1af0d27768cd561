-- ===== src/Governance/Sample.antt =====
-- Small ledgers of the governance chaincode, for its tests.
use kufi_chain.Prelude.{String, refl, false, none, some, [], ◌∷◌, ◌==◌, if◌then◌else◌}
use kufi_chain.Prelude.Int.{pos}
use kufi_chain.Governance.Types.{JoinRequest, VoteRecord, GovernancePolicy, OrgEntry}
use kufi_chain.Governance.Time.{Format}
use kufi_chain.Governance.Host.{Json, World, Tx}
use kufi_chain.Governance.Contract.{register_existing_orgs, request_join, approve_join}

-- Documents that carry what they encode.
pub data Doc : Type 0 where
  request_doc : JoinRequest → Doc
  vote_doc : VoteRecord → Doc
  policy_doc : GovernancePolicy → Doc
  org_doc : OrgEntry → Doc

abbrev pub no_policy : GovernancePolicy
no_policy = record {
  doc_type = "";
  policy_id = "";
  policy_type = "";
  threshold_pct = pos 0;
  expiry_hours = pos 0;
  updated_at = "";
  updated_by_msp = "";
}

abbrev pub json : Json
json = record {
  Bytes = Doc;
  marshal_request = request_doc;
  unmarshal_request = λ d. elim d [ request_doc r ↦ some r | _ ↦ none ];
  marshal_vote = vote_doc;
  unmarshal_vote = λ d. elim d [ vote_doc v ↦ some v | _ ↦ none ];
  marshal_policy = policy_doc;
  unmarshal_policy = λ d. elim d [ policy_doc p ↦ p | _ ↦ no_policy ];
  marshal_org = org_doc;
  unmarshal_orgs = λ s. some (
      record { msp_id = "BankAMSP"; name = "BankA"; domain = "a"; registered_at = "" }
      ∷ record { msp_id = "BankBMSP"; name = "BankB"; domain = "b"; registered_at = "" }
      ∷ []);
  unmarshal-marshal_request = λ r. refl;
  unmarshal-marshal_policy = λ p. refl;
}

-- Two dates are enough: the start, and all that is later.
abbrev pub dates : Format
dates = record {
  format = λ t. elim t [ pos n ↦ "later" | _ ↦ "start" ];
  parse = λ s. if s == "later" then some (pos 1) else none;
}

abbrev pub tx : String → String → Tx
tx id msp = record {
  tx_id = id;
  client_msp = some msp;
  timestamp = some (pos 5);
  clock = pos 5;
  key_fails = λ k. false;
  get_fails = λ k. false;
  put_fails = λ k. false;
  requests_range_fails = false;
  orgs_range_fails = false;
}

abbrev pub empty : World Doc
empty = record { policy = none; requests = []; votes = []; orgs = []; event = none }

abbrev pub founded : World Doc
founded = (register_existing_orgs json dates (tx "t0" "BankAMSP") "" empty).1

abbrev pub asked : World Doc
asked =
    (request_join json dates (tx "t1" "BankCMSP") "BankC" "BankCMSP" "c" "host" (pos 7051) ""
      founded).1

abbrev pub once : World Doc
once = (approve_join json dates (tx "t2" "BankAMSP") "t1" "" asked).1

abbrev pub twice : World Doc
twice = (approve_join json dates (tx "t3" "BankBMSP") "t1" "" once).1

abbrev pub request : JoinRequest
request = record {
  doc_type = "joinRequest";
  request_id = "t1";
  org_name = "BankC";
  msp_id = "BankCMSP";
  domain = "c";
  description = "";
  anchor_host = "host";
  anchor_port = pos 7051;
  status = "PENDING";
  approvals = [];
  rejections = [];
  required_ack = 2;
  total_orgs = 2;
  created_at = "later";
  updated_at = "later";
  resolved_at = "";
  creator_msp = "BankCMSP";
}
