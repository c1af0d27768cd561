-- ===== src/Node/Sample.antt =====
-- A node, and a request in a network of three peers, for the runs.
use kufi_chain.Prelude.{String, Bool, false, none, some, List, [], ◌∷◌}
use kufi_chain.Prelude.Int.{pos}
use kufi_chain.Node.Types.{NodeConfig, Vote, JoinRequest, status_pending}
use kufi_chain.Node.Manager.{Node, Env, written}

abbrev pub config : NodeConfig
config = record {
  role = "orderer";
  org_name = "BankA";
  msp_id = "BankAMSP";
  domain = "a";
  network_domain = "net";
  channel_name = "main";
  peer_port = pos 0;
  chaincode_port = pos 0;
  couchdb_port = pos 0;
  ops_port = pos 0;
  gateway_port = pos 0;
  mgmt_port = pos 0;
  orderer_port = pos 7050;
  orderer_admin_port = pos 7053;
  orderer_addr = "o";
  orderer_mgmt_addr = "http://o";
  external_host = "";
  data_dir = "";
  deploy_dir = "";
}

abbrev pub env : Env
env = record {
  now = pos 5;
  approval_time = pos 6;
  new_id = "r1";
  write = λ id. written;
  approval_write = λ id. written;
  read_fails = λ id. false;
  peers_fail = false;
  targets_fail = false;
  config_fails = false;
  peers_write = written;
}

abbrev pub vote : String → Bool → Vote
vote msp approve = record { voter_org = msp; voter_msp = msp; approve = approve; timestamp = pos 1 }

-- A request in a network of three peers, which needs two approvals.
abbrev pub request : List Vote → JoinRequest
request votes = record {
  id = "r1";
  org_name = "BankD";
  msp_id = "BankDMSP";
  domain = "d";
  peer_host = "";
  anchor_host = "d";
  anchor_port = pos 7051;
  peer_port = pos 7051;
  mgmt_addr = "http://d";
  org_definition = "{}";
  org_msp_bundle = "";
  status = status_pending;
  votes = votes;
  total_peers = pos 3;
  created_at = pos 1;
  resolved_at = none;
}

abbrev pub node : List Vote → Node
node votes = record {
  config = config;
  node_file = none;
  peers = some [];
  requests = ("r1", request votes) ∷ [];
  outbox = [];
  approval_ch = [];
  notify_ch = [];
  refresh_ch = false;
  executing = [];
}

abbrev pub empty : Node
empty = record (node []) { requests = [] }
