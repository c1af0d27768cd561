-- ===== src/Ops/Types.antt =====
-- internal/fabricops/chaincode.go: the records.
use kufi_chain.Prelude.{ℕ, String, List}
use kufi_chain.Prelude.Int.{ℤ}

pub record PeerEndpoint : Type 0 where
  pub addr : String
  pub tls_cert_path : String
  pub mgmt_addr : String

pub record ChaincodeOps : Type 0 where
  pub deploy_dir : String
  pub channel_name : String
  pub orderer_addr : String
  pub network_dom : String
  pub org_name : String
  pub msp_id : String
  pub domain : String
  pub peer_port : ℤ
  pub chaincode_name : String
  pub chaincode_ver : String
  pub cc_label : String
  pub project_root : String
  pub peer_endpoints : List PeerEndpoint
  pub signature_policy : String

-- What a call ends with instead of a result.
pub data Error : Type 0 where
  install_failed no_package_id : String → Error
  readiness_failed : String → Error
  lifecycle_not_ready : ℕ → String → Error
  approve_failed commit_failed : String → Error
  no_dockerfile build_failed : String → Error
  package_failed run_failed : String → Error
  readiness_unknown : Error
