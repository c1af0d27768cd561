-- ===== src/Api/Gateway/Sample.antt =====
-- A gateway of VietcombankMSP on a network that commits what it is given.
use kufi_chain.Prelude.{ℕ, String, false, refl, none, some, [], ◌∷◌}
use kufi_chain.Prelude.Int.{pos}
use kufi_chain.Prelude.Action.{ok}
use kufi_chain.Fabric.Types.{Endorsement, SubmitResult, BlockInfo, TransactionInfo}
use kufi_chain.Api.Models.{TransferRequest}
use kufi_chain.Api.Files.{Codec}
use kufi_chain.Api.Files.Nonces.{new_file_nonce_store}
use kufi_chain.Api.Files.Keys.{new_file_idempotency_store}
use kufi_chain.Api.Files.Receipts.{new_file_receipt_store}
use kufi_chain.Api.Files.Storers.{file_nonces, file_keys, file_receipts}
use kufi_chain.Api.Gateway.Host.{Settings, Library, Network, Clock}
use kufi_chain.Api.Gateway.Submit.{Storers, Stores}

abbrev pub settings : Settings
settings = record {
  channel_name = "main";
  chaincode_name = "payment";
  msp_id = "VietcombankMSP";
  nonce_window = pos 300000000000;
  high_risk_threshold = pos 1000;
  inter_bank = "";
  regulator = "";
}

abbrev pub library : Library
library = record {
  to_lower = λ s. s;
  json_private = λ d. "private";
  fallback_hash = λ n id hash. "fallback";
}

abbrev pub endorsement : String → Endorsement
endorsement msp = record {
  msp_id = msp;
  signature = "s";
  certificate = "";
  timestamp = pos 0;
  signature_valid = false;
  cert_chain_valid = false;
}

abbrev pub result : SubmitResult
result = record {
  tx_id = "tx1";
  block_number = 7;
  validation_code = pos 0;
  endorsements = endorsement "VietcombankMSP" ∷ endorsement "TechcombankMSP" ∷ [];
  commit_timestamp = pos 5000000;
  payload = "";
}

abbrev pub block : BlockInfo
block = record {
  block_number = 7;
  block_hash = "hash";
  previous_hash = "";
  data_hash = "";
  tx_count = 1;
  timestamp = pos 0;
}

abbrev pub info : TransactionInfo
info = record {
  tx_id = "tx1";
  validation_code = pos 0;
  block_number = 7;
  tx_index = pos 0;
  channel_id = "main";
  chaincode_id = "";
  endorsements = record { msp_id = "VietcombankMSP"; signature = "s"; certificate = "" } ∷ [];
  creator_msp_id = "";
  creator_cert = "";
  timestamp = pos 0;
}

abbrev pub network : Network
network = record {
  submit = λ n p. ok result;
  get_block_by_tx_id = λ id. ok block;
  get_transaction_by_id = λ id. ok info;
}

-- Everything happens at one time.
abbrev pub clock : ℕ → Clock
clock n = record {
  at_get = pos n;
  at_exists = pos n;
  at_check = pos n;
  at_add = pos n;
  at_submit = pos n;
  at_build = pos n;
  at_store = pos n;
  at_reply = pos n;
}

-- Made one second after the epoch.
abbrev pub request : TransferRequest
request = record {
  from_id = "alice";
  to_id = "bob";
  amount_vnd = pos 500;
  memo = "";
  internal_ref = "ref";
  idempotency_key = "key";
  nonce = "0123456789abcdef";
  timestamp = pos 1000;
  user_signature = "";
  transfer_type = "";
}

-- Files that hold what was written.
abbrev pub plain : {V : Type 0} → Codec V
plain {V = V} = record {
  Bytes = V;
  encode = λ v. v;
  decode = λ v. some v;
  decode-encode = λ v. refl;
}

abbrev pub storers : Storers
storers = record { nonces = file_nonces; keys = file_keys plain; receipts = file_receipts plain }

abbrev pub stores : Stores storers
stores = record {
  nonces = new_file_nonce_store (pos 0) (pos 300000000000) none;
  keys = new_file_idempotency_store plain (pos 0) (pos 60000000000) [];
  receipts = new_file_receipt_store plain [];
}
