-- ===== src/Api/Gateway/Host.antt =====
-- What the handlers call and do not implement, and the settings that they read.
use kufi_chain.Prelude.{ℕ, String, List}
use kufi_chain.Prelude.Dict.{Dict}
use kufi_chain.Prelude.Int.{ℤ}
use kufi_chain.Prelude.Action.{Result}
use kufi_chain.Fabric.Types.{SubmitResult, BlockInfo, TransactionInfo}

-- The part of `Config` that the handlers read; times are in nanoseconds.
pub record Settings : Type 0 where
  pub channel_name : String
  pub chaincode_name : String
  pub msp_id : String
  pub nonce_window : ℤ
  pub high_risk_threshold : ℤ
  pub inter_bank : String
  pub regulator : String

-- The map that `SubmitTransfer` marshals as the private data.
pub record PrivateData : Type 0 where
  pub from_id : String
  pub to_id : String
  pub amount_vnd : ℤ
  pub memo : String
  pub internal_ref : String
  pub timestamp : ℤ

-- strings.ToLower, encoding/json, and the hash of `fmt.Sprintf("block:%d:tx:%s:commit:%s", …)`.
pub record Library : Type 0 where
  pub to_lower : String → String
  pub json_private : PrivateData → String
  pub fallback_hash : ℕ → String → String → String

-- What one call of `SubmitTransactionWithPDC` is given.
pub record ClientCall : Type 0 where
  pub function : String
  pub transient : Dict String
  pub endorsing_orgs : List String
  pub arguments : List String

-- What the network answers while one request is handled: `submit n` what the call of the client
-- with number `n` returns in the end, the others the queries of the ledger.
pub record Network : Type 0 where
  pub submit : ℕ → ClientCall → Result String SubmitResult
  pub get_block_by_tx_id : String → Result String BlockInfo
  pub get_transaction_by_id : String → Result String TransactionInfo

-- What each `time.Now()` returns while one request is handled, in their order.
pub record Clock : Type 0 where
  pub at_get : ℤ
  pub at_exists : ℤ
  pub at_check : ℤ
  pub at_add : ℤ
  pub at_submit : ℤ
  pub at_build : ℤ
  pub at_store : ℤ
  pub at_reply : ℤ
