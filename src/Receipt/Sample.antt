-- ===== src/Receipt/Sample.antt =====
-- Receipts in a world where the hash of a document is one of its texts.
use kufi_chain.Prelude.{ℕ, String, ◌≡◌, true, false, some, List, [], ◌∷◌}
use kufi_chain.Prelude.Int.{ℤ, pos}
use kufi_chain.Receipt.Types.{TransferCommitment, Receipt, HashData, BuildInput, PolicyConfig}
use kufi_chain.Receipt.Host.{Crypto}
use kufi_chain.Receipt.Build.{ReceiptBuilder, build}
use kufi_chain.Receipt.Verify.{Verifier}

-- Byte strings that carry what they encode.
pub data Doc : Type 0 where
  commitment_doc : TransferCommitment → Doc
  hash_doc : HashData → Doc
  text_doc : String → Doc

pub commitment_doc-injective :
    (a b : TransferCommitment) → commitment_doc a ≡ commitment_doc b → a ≡ b
commitment_doc-injective a b e = cc

pub hash_doc-injective : (a b : HashData) → hash_doc a ≡ hash_doc b → a ≡ b
hash_doc-injective a b e = cc

-- The hash of a transfer is its nonce, that of a receipt its transaction's id, and that of a text
-- the text itself: a weak hash, with collisions.
abbrev pub weak_hash : Doc → String
weak_hash (commitment_doc o) = o.nonce
weak_hash (hash_doc d) = d.tx_id
weak_hash (text_doc s) = s

-- A certificate is the end of its validity.
abbrev pub crypto : Crypto
crypto = record {
  Bytes = Doc;
  Cert = ℕ;
  Pool = List ℕ;
  sha256_hex = weak_hash;
  text_bytes = text_doc;
  hex = λ s. s;
  json_commitment = commitment_doc;
  json_hash_data = hash_doc;
  decimal = λ n. "?";
  pem_decode = λ s. some (text_doc s);
  parse_certificate = λ d. some 5;
  not_before = λ n. pos 0;
  not_after = λ n. pos n;
  empty_pool = [];
  add_cert = λ p n. n ∷ p;
  verify_chain = λ n p t. true;
  json_commitment-injective = commitment_doc-injective;
  json_hash_data-injective = hash_doc-injective;
}

abbrev pub opening : String → TransferCommitment
opening to = record {
  channel_id = "main";
  chaincode_id = "payment";
  function = "SettleTransfer";
  from_id = "alice";
  to_id = to;
  amount_vnd = pos 500;
  internal_ref = "";
  timestamp = pos 1;
  nonce = "n1";
}

abbrev pub input : String → ℕ → BuildInput
input to block = record {
  tx_id = "tx1";
  commitment_hash = "n1";
  commitment_opening = some (opening to);
  block_number = block;
  block_hash = "b";
  tx_index = pos 0;
  validation_code = pos 0;
  endorsements =
      record {
        msp_id = "BankAMSP";
        endorser_id = "peer0";
        cert_pem = "";
        signature = "s";
        timestamp = pos 1;
        signature_valid = true;
        cert_chain_valid = true;
      }
      ∷ [];
  origin_msp_id = "BankAMSP";
  policy_id = "single";
  policy_met = true;
  internal_ref = "";
  client_submit_time = pos 1000000;
  endorsement_time = pos 2000000;
  commit_time = pos 3000000;
}

abbrev pub builder : ReceiptBuilder
builder = record {
  channel_id = "main";
  chaincode_id = "payment";
  status_endpoint = "/status";
  include_full_certs = false;
}

abbrev pub single : PolicyConfig
single = record { kind = "AND"; required_msps = "BankAMSP" ∷ []; min_endorsers = pos 1 }

abbrev pub verifier : Verifier crypto.Pool
verifier = record {
  trusted_cas = [];
  policy_config = ("single", single) ∷ [];
  crl_endpoint = "";
  allow_expired_certs = true;
}

abbrev pub receipt : String → ℕ → Receipt
receipt to block = build crypto (pos 4000000) builder (input to block)

abbrev pub now : ℤ
now = pos 9000000
