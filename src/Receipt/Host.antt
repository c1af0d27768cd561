-- ===== src/Receipt/Host.antt =====
-- What internal/receipt calls and does not implement: encoding/json, crypto/sha256, encoding/hex,
-- encoding/pem, crypto/x509 and fmt.
use kufi_chain.Prelude.{String, ◌≡◌, Bool, Option}
use kufi_chain.Prelude.Int.{ℤ}
use kufi_chain.Receipt.Types.{TransferCommitment, HashData}

-- `sha256_hex` is the hash in hexadecimal, `text_bytes` the bytes of a text. The two encodings tell different values apart, since
-- `omitempty` leaves out only what reads back as the zero value.
pub record Crypto : Type 1 where
  pub Bytes : Type 0
  pub Cert : Type 0
  pub Pool : Type 0
  pub sha256_hex : Bytes → String
  pub text_bytes : String → Bytes
  pub hex : String → String
  pub json_commitment : TransferCommitment → Bytes
  pub json_hash_data : HashData → Bytes
  pub decimal : ℤ → String
  pub pem_decode : String → Option Bytes
  pub parse_certificate : Bytes → Option Cert
  pub not_before : Cert → ℤ
  pub not_after : Cert → ℤ
  pub empty_pool : Pool
  pub add_cert : Pool → Cert → Pool
  pub verify_chain : Cert → Pool → ℤ → Bool
  pub json_commitment-injective :
      (a b : TransferCommitment) → json_commitment a ≡ json_commitment b → a ≡ b
  pub json_hash_data-injective : (a b : HashData) → json_hash_data a ≡ json_hash_data b → a ≡ b
