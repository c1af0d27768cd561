-- ===== src/Api/Gateway/Observe.antt =====
-- internal/api/handlers.go: `ObserveTransaction`, a node's attestation of a transaction.
use kufi_chain.Prelude.{
  ℕ, String, ◌≡◌, refl, ◌≢◌, ◌⊎◌, inl, inr, Bool, true, false, if◌then◌else◌, ◌==◌, eq_iff, eqb,
  arith, Bool-cases, ap, ◌∙◌,
}
use kufi_chain.Prelude.Int.{ℤ, pos, unix_milli}
use kufi_chain.Prelude.Action.{Result, ok, err, Result-cases}
use kufi_chain.Fabric.Types.{BlockInfo, TransactionInfo}
use kufi_chain.Fabric.Client.{◌⊕◌}
use kufi_chain.Api.Models.{err_bad_request, err_not_found, err_internal_error}
use kufi_chain.Api.Gateway.Host.{Network}
use kufi_chain.Api.Gateway.Receipts.{Answer, given, failed}
use Prim.Native.String.{len}

pub record ObservePayload : Type 0 where
  pub msp_id : String
  pub tx_id : String
  pub block_number : ℕ
  pub block_hash : String
  pub validation_code : ℤ
  pub observed_at : ℤ

-- strings.TrimSpace, the hash of the payload's JSON, the signature of that hash, and the chaincode's
-- answer to `QueryTransfer`.
pub record Attestor : Type 0 where
  pub trim : String → String
  pub payload_hash : ObservePayload → String
  pub sign : String → Result String String
  pub query_transfer : String → Result String String
  pub cert_fingerprint : String

pub record Observation : Type 0 where
  pub payload : ObservePayload
  pub proof_type : String
  pub payload_hash : String
  pub signature_hex : String
  pub cert_fingerprint : String

-- The payload, where both queries of the ledger succeed; the second one is made after the first.
abbrev pub payload_of :
    Result String BlockInfo → Result String TransactionInfo → ObservePayload → ObservePayload
payload_of (err e) r bare = bare
payload_of (ok block) (err e) bare = bare
payload_of (ok block) (ok info) bare = record bare {
  block_number = block.block_number;
  block_hash = block.block_hash;
  validation_code = info.validation_code;
}

abbrev pub query_payload : Network → String → String → ℤ → ObservePayload
query_payload n msp_id tx_id now =
    payload_of (n.get_block_by_tx_id tx_id) (n.get_transaction_by_id tx_id) (record {
      msp_id = msp_id;
      tx_id = tx_id;
      block_number = 0;
      block_hash = "";
      validation_code = pos 0;
      observed_at = unix_milli now;
    })

-- The details of the error: those of the block's query and of the chaincode's.
abbrev pub details_of : Result String BlockInfo → Result String String → String
details_of (ok b) (ok raw) = ""
details_of (ok b) (err q) = q
details_of (err e) (ok raw) = e
details_of (err e) (err q) = if e == "" then q else e ⊕ " | " ⊕ q

-- `qErr != nil || len(intentRaw) == 0`
abbrev pub is_absent : Result String String → Bool
is_absent (ok raw) = eqb (len raw) 0
is_absent (err e) = true

unfoldable pub sign_payload : Attestor → ObservePayload → Answer Observation
sign_payload a p = elim (a.sign (a.payload_hash p)) [
  | err e ↦
      failed 500
        (record { code = err_internal_error; message = "Failed to sign observation"; details = e })
  | ok signature ↦ given (record {
    payload = p;
    proof_type = if p.block_hash == "" then "state_presence" else "block_commit";
    payload_hash = a.payload_hash p;
    signature_hex = signature;
    cert_fingerprint = a.cert_fingerprint;
  })
]

-- `ObserveTransaction`
unfoldable pub observe_transaction : Attestor → Network → String → ℤ → String → Answer Observation
observe_transaction a n msp_id now param =
    let tx_id = a.trim param in
    let p = query_payload n msp_id tx_id now in
    if tx_id == ""
    then failed 400
        (record { code = err_bad_request; message = "Transaction ID required"; details = "" })
    else if p.block_hash == ""
    then (if is_absent (a.query_transfer tx_id)
        then failed 404 (record {
          code = err_not_found;
          message = "Transaction not found on this node ledger";
          details = details_of (n.get_block_by_tx_id tx_id) (a.query_transfer tx_id);
        })
        else sign_payload a (record p { validation_code = pos 0 }))
    else sign_payload a p

sign_payload-given :
    (a : Attestor) (p : ObservePayload) (o : Observation)
    → sign_payload a p ≡ given o
    → (o.payload ≡ p)
      × (o.payload_hash ≡ a.payload_hash p)
      × (a.sign (a.payload_hash p) ≡ ok o.signature_hex)
      × (o.proof_type ≡ (if p.block_hash == "" then "state_presence" else "block_commit"))
unfolding sign_payload
sign_payload-given a p o e = elim (Result-cases (a.sign (a.payload_hash p))) [
  | inl (signature, good) ↦ (ground arith, ground arith, ground arith, ground arith)
  | inr (bad, failing) ↦ absurd (ground arith)
]

-- What the ledger says of a transaction.
abbrev pub IsCommitted : Network → String → Observation → Type 0
IsCommitted n tx_id o =
    (block : BlockInfo) × (info : TransactionInfo) × (n.get_block_by_tx_id tx_id ≡ ok block)
    × (n.get_transaction_by_id tx_id ≡ ok info)
    × (block.block_hash ≢ "")
    × (o.payload.block_hash ≡ block.block_hash)
    × (o.payload.validation_code ≡ info.validation_code)
    × (o.proof_type ≡ "block_commit")

abbrev pub IsPresent : Attestor → String → Observation → Type 0
IsPresent a tx_id o =
    (raw : String) × (a.query_transfer tx_id ≡ ok raw)
    × (eqb (len raw) 0 ≡ false)
    × (o.payload.block_hash ≡ "")
    × (o.payload.validation_code ≡ pos 0)
    × (o.proof_type ≡ "state_presence")

-- A payload with a block hash is that of a committed transaction.
payload_of-committed :
    (b : Result String BlockInfo) (i : Result String TransactionInfo) (bare : ObservePayload)
    → bare.block_hash ≡ ""
    → ((payload_of b i bare).block_hash == "") ≡ false
    → (block : BlockInfo) × (info : TransactionInfo) × (b ≡ ok block)
      × (i ≡ ok info)
      × ((payload_of b i bare).block_hash ≡ block.block_hash)
      × ((payload_of b i bare).validation_code ≡ info.validation_code)
payload_of-committed (err e) i bare none_yet there =
    absurd (ground (arith, eq_iff bare.block_hash ""))
payload_of-committed (ok block) (err e) bare none_yet there =
    absurd (ground (arith, eq_iff bare.block_hash ""))
payload_of-committed (ok block) (ok info) bare none_yet there =
    (block, info, refl, refl, refl, refl)

-- Every attestation is signed over the payload that it carries, and is either a block commit, with
-- the block hash and the code that the ledger gives, or a state presence, with code 0 and no block
-- hash, for a transfer that the chaincode knows.
pub observe_transaction-given :
    (a : Attestor) (n : Network) (msp_id : String) (now : ℤ) (param : String) (o : Observation)
    → observe_transaction a n msp_id now param ≡ given o
    → (a.sign (a.payload_hash o.payload) ≡ ok o.signature_hex)
      × (IsCommitted n (a.trim param) o ⊎ IsPresent a (a.trim param) o)
unfolding observe_transaction
observe_transaction-given a n msp_id now param o e =
    let tx_id = a.trim param in
    let p = query_payload n msp_id tx_id now in
    elim (Bool-cases (tx_id == "")) [
      | inl empty ↦ absurd (ground arith)
      | inr named ↦ elim (Bool-cases (p.block_hash == "")) [
        | inr hashed ↦
            let (same, hash, signed, kind) = sign_payload-given a p o (ground arith) in
            let (block, info, found, known, x, y) = payload_of-committed _ _ _ refl hashed in
            (
              ap (λ q. a.sign (a.payload_hash q)) same ∙ signed,
              inl (
                block,
                info,
                found,
                known,
                ground (arith, x, eq_iff p.block_hash ""),
                ap (λ q. q.block_hash) same ∙ x,
                ap (λ q. q.validation_code) same ∙ y,
                ground (arith, kind, hashed),
              ),
            )
        | inl unhashed ↦ elim (Result-cases (a.query_transfer tx_id)) [
          | inr (bad, failing) ↦ absurd (ground arith)
          | inl (raw, answered) ↦ elim (Bool-cases (eqb (len raw) 0)) [
            | inl nothing ↦ absurd (ground arith)
            | inr something ↦
                let (same, hash, signed, kind) =
                  sign_payload-given a (record p { validation_code = pos 0 }) o (ground arith) in
                (
                  ap (λ q. a.sign (a.payload_hash q)) same ∙ signed,
                  inr (
                    raw,
                    answered,
                    something,
                    ap (λ q. q.block_hash) same ∙ (eq_iff p.block_hash "").0 unhashed,
                    ap (λ q. q.validation_code) same,
                    ground (arith, kind, unhashed),
                  ),
                )
          ]
        ]
      ]
    ]
