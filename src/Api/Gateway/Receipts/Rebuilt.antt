-- ===== src/Api/Gateway/Receipts/Rebuilt.antt =====
-- What a receipt that is rebuilt from the ledger is worth.
use kufi_chain.Prelude.{String, ◌≡◌, ◌≢◌, true, some, arith, ap, sym, ◌∙◌, inl, inr}
use kufi_chain.Prelude.Int.{ℤ, pos, ltb_ℤ, unix_milli}
use kufi_chain.Prelude.Action.{ok, Result-cases}
use kufi_chain.Receipt.Types.{Receipt}
use kufi_chain.Receipt.Host.{Crypto}
use kufi_chain.Receipt.Build.{ReceiptBuilder, assemble, build, hash_data, compute_receipt_hash}
use kufi_chain.Receipt.Verify.{Verifier, verify_receipt}
use kufi_chain.Receipt.Verdict.{verify_receipt-valid_iff}
use kufi_chain.Receipt.Tamper.{Collision}
use kufi_chain.Fabric.Types.{TransactionInfo}
use kufi_chain.Api.Gateway.Host.{Network}
use kufi_chain.Api.Gateway.Receipts.{rebuild_input, restore, rebuild_receipt_from_ledger}

module _ (c : Crypto) where
  rebuild-some :
      (n : Network) (rb : ReceiptBuilder) (now : ℤ) (r r' : Receipt)
      → rebuild_receipt_from_ledger c n rb now r ≡ ok (some r')
      → (info : TransactionInfo) × (r' ≡ restore c r (build c now rb (rebuild_input c r info)))
  unfolding rebuild_receipt_from_ledger
  rebuild-some n rb now r r' e = elim (Result-cases (n.get_transaction_by_id r.tx_id)) [
    | inl (info, found) ↦ (info, ground arith)
    | inr (bad, missing) ↦ absurd (ground arith)
  ]

  -- A receipt that is rebuilt from an old one with an observation, made after the epoch, keeps this
  -- observation, and carries the hash of the observation that the builder has just made: unless both
  -- fall into one millisecond, the verifier rejects it for every expected hash, short of a collision
  -- of SHA-256.
  pub rebuild_receipt_from_ledger-invalid :
      (n : Network) (rb : ReceiptBuilder) (v : Verifier c.Pool) (now later : ℤ) (r r' : Receipt)
      (expected : String)
      → rebuild_receipt_from_ledger c n rb now r ≡ ok (some r')
      → ltb_ℤ (pos 0) r.observation.observed_at ≡ true
      → r.observation.observed_at ≢ unix_milli now
      → (verify_receipt c v later r' expected).valid ≡ true
      → Collision c
  unfolding build assemble compute_receipt_hash
  rebuild_receipt_from_ledger-invalid n rb v now later r r' expected made observed moved valid =
      let (info, e) = rebuild-some n rb now r r' made in
      let fresh = assemble c now rb (rebuild_input c r info) in
      let s = (verify_receipt-valid_iff c v later r' expected).0 valid in
      let kept : r'.observation.observed_at ≡ r.observation.observed_at =
        ap (λ x. x.observation.observed_at) e ∙ ground arith in
      (
        c.json_hash_data (hash_data r'),
        c.json_hash_data (hash_data fresh),
        (λ same.
            moved (
              sym kept
              ∙ ap (λ x. x.observation.observed_at) (c.json_hash_data-injective _ _ same))),
        s.hash_right ∙ ap (λ x. x.receipt_hash) e,
      )
