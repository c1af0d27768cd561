-- ===== src/Receipt/Tamper.antt =====
-- What the receipt hash protects, and what it does not.
use kufi_chain.Prelude.{
  String, ◌≡◌, refl, ◌≢◌, ◌⊎◌, ◌↔◌, inl, inr, true, some, List, [], ◌∷◌, ap, sym, ◌∙◌, map,
}
use kufi_chain.Prelude.Int.{ℤ, pos}
use kufi_chain.Receipt.Types.{TransferCommitment, EndorsementInput, Receipt, BuildInput}
use kufi_chain.Receipt.Host.{Crypto}
use kufi_chain.Receipt.Build.{
  compute_commitment_hash, compute_receipt_hash, ReceiptBuilder, build, assemble, hash_data,
  endorsement_record,
}
use kufi_chain.Receipt.Verify.{Verifier, verify_receipt, can_trust_ledger_validation_fallback}
use kufi_chain.Receipt.Verdict.{policy_outcome, verify_receipt-valid_iff}

module _ (c : Crypto) where
  -- Two byte strings with one SHA-256 hash.
  abbrev pub Collision : Type 0
  Collision = (x : c.Bytes) × (y : c.Bytes) × (x ≢ y) × (c.sha256_hex x ≡ c.sha256_hex y)

  -- Two receipts that carry the same receipt hash, pass the verifier and differ in anything that is
  -- hashed exhibit a collision of SHA-256: short of one, an edit of a hashed field that keeps the
  -- receipt hash makes the receipt invalid.
  pub verify_receipt-binds :
      (v v' : Verifier c.Pool) (now now' : ℤ) (r r' : Receipt) (expected expected' : String)
      → (verify_receipt c v now r expected).valid ≡ true
      → (verify_receipt c v' now' r' expected').valid ≡ true
      → r.receipt_hash ≡ r'.receipt_hash
      → hash_data r ≢ hash_data r'
      → Collision
  unfolding compute_receipt_hash
  verify_receipt-binds v v' now now' r r' expected expected' a b same differ =
      let s = (verify_receipt-valid_iff c v now r expected).0 a in
      let s' = (verify_receipt-valid_iff c v' now' r' expected').0 b in
      (
        c.json_hash_data (hash_data r),
        c.json_hash_data (hash_data r'),
        (λ e. differ (c.json_hash_data-injective _ _ e)),
        s.hash_right ∙ same ∙ sym s'.hash_right,
      )

  -- Two different transfers that both pass as the opening of one commitment hash exhibit a collision
  -- of SHA-256.
  pub commitment_binds :
      (v v' : Verifier c.Pool) (now now' : ℤ) (r r' : Receipt) (hash : String)
      (o o' : TransferCommitment)
      → hash ≢ ""
      → (verify_receipt c v now r hash).valid ≡ true
      → (verify_receipt c v' now' r' hash).valid ≡ true
      → r.commitment_opening ≡ some o
      → r'.commitment_opening ≡ some o'
      → o ≢ o'
      → Collision
  unfolding compute_commitment_hash
  commitment_binds v v' now now' r r' hash o o' given a b opening opening' differ =
      let s = (verify_receipt-valid_iff c v now r hash).0 a in
      let s' = (verify_receipt-valid_iff c v' now' r' hash).0 b in
      (
        c.json_commitment o,
        c.json_commitment o',
        (λ e. differ (c.json_commitment-injective _ _ e)),
        s.opens o opening
            ∙ expected r s.as_expected
            ∙ sym (expected r' s'.as_expected)
            ∙ sym (s'.opens o' opening'),
      )
    where
      expected : (x : Receipt) → (hash ≡ "") ⊎ (x.commitment_hash ≡ hash) → x.commitment_hash ≡ hash
      expected x (inl e) = absurd (given e)
      expected x (inr e) = e

  -- What the builder makes carries the hash that the verifier computes.
  pub build-hash :
      (now : ℤ) (rb : ReceiptBuilder) (input : BuildInput)
      → compute_receipt_hash c (build c now rb input) ≡ (build c now rb input).receipt_hash
  unfolding build compute_receipt_hash
  build-hash now rb input = refl

  -- A receipt that is built from a committed transaction with its opening is valid for its own
  -- commitment hash exactly when it has an endorsement and the policy or the fallback accepts it.
  pub build-verify :
      (v : Verifier c.Pool) (now later : ℤ) (rb : ReceiptBuilder) (input : BuildInput)
      (o : TransferCommitment)
      → input.commitment_opening ≡ some o
      → input.commitment_hash ≡ compute_commitment_hash c o
      → input.validation_code ≡ pos 0
      → ((verify_receipt c v later (build c now rb input) input.commitment_hash).valid ≡ true)
        ↔ ((input.endorsements ≢ []) × (policy_outcome c v later (build c now rb input) ≡ true))
  unfolding build assemble
  build-verify v now later rb input o opening hash code =
      let r = build c now rb input in
      let iff = verify_receipt-valid_iff c v later r input.commitment_hash in
      (
        λ e.
            let s = iff.0 e in
            (
              (λ none_there. s.endorsed (ap (map (endorsement_record c rb)) none_there)),
              s.policy_ok,
            ),
        λ (endorsed, accepted). iff.1 (record {
          hash_right = build-hash now rb input;
          as_expected = inr refl;
          opens =
              λ x ex. ap (compute_commitment_hash c) (some_injective (sym ex ∙ opening)) ∙ sym hash;
          code_valid = code;
          policy_ok = accepted;
          endorsed = λ e. endorsed (map_nil input.endorsements e);
        }),
      )
    where
      some_injective : {x y : TransferCommitment} → some x ≡ some y → x ≡ y
      some_injective e = cc

      map_nil : (es : List EndorsementInput) → map (endorsement_record c rb) es ≡ [] → es ≡ []
      map_nil [] e = refl
      map_nil (x ∷ es) e = cc

  -- A receipt whose chaincode, index, name of the code, endpoint, reference and signature have been
  -- replaced.
  abbrev pub edited : Receipt → String → String → String → String → String → ℤ → Receipt
  edited r chaincode name endpoint ref signature index = record r {
    chaincode_id = chaincode;
    tx_index = index;
    validation_code_name = name;
    status_endpoint = endpoint;
    internal_ref = ref;
    receipt_signature = signature;
  }

  -- The hash does not cover the chaincode, the index, the name of the code, the endpoint, the
  -- reference or the signature: no edit of these changes whether the verifier calls it valid.
  pub verify_receipt-edited :
      (v : Verifier c.Pool) (now : ℤ) (r : Receipt) (expected : String)
      (chaincode name endpoint ref signature : String) (index : ℤ)
      → ((verify_receipt c v now
            (edited r chaincode name endpoint ref signature index)
            expected).valid
          ≡ true)
        ↔ ((verify_receipt c v now r expected).valid ≡ true)
  unfolding compute_receipt_hash can_trust_ledger_validation_fallback
  verify_receipt-edited v now r expected chaincode name endpoint ref signature index =
      let e = edited r chaincode name endpoint ref signature index in
      let iff = verify_receipt-valid_iff c v now r expected in
      let iff' = verify_receipt-valid_iff c v now e expected in
      (
        λ h.
            let s = iff'.0 h in
            iff.1 (record {
              hash_right = s.hash_right;
              as_expected = s.as_expected;
              opens = s.opens;
              code_valid = s.code_valid;
              policy_ok = s.policy_ok;
              endorsed = s.endorsed;
            }),
        λ h.
            let s = iff.0 h in
            iff'.1 (record {
              hash_right = s.hash_right;
              as_expected = s.as_expected;
              opens = s.opens;
              code_valid = s.code_valid;
              policy_ok = s.policy_ok;
              endorsed = s.endorsed;
            }),
      )
