-- ===== src/Api/Gateway/Receipts/Delivered.antt =====
-- The receipt that a transfer delivers, in the store and before the verifier.
use kufi_chain.Prelude.{
  Bool, ◌≡◌, refl, ◌≢◌, ◌↔◌, true, false, some, List, [], arith, subst, eq_iff, eq_refl, eqb,
  length, map, ◌∷◌,
}
use kufi_chain.Prelude.Int.{ℤ, pos}
use kufi_chain.Prelude.Action.{ok}
use kufi_chain.Fabric.Types.{SubmitResult}
use kufi_chain.Receipt.Types.{EndorsementInput, Receipt}
use kufi_chain.Receipt.Host.{Crypto}
use kufi_chain.Receipt.Build.{
  ReceiptBuilder, endorsement_record, assemble, build, compute_commitment_hash,
}
use kufi_chain.Receipt.Verify.{Verifier, verify_receipt}
use kufi_chain.Receipt.Verdict.{policy_outcome}
use kufi_chain.Receipt.Tamper.{build-verify}
use kufi_chain.Api.Models.{TransferRequest, ReceiptDto, VerifyReceiptRequest, VerifyReceiptResponse}
use kufi_chain.Api.Convert.{dto_to_receipt}
use kufi_chain.Api.Convert.RoundTrip.{verify_receipt-receipt_to_dto}
use kufi_chain.Api.Gateway.Host.{Settings, Library, Network, Clock}
use kufi_chain.Api.Gateway.Submit.{
  Storers, Stores, commitment_of, build_input, endorsement_inputs, finish_transfer,
}
use kufi_chain.Api.Gateway.Receipts.{
  Answer, given, failed, verify_receipt_handler, to_response, get_receipt,
}

-- What the answer says.
abbrev pub says_valid : Answer VerifyReceiptResponse → Bool
says_valid (given r) = r.valid
says_valid (failed code e) = false

module _ (c : Crypto) (l : Library) (h : Settings) (n : Network) (s : Storers)
    (rb : ReceiptBuilder) where
  -- The receipt that is made for a submission that has succeeded.
  abbrev pub receipt_of : Clock → TransferRequest → SubmitResult → Receipt
  receipt_of t req r = build c t.at_build rb (build_input c l h n t req r)

  -- The receipt that a transfer with a valid transaction delivers passes the gateway's verifier, for
  -- the commitment hash of the request, exactly when some endorsement was found and the policy or the
  -- fallback accepts it.
  pub verify_receipt_handler-finish_transfer :
      (v : Verifier c.Pool) (t : Clock) (later : ℤ) (req : TransferRequest) (r : SubmitResult)
      (st : Stores s) (d : ReceiptDto)
      → r.validation_code ≡ pos 0
      → (finish_transfer c l h n s rb t req (ok r) st).0.body.receipt ≡ some d
      → let expected = compute_commitment_hash c (commitment_of h req) in
        let asked : VerifyReceiptRequest = record {
          receipt = d;
          expected_commitment_hash = expected;
          verify_on_chain = false;
        } in
        ((says_valid (verify_receipt_handler c v later (ok asked)) ≡ true) ↔ (
          (endorsement_inputs c l h n r ≢ [])
          × (policy_outcome c v later (receipt_of t req r) ≡ true)))
  unfolding finish_transfer verify_receipt_handler to_response build_input
  verify_receipt_handler-finish_transfer v t later req r st d code delivered =
      let expected = compute_commitment_hash c (commitment_of h req) in
      let made = receipt_of t req r in
      let back = verify_receipt-receipt_to_dto c v later made expected in
      let direct =
        build-verify c v t.at_build later rb (build_input c l h n t req r) (commitment_of h req)
          refl refl code in
      subst
        (λ x.
          (verify_receipt c v later (dto_to_receipt x) expected).valid ≡ true
          ↔ ((endorsement_inputs c l h n r ≢ []) × (policy_outcome c v later made ≡ true)))
        (some_injective delivered) (λ e. direct.0 (back.0 e), λ e. back.1 (direct.1 e))
    where
      some_injective : {x y : ReceiptDto} → some x ≡ some y → x ≡ y
      some_injective e = cc

  -- After a transfer that has succeeded, `GetReceipt` of its transaction gives the receipt of the
  -- transfer's answer, and changes nothing, where the receipt has an endorsement.
  pub get_receipt-finish_transfer :
      (n' : Network) (t : Clock) (later : ℤ) (req : TransferRequest) (r : SubmitResult)
      (st : Stores s) (d : ReceiptDto)
      → r.tx_id ≢ ""
      → endorsement_inputs c l h n r ≢ []
      → (finish_transfer c l h n s rb t req (ok r) st).0.body.receipt ≡ some d
      → let after = (finish_transfer c l h n s rb t req (ok r) st).1.receipts in
        get_receipt c s.receipts n' rb later r.tx_id after ≡ (given d, after)
  unfolding finish_transfer get_receipt build assemble build_input
  get_receipt-finish_transfer n' t later req r st d named endorsed delivered =
      let made = receipt_of t req r in
      let found : s.receipts.get r.tx_id (s.receipts.store r.tx_id made st.receipts) ≡ some made =
        ground (arith, s.receipts.get-store r.tx_id r.tx_id made st.receipts, eq_refl r.tx_id) in
      let full : eqb (length made.endorsements) 0 ≡ false =
        nonempty (build_input c l h n t req r).endorsements endorsed in
      ground (arith, eq_iff r.tx_id "", found, full, delivered)
    where
      nonempty :
          (es : List EndorsementInput)
          → es ≢ []
          → eqb (length (map (endorsement_record c rb) es)) 0 ≡ false
      nonempty [] x = absurd (x refl)
      nonempty (e ∷ es) x = ground arith
