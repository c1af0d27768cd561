-- ===== src/Api/Convert/RoundTrip.antt =====
-- A receipt that goes out as a DTO and comes back.
use kufi_chain.Prelude.{String, ◌≡◌, refl, ◌↔◌, true, Option, none, some, List, [], ◌∷◌, ap}
use kufi_chain.Prelude.Int.{ℤ}
use kufi_chain.Receipt.Types.{TransferCommitment, EndorsementRecord, Receipt}
use kufi_chain.Receipt.Host.{Crypto}
use kufi_chain.Receipt.Verify.{Verifier, verify_receipt}
use kufi_chain.Receipt.Tamper.{verify_receipt-edited}
use kufi_chain.Api.Convert.{
  opening_to_dto, dto_to_opening, endorsements_to_dto, dto_to_endorsements, receipt_to_dto,
  dto_to_receipt,
}

dto_to_opening-opening_to_dto :
    (o : Option TransferCommitment) → dto_to_opening (opening_to_dto o) ≡ o
dto_to_opening-opening_to_dto none = refl
dto_to_opening-opening_to_dto (some o) = refl

dto_to_endorsements-endorsements_to_dto :
    (es : List EndorsementRecord) → dto_to_endorsements (endorsements_to_dto es) ≡ es
unfolding endorsements_to_dto dto_to_endorsements
dto_to_endorsements-endorsements_to_dto [] = refl
dto_to_endorsements-endorsements_to_dto (e ∷ es) =
    ap (λ rest. e ∷ rest) (dto_to_endorsements-endorsements_to_dto es)

-- A receipt comes back from its DTO as it was, but for its signature, which the DTO does not carry.
pub dto_to_receipt-receipt_to_dto :
    (r : Receipt) → dto_to_receipt (receipt_to_dto r) ≡ record r { receipt_signature = "" }
unfolding receipt_to_dto dto_to_receipt
dto_to_receipt-receipt_to_dto r =
    rw
      (
        dto_to_opening-opening_to_dto r.commitment_opening,
        dto_to_endorsements-endorsements_to_dto r.endorsements,
      )
      refl

module _ (c : Crypto) where
  -- The verifier judges what comes back from the DTO as it judges the receipt itself.
  pub verify_receipt-receipt_to_dto :
      (v : Verifier c.Pool) (now : ℤ) (r : Receipt) (expected : String)
      → ((verify_receipt c v now (dto_to_receipt (receipt_to_dto r)) expected).valid ≡ true)
        ↔ ((verify_receipt c v now r expected).valid ≡ true)
  verify_receipt-receipt_to_dto v now r expected = rw (dto_to_receipt-receipt_to_dto r) (
      verify_receipt-edited c v now r expected r.chaincode_id r.validation_code_name
        r.status_endpoint r.internal_ref "" r.tx_index)
