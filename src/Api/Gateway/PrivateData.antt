-- ===== src/Api/Gateway/PrivateData.antt =====
-- The private data of a transfer on its way from the gateway to the collection: the map that
-- `SubmitTransfer` marshals, and `processPrivateData` of the payment chaincode.
mod Tests
use kufi_chain.Prelude.{String, ◌≡◌, eq_iff, true, false, none, some, [], ◌∷◌, arith, ap, ◌∙◌}
use kufi_chain.Prelude.Int.{ℤ, pos, ◌≤ℤ◌}
use kufi_chain.Prelude.Dict.{Dict, lookup}
use kufi_chain.Payment.Types.{TransferDetails, Value, text, float64}
use kufi_chain.Payment.Host.{Json}
use kufi_chain.Payment.Contract.{policy_collection, first_non_empty, pick_private, put_private_data}
use kufi_chain.Api.Models.{TransferRequest}
use kufi_chain.Api.Gateway.Host.{PrivateData, Settings, Library}
use kufi_chain.Api.Gateway.Requests.{
  determine_policy_id, collection_name, private_data_of, transient_data,
}

-- encoding/json between the two programs, on one private data: the map is marshalled with its keys in their order, and reads
-- back with its texts as texts and its numbers as floating ones, which are exact up to 2^53.
pub record Wired (l : Library) (j : Json) (encode : String → j.Bytes) (d : PrivateData)
    : Type 0 where
  pub number : ℤ → j.Float
  pub exact : (x : ℤ) → pos 0 ≤ℤ x → x ≤ℤ pos 9007199254740992 → j.truncate (number x) ≡ x
  pub nonempty : j.is_empty (encode (l.json_private d)) ≡ false
  pub decodes :
      j.unmarshal_map (encode (l.json_private d))
      ≡ some (
          ("amount_vnd", float64 (number d.amount_vnd))
          ∷ ("from_id", text d.from_id)
          ∷ ("internal_ref", text d.internal_ref)
          ∷ ("memo", text d.memo)
          ∷ ("timestamp", float64 (number d.timestamp))
          ∷ ("to_id", text d.to_id)
          ∷ [])

-- The details of a request, in the transaction of an organisation.
abbrev pub details_of : String → String → TransferRequest → TransferDetails
details_of tx_id creator req = record {
  doc_type = "transferDetails";
  tx_id = tx_id;
  from_id = req.from_id;
  to_id = req.to_id;
  amount_vnd = req.amount_vnd;
  memo = req.memo;
  internal_ref = req.internal_ref;
  timestamp = req.timestamp;
  sender_msp = creator;
  receiver_msp = "";
}

-- A number that a float64 holds exactly.
abbrev pub IsExact : ℤ → Type 0
IsExact x = (pos 0 ≤ℤ x) × (x ≤ℤ pos 9007199254740992)

module _ (l : Library) (h : Settings) where
  -- The transient map, with the bytes that the chaincode sees.
  abbrev pub encoded : {Bytes : Type 0} → (String → Bytes) → Dict String → Dict Bytes
  encoded encode [] = []
  encoded encode ((name, value) ∷ rest) = (name, encode value) ∷ encoded encode rest

  -- Whatever the configuration calls its collections, the chaincode takes the private data of the
  -- gateway, under the gateway's name for the collection; `encode` makes bytes of its text, which is
  -- not empty.
  pub pick_private-transient_data :
      (j : Json) (encode : String → j.Bytes) (req : TransferRequest) (creator : String)
      → j.is_empty (encode (l.json_private (private_data_of req))) ≡ false
      → pick_private j
          (policy_collection (determine_policy_id h req) creator)
          (encoded encode (transient_data h l req))
        ≡ some (collection_name h req, encode (l.json_private (private_data_of req)))
  unfolding transient_data pick_private first_non_empty lookup
  pick_private-transient_data j encode req creator full = ground (
    arith,
    eq_iff (collection_name h req) (policy_collection (determine_policy_id h req) creator),
  )
