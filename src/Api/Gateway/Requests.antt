-- ===== src/Api/Gateway/Requests.antt =====
-- internal/api/handlers.go: the checks of a transfer request and the choices made for it.
pub mod Transparency
pub mod Freshness
use kufi_chain.Prelude.{
  ℕ, ◌+◌, ◌-◌, ◌/◌, ◌%◌, String, Bool, true, false, not, ◌&&◌, ◌||◌, Option, none, some, List, [],
  ◌∷◌, if◌then◌else◌, ◌==◌, ltb, leb, eqb, length, contains,
}
use kufi_chain.Prelude.Int.{ℤ, pos, negsuc, ◌-ℤ◌, ltb_ℤ, leb_ℤ}
use kufi_chain.Prelude.Dict.{Dict, insert}
use kufi_chain.Fabric.Types.{Endorsement, EndorsementInfo}
use kufi_chain.Fabric.Client.{has_text}
use kufi_chain.Receipt.Types.{EndorsementInput}
use kufi_chain.Prelude.Int.{zero_time}
use kufi_chain.Api.Models.{TransferRequest, TransferResponse}
use kufi_chain.Api.Gateway.Host.{Settings, PrivateData, Library}
use Prim.Native.String.{len}

-- `validateTransferRequest`; `none` is a nil error.
unfoldable pub validate_transfer_request : TransferRequest → Option String
validate_transfer_request req =
    if leb_ℤ req.amount_vnd (pos 0)
    then some "amount must be positive"
    else if req.from_id == req.to_id
    then some "sender and receiver cannot be the same"
    else if eqb (len req.internal_ref) 0
    then some "internal_ref is required"
    else if eqb (len req.idempotency_key) 0
    then some "idempotency_key is required"
    else if ltb (len req.nonce) 16
    then some "nonce must be at least 16 characters"
    else none

-- The wrap-around of int64.
abbrev pub wrap_int64 : ℤ → ℤ
wrap_int64 (pos n) =
    if ltb (n % 18446744073709551616) 9223372036854775808
    then pos (n % 18446744073709551616)
    else negsuc (18446744073709551615 - n % 18446744073709551616)
wrap_int64 (negsuc n) =
    if ltb (n % 18446744073709551616) 9223372036854775808
    then negsuc (n % 18446744073709551616)
    else pos (18446744073709551615 - n % 18446744073709551616)

-- `Duration.Milliseconds`, which rounds towards zero.
abbrev pub milliseconds : ℤ → ℤ
milliseconds (pos n) = pos (n / 1000000)
milliseconds (negsuc n) =
    if eqb ((n + 1) / 1000000) 0 then pos 0 else negsuc ((n + 1) / 1000000 - 1)

-- The time stamp is within the window; `now` is in milliseconds.
unfoldable pub is_fresh : Settings → ℤ → TransferRequest → Bool
is_fresh h now req =
    let time_diff = wrap_int64 (now -ℤ req.timestamp) in
    not (ltb_ℤ time_diff (pos 0) || ltb_ℤ (milliseconds h.nonce_window) time_diff)

-- `determinePolicyID`
unfoldable pub determine_policy_id : Settings → TransferRequest → String
determine_policy_id h req =
    if leb_ℤ h.high_risk_threshold req.amount_vnd then "high_risk" else "inter_bank_standard"

-- The choice of the collection in `SubmitTransfer`.
unfoldable pub collection_name : Settings → TransferRequest → String
collection_name h req =
    if leb_ℤ h.high_risk_threshold req.amount_vnd
    then (if h.regulator == "" then "collectionHighRisk" else h.regulator)
    else (if h.inter_bank == "" then "collectionInterBank" else h.inter_bank)

-- `privateData`
abbrev pub private_data_of : TransferRequest → PrivateData
private_data_of req = record {
  from_id = req.from_id;
  to_id = req.to_id;
  amount_vnd = req.amount_vnd;
  memo = req.memo;
  internal_ref = req.internal_ref;
  timestamp = req.timestamp;
}

-- `transientData`
unfoldable pub transient_data : Settings → Library → TransferRequest → Dict String
transient_data h l req = (collection_name h req, l.json_private (private_data_of req)) ∷ []

-- The loop of `selectTransparencyEndorsingOrgs`; the orgs seen are those taken.
unfoldable pub distinct_orgs : List String → List String → List String
distinct_orgs seen [] = []
distinct_orgs seen (org ∷ rest) =
    let skipped = distinct_orgs seen rest in
    let taken = distinct_orgs (org ∷ seen) rest in
    if org == "" then skipped else if contains org seen then skipped else org ∷ taken

-- `orgs[:2]`; Go would panic on fewer than two.
abbrev pub first_two : List String → List String
first_two [] = []
first_two (a ∷ []) = a ∷ []
first_two (a ∷ b ∷ rest) = a ∷ b ∷ []

-- `selectTransparencyEndorsingOrgs`
unfoldable pub select_transparency_endorsing_orgs : Settings → List String
unfolding distinct_orgs
select_transparency_endorsing_orgs h =
    first_two (distinct_orgs [] (h.msp_id ∷ "TechcombankMSP" ∷ "VietcombankMSP" ∷ "TaxMSP" ∷ []))

-- The loop of `isTransparencyPolicyMet`: the distinct MSPs, and whether one is not the origin.
unfoldable pub tally : String → List Endorsement → Dict Bool → Bool → Dict Bool × Bool
tally origin [] distinct has_independent = (distinct, has_independent)
tally origin (e ∷ es) distinct has_independent =
    if e.msp_id == ""
    then tally origin es distinct has_independent
    else tally origin es (insert e.msp_id true distinct)
        (if e.msp_id == origin then has_independent else true)

-- `isTransparencyPolicyMet`
unfoldable pub is_transparency_policy_met : Settings → List Endorsement → Bool
is_transparency_policy_met h endorsements =
    if eqb (length endorsements) 0
    then false
    else (let (distinct, has_independent) = tally h.msp_id endorsements [] false in
        leb 2 (length distinct) && has_independent)

-- `isMissingCollectionError`, of an error that is not nil.
unfoldable pub is_missing_collection_error : Library → String → Bool
is_missing_collection_error l message =
    has_text (l.to_lower message) "collection" && has_text (l.to_lower message) "could not be found"

-- `isMissingEndorsingPeerError`, likewise.
unfoldable pub is_missing_endorsing_peer_error : Library → String → Bool
is_missing_endorsing_peer_error l message =
    has_text (l.to_lower message) "failed to find any endorsing peers"

-- The loop of `appendCommittedEndorsements`.
unfoldable pub committed_inputs : List EndorsementInfo → List EndorsementInput
committed_inputs [] = []
committed_inputs (e ∷ es) =
    record {
      msp_id = e.msp_id;
      endorser_id = "";
      cert_pem = e.certificate;
      signature = e.signature;
      timestamp = zero_time;
      signature_valid = false;
      cert_chain_valid = false;
    }
    ∷ committed_inputs es

-- The loop of `appendSubmittedEndorsements`.
unfoldable pub submitted_inputs : List Endorsement → List EndorsementInput
submitted_inputs [] = []
submitted_inputs (e ∷ es) =
    record {
      msp_id = e.msp_id;
      endorser_id = "";
      cert_pem = e.certificate;
      signature = e.signature;
      timestamp = e.timestamp;
      signature_valid = e.signature_valid;
      cert_chain_valid = e.cert_chain_valid;
    }
    ∷ submitted_inputs es
