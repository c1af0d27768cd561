-- ===== src/Api/Gateway/Submit.antt =====
-- internal/api/handlers.go: `SubmitTransfer`.
use kufi_chain.Prelude.{
  ℕ, String, true, false, none, some, List, [], ◌∷◌, ◌++◌, if◌then◌else◌, eqb, length,
}
use kufi_chain.Prelude.Int.{ℤ, pos, unix_milli}
use kufi_chain.Prelude.Dict.{Dict}
use kufi_chain.Prelude.Action.{Result, ok, err}
use kufi_chain.Fabric.Types.{SubmitResult}
use kufi_chain.Receipt.Types.{TransferCommitment, Receipt, BuildInput, EndorsementInput}
use kufi_chain.Receipt.Host.{Crypto}
use kufi_chain.Receipt.Build.{ReceiptBuilder, compute_commitment_hash, build}
use kufi_chain.Api.Models.{
  TransferRequest, TransferResponse, err_bad_request, err_validation_failed, err_replay_detected,
  err_fabric_error,
}
use kufi_chain.Api.Convert.{receipt_to_dto}
use kufi_chain.Api.Stores.{NonceStorer, IdempotencyStorer, ReceiptStorer}
use kufi_chain.Api.Gateway.Host.{ClientCall, Settings, Library, Network, Clock}
use kufi_chain.Api.Gateway.Requests.{
  validate_transfer_request, is_fresh, determine_policy_id, transient_data,
  select_transparency_endorsing_orgs, is_transparency_policy_met, is_missing_collection_error,
  is_missing_endorsing_peer_error, committed_inputs, submitted_inputs,
}

-- A status code and the body.
pub record Reply : Type 0 where
  pub code : ℕ
  pub body : TransferResponse

-- `respondError`
abbrev pub respond_error : ℕ → String → String → String → ℤ → Reply
respond_error code error_code message details now = record {
  code = code;
  body = record {
    success = false;
    tx_id = "";
    receipt = none;
    error = some (record { code = error_code; message = message; details = details });
    processed_at = unix_milli now;
  };
}

abbrev pub respond_receipt : Receipt → String → ℤ → Reply
respond_receipt r tx_id now = record {
  code = 200;
  body = record {
    success = true;
    tx_id = tx_id;
    receipt = some (receipt_to_dto r);
    error = none;
    processed_at = unix_milli now;
  };
}

-- The commitment of a request.
unfoldable pub commitment_of : Settings → TransferRequest → TransferCommitment
commitment_of h req = record {
  channel_id = h.channel_name;
  chaincode_id = h.chaincode_name;
  function = "CreateTransferIntent";
  from_id = req.from_id;
  to_id = req.to_id;
  amount_vnd = req.amount_vnd;
  internal_ref = req.internal_ref;
  timestamp = req.timestamp;
  nonce = req.nonce;
}

-- The three stores of a `Handler`.
pub record Storers : Type 1 where
  pub nonces : NonceStorer
  pub keys : IdempotencyStorer Receipt
  pub receipts : ReceiptStorer Receipt

module _ (s : Storers) where
  pub record Stores : Type 0 where
    pub nonces : s.nonces.State
    pub keys : s.keys.State
    pub receipts : s.receipts.State

  -- What the part of `SubmitTransfer` before the submission comes to.
  pub data Gate : Type 0 where
    answered : Reply → Gate
    passed : TransferRequest → Stores → Gate

  -- That part. `bound` is what `ShouldBindJSON` makes of the body.
  unfoldable pub admit_transfer : Settings → Clock → Result String TransferRequest → Stores → Gate
  admit_transfer h t bound st = elim bound [
    | err e ↦ answered (respond_error 400 err_bad_request "Invalid request body" e t.at_reply)
    | ok req ↦ elim (validate_transfer_request req) [
      | some e ↦ answered (respond_error 400 err_validation_failed "Validation failed" e t.at_reply)
      | none ↦ elim (s.keys.get t.at_get req.idempotency_key st.keys) [
        | some existing ↦ answered (respond_receipt existing existing.tx_id t.at_reply)
        | none ↦
            if s.nonces.exists t.at_exists req.nonce st.nonces
            then answered (
                respond_error 409 err_replay_detected "Replay detected" "Nonce already used"
                  t.at_reply)
            else if is_fresh h (unix_milli t.at_check) req
            then passed req (record st { nonces = s.nonces.add req.nonce t.at_add st.nonces })
            else answered (
                respond_error 400 err_replay_detected "Request expired or future timestamp" ""
                  t.at_reply)
      ]
    ]
  ]

-- The result of a call of the client, beside the calls made so far.
abbrev pub Attempt : Type 0
Attempt = Result String SubmitResult × List ClientCall

module _ (c : Crypto) (l : Library) (h : Settings) (n : Network) where
  abbrev pub creating_call : TransferRequest → Dict String → List String → ClientCall
  creating_call req transient orgs = record {
    function = "CreateTransferIntent";
    transient = transient;
    endorsing_orgs = orgs;
    arguments =
        compute_commitment_hash c (commitment_of h req)
        ∷ req.internal_ref
        ∷ determine_policy_id h req
        ∷ [];
  }

  -- One call of `SubmitTransactionWithPDC` by the handler, whatever the client makes of it.
  unfoldable pub submit_to : TransferRequest → Dict String → List String → List ClientCall → Attempt
  submit_to req transient orgs before =
      let p = creating_call req transient orgs in (n.submit (length before) p, before ++ p ∷ [])

  -- The first call, and the second where the endorsing peers are missing; with the orgs of the last.
  unfoldable pub submit_orgs : TransferRequest → Attempt × List String
  submit_orgs req =
      let orgs = select_transparency_endorsing_orgs h in
      let first = submit_to req (transient_data h l req) orgs [] in
      let again = submit_to req (transient_data h l req) (h.msp_id ∷ []) first.1 in
      elim first.0 [
        | ok r ↦ (first, orgs)
        | err e ↦
            if is_missing_endorsing_peer_error l e then (again, h.msp_id ∷ []) else (first, orgs)
      ]

  -- All of them: the last one, where the collection is missing, has no private data.
  unfoldable pub submit_all : TransferRequest → Attempt
  submit_all req =
      let (attempt, orgs) = submit_orgs req in
      let bare = submit_to req [] orgs attempt.1 in
      elim attempt.0 [
        | ok r ↦ attempt
        | err e ↦ if is_missing_collection_error l e then bare else attempt
      ]

  -- The block hash of the receipt.
  unfoldable pub block_hash_of : String → SubmitResult → String
  block_hash_of hash r = elim (n.get_block_by_tx_id r.tx_id) [
    | ok b ↦ b.block_hash
    | err e ↦ l.fallback_hash r.block_number r.tx_id hash
  ]

  -- The endorsements of the receipt, and its index.
  unfoldable pub endorsement_inputs : SubmitResult → List EndorsementInput
  endorsement_inputs r = elim (n.get_transaction_by_id r.tx_id) [
    | err e ↦ submitted_inputs r.endorsements
    | ok info ↦
        if eqb (length (committed_inputs info.endorsements)) 0
        then submitted_inputs r.endorsements
        else committed_inputs info.endorsements
  ]

  unfoldable pub tx_index_of : SubmitResult → ℤ
  tx_index_of r = elim (n.get_transaction_by_id r.tx_id) [ err e ↦ pos 0 | ok info ↦ info.tx_index ]

  -- `buildInput`
  unfoldable pub build_input : Clock → TransferRequest → SubmitResult → BuildInput
  build_input t req r = record {
    tx_id = r.tx_id;
    commitment_hash = compute_commitment_hash c (commitment_of h req);
    commitment_opening = some (commitment_of h req);
    block_number = r.block_number;
    block_hash = block_hash_of (compute_commitment_hash c (commitment_of h req)) r;
    tx_index = tx_index_of r;
    validation_code = r.validation_code;
    endorsements = endorsement_inputs r;
    origin_msp_id = h.msp_id;
    policy_id = determine_policy_id h req;
    policy_met = is_transparency_policy_met h r.endorsements;
    internal_ref = req.internal_ref;
    client_submit_time = t.at_submit;
    endorsement_time = r.commit_timestamp;
    commit_time = r.commit_timestamp;
  }

  module _ (s : Storers) (rb : ReceiptBuilder) where
    -- What is left after the submission.
    unfoldable pub finish_transfer :
        Clock → TransferRequest → Result String SubmitResult → Stores s → Reply × Stores s
    finish_transfer t req result st = elim result [
      | err e ↦ (respond_error 500 err_fabric_error "Failed to submit transaction" e t.at_reply, st)
      | ok r ↦
          let made = build c t.at_build rb (build_input t req r) in
          (
            respond_receipt made r.tx_id t.at_reply,
            record st {
              receipts = s.receipts.store r.tx_id made st.receipts;
              keys = s.keys.store t.at_store req.idempotency_key made st.keys;
            },
          )
    ]

    -- `SubmitTransfer`, with the calls of the client that it has made.
    unfoldable pub submit_transfer :
        Clock → Result String TransferRequest → Stores s → Reply × Stores s × List ClientCall
    submit_transfer t bound st = elim (admit_transfer s h t bound st) [
      | answered reply ↦ (reply, st, [])
      | passed req st' ↦
          let (result, made) = submit_all req in
          let (reply, st'') = finish_transfer t req result st' in (reply, st'', made)
    ]
