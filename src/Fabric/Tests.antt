-- ===== src/Fabric/Tests.antt =====
-- The client on a network that answers the same to everything.
use kufi_chain.Prelude.{
  ℕ, ◌+◌, ◌≤◌, ◌<◌, String, ◌≡◌, refl, ◌↔◌, true, false, not, none, some, List, [], ◌∷◌,
  if◌then◌else◌, arith, All, length, map, eqb, is_some, inr,
}
use kufi_chain.Prelude.Int.{ℤ, pos, ◌≤ℤ◌, leb_ℤ, ltb_ℤ, ◌*ℤ◌}
use kufi_chain.Prelude.Action.{ok, err}
use kufi_chain.Fabric.Types.{TransactionInfo, RetryConfig}
use kufi_chain.Fabric.Host.{Float64, Proto}
use kufi_chain.Fabric.Client.{extract_endorsements, proposal_of}
use kufi_chain.Fabric.Retry.{is_retryable, Weather, attempts_allowed, submit_with_retry}
use kufi_chain.Fabric.Retry.Bounds.{
  AllTransient, submit_with_retry-bounded, submit_with_retry-ok_iff,
}
use kufi_chain.Fabric.Query.{
  QueryProto, Processed, with_endorsements, with_creator, with_channel, info_loop, infos_of,
  parse_processed_transaction,
}
use kufi_chain.Fabric.Endorsers.{info_of, parse_processed_transaction-extract_endorsements}
use kufi_chain.Fabric.Extractor.{VerifiedEndorsement, verify_endorsement_policy, valid_msps}
use kufi_chain.Fabric.Policies.{verify_endorsement_policy-policy_test}
use kufi_chain.Receipt.Verify.{policy_test}
use kufi_chain.Fabric.Submit.{
  Line, submitted, submit_transaction_with_pdc, submit_transaction_with_pdc_again,
}

abbrev smaller : ℤ → ℤ → ℤ
smaller a b = if leb_ℤ a b then a else b

smaller-le : (x m : ℤ) → pos 0 ≤ℤ m → m ≤ℤ pos 9007199254740992 → smaller x m ≤ℤ m
smaller-le x m low high = ground arith

-- Whole numbers in place of floating ones.
abbrev whole : Float64
whole = record {
  Float = ℤ;
  from_int = λ x. x;
  truncate = λ x. x;
  times = ◌*ℤ◌;
  minimum = smaller;
  is_positive = λ x. ltb_ℤ (pos 0) x;
  two = pos 2;
  capped = smaller-le;
}

abbrev thrice : RetryConfig ℤ
thrice = record {
  max_attempts = pos 3;
  initial_backoff = pos 100;
  max_backoff = pos 150;
  backoff_multiplier = pos 2;
}

-- The second attempt succeeds.
abbrev shaky : Weather ℕ
shaky = record {
  acquired = true;
  connected = true;
  attempt = λ n. if eqb n 1 then err "unavailable" else ok 7;
  cancelled = λ n. false;
  context_error = "deadline";
}

submit_with_retry-bounded_example :
    ((submit_with_retry whole (λ s. s) shaky thrice).tries
      ≤ attempts_allowed whole (λ s. s) shaky thrice)
    × (shaky.acquired ≡ true
        → shaky.connected ≡ true
        → 1 ≤ (submit_with_retry whole (λ s. s) shaky thrice).tries)
    × (length (submit_with_retry whole (λ s. s) shaky thrice).waits
        ≤ (submit_with_retry whole (λ s. s) shaky thrice).tries)
    × All (λ t. t ≤ℤ pos 200) (submit_with_retry whole (λ s. s) shaky thrice).waits
submit_with_retry-bounded_example =
    submit_with_retry-bounded whole (λ s. s) shaky thrice 200 (omega arith) (omega arith)
      (omega arith)

submit_with_retry-ok_iff_example :
    ((submit_with_retry whole (λ s. s) shaky thrice).result ≡ ok 7) ↔ (
      (k : ℕ) × (k < attempts_allowed whole (λ s. s) shaky thrice)
      × AllTransient whole (λ s. s) shaky k 1
      × (shaky.attempt (1 + k) ≡ ok 7))
submit_with_retry-ok_iff_example = submit_with_retry-ok_iff whole (λ s. s) shaky thrice 7 refl refl

-- Every message has one endorsement.
abbrev proto : Proto
proto = record {
  Bytes = String;
  envelope_payload = λ b. some b;
  payload_data = λ b. some b;
  transaction_actions = λ b. some (b ∷ []);
  action_endorsements = λ b. some (some ((b, "signature") ∷ []));
  identity = λ b. some ("BankAMSP", "certificate");
}

abbrev processed : Processed String
processed = record { validation_code = pos 0; payload = some "payload" }

abbrev query_proto : QueryProto String
query_proto = record {
  block = λ b. none;
  processed = λ b. some processed;
  is_payload = λ b. true;
  channel_header = λ b. none;
  creator = λ b. none;
  hex = λ s. s;
  asn1_header = λ n p d. d;
  sha256_hex = λ s. s;
}

abbrev committed : TransactionInfo
committed = record {
  tx_id = "t1";
  validation_code = pos 0;
  block_number = 0;
  tx_index = pos 0;
  channel_id = "";
  chaincode_id = "";
  endorsements =
      record { msp_id = "BankAMSP"; signature = "signature"; certificate = "certificate" } ∷ [];
  creator_msp_id = "";
  creator_cert = "";
  timestamp = pos 0;
}

parsed : parse_processed_transaction proto query_proto "bytes" "t1" ≡ some committed
unfolding parse_processed_transaction with_endorsements with_creator with_channel info_loop infos_of
parsed = refl

parse_processed_transaction-extract_endorsements_example :
    committed.endorsements ≡ map info_of (extract_endorsements proto (some "payload"))
parse_processed_transaction-extract_endorsements_example =
    parse_processed_transaction-extract_endorsements proto query_proto "payload" "bytes" "payload"
      "t1" processed committed refl refl refl refl parsed

abbrev endorsed : List (VerifiedEndorsement ℕ)
endorsed =
    record {
      msp_id = "BankAMSP";
      endorser_cert = 1;
      endorser_cert_pem = "";
      signature = "";
      signature_valid = true;
      cert_chain_valid = true;
      endorser_identity = "peer0";
    }
    ∷ []

verify_endorsement_policy-policy_test_example :
    is_some (verify_endorsement_policy endorsed "MAJORITY" ("BankAMSP" ∷ "BankBMSP" ∷ []))
    ≡ not (
        policy_test
          (record {
            kind = "MAJORITY";
            required_msps = "BankAMSP" ∷ "BankBMSP" ∷ [];
            min_endorsers = pos 0;
          })
          (valid_msps endorsed []))
verify_endorsement_policy-policy_test_example =
    verify_endorsement_policy-policy_test endorsed "MAJORITY" ("BankAMSP" ∷ "BankBMSP" ∷ []) (pos 0)
      (inr (inr refl))

-- The orderer takes every transaction, and the status of none is known in time.
abbrev slow : Line String
slow = record {
  acquired = true;
  connected = true;
  round = λ p n. record {
    proposal_error = none;
    endorse_error = none;
    submit_error = none;
    status_error = some "deadline exceeded";
    successful = false;
    code = pos 0;
    block_number = 0;
    tx_id = if eqb n 1 then "t1" else "t2";
    now = pos 0;
    result = "";
    envelope = none;
  };
  cancelled = λ n. false;
  context_error = "";
}

transient : is_retryable (λ s. s) "failed to get commit status: deadline exceeded" ≡ true
unfolding is_retryable
transient = refl

submit_transaction_with_pdc_again_example :
    let tries =
      (submit_transaction_with_pdc whole
        (λ s. s)
        proto
        (λ n. "?")
        thrice
        slow
        "CreateTransferIntent"
        []
        []
        []).tries in
    let round = slow.round (proposal_of "CreateTransferIntent" [] [] []) in
    (2 ≤ tries)
    × ((rest : List String) × (submitted round 1 tries ≡ (round 1).tx_id ∷ (round 2).tx_id ∷ rest))
submit_transaction_with_pdc_again_example =
    submit_transaction_with_pdc_again whole (λ s. s) proto (λ n. "?") thrice slow
      "CreateTransferIntent" [] [] [] "deadline exceeded" refl refl refl refl transient refl
      (omega arith) refl
