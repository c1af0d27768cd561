-- ===== src/Fabric/Client.antt =====
-- internal/fabric/client.go: one submission of a transaction, and the endorsements that it carries.
use kufi_chain.Prelude.{
  String, Bool, false, not, Option, none, some, List, [], ◌∷◌, ◌++◌, if◌then◌else◌, ◌==◌, is_some,
  eqb, length,
}
use kufi_chain.Prelude.Int.{ℤ, zero_time}
use kufi_chain.Prelude.Dict.{Dict}
use kufi_chain.Prelude.Action.{Result, ok, err}
use kufi_chain.Fabric.Types.{Endorsement, SubmitResult, Proposal}
use kufi_chain.Fabric.Host.{
  Proto, Detail, error_detail, other_detail, GatewayError, plain, status, Round,
}
use Prim.Native.String
use text.Mathlib.Text.{find?}

infixl 65 ◌⊕◌
abbrev pub ◌⊕◌ : String → String → String
s ⊕ t = String.◌++◌ s t

-- `strings.Contains`
abbrev pub has_text : String → String → Bool
has_text s part = is_some (find? s part)

-- `strings.Join`
unfoldable pub join : List String → String → String
join [] sep = ""
join (s ∷ []) sep = s
join (s ∷ t ∷ rest) sep = s ⊕ sep ⊕ join (t ∷ rest) sep

abbrev parts_of : String → String → String → List String
parts_of msp address message =
    (if msp == "" then [] else ("msp=" ⊕ msp) ∷ [])
    ++ ((if address == "" then [] else ("peer=" ⊕ address) ∷ [])
        ++ (if message == "" then [] else message ∷ []))

-- The loop of `formatGatewayError`.
unfoldable pub detail_messages : List Detail → List String
detail_messages [] = []
detail_messages (error_detail msp address message ∷ ds) =
    (if eqb (length (parts_of msp address message)) 0
      then []
      else join (parts_of msp address message) " " ∷ [])
    ++ detail_messages ds
detail_messages (other_detail text ∷ ds) = text ∷ detail_messages ds

-- `formatGatewayError`
unfoldable pub format_gateway_error : GatewayError → String
format_gateway_error (plain text) = text
format_gateway_error (status message details) =
    let messages = detail_messages details in
    if eqb (length messages) 0 then message else message ⊕ " | " ⊕ join messages " | "

-- The proposal of `SubmitTransactionWithPDC`.
unfoldable pub proposal_of : String → Dict String → List String → List String → Proposal
proposal_of fn transient endorsing_orgs args = record {
  function = fn;
  arguments = args;
  transient = transient;
  endorsing_orgs = if eqb (length endorsing_orgs) 0 then none else some endorsing_orgs;
}

module _ (p : Proto) where
  -- The inner loop of `extractEndorsements`.
  unfoldable pub endorsements_of : List (p.Bytes × String) → List Endorsement
  endorsements_of [] = []
  endorsements_of ((endorser, signature) ∷ es) = elim (p.identity endorser) [
    | none ↦ endorsements_of es
    | some (msp_id, certificate) ↦
        record {
          msp_id = msp_id;
          signature = signature;
          certificate = certificate;
          timestamp = zero_time;
          signature_valid = false;
          cert_chain_valid = false;
        }
        ∷ endorsements_of es
  ]

  -- The outer loop, over the actions.
  unfoldable pub action_loop : List p.Bytes → List Endorsement
  action_loop [] = []
  action_loop (a ∷ actions) = elim (p.action_endorsements a) [
    | none ↦ action_loop actions
    | some none ↦ action_loop actions
    | some (some es) ↦ endorsements_of es ++ action_loop actions
  ]

  unfoldable pub payload_endorsements : p.Bytes → List Endorsement
  payload_endorsements payload = elim (p.payload_data payload) [
    | none ↦ []
    | some txn ↦ elim (p.transaction_actions txn) [ none ↦ [] | some actions ↦ action_loop actions ]
  ]

  -- `extractEndorsements`
  unfoldable pub extract_endorsements : Option p.Bytes → List Endorsement
  extract_endorsements none = []
  extract_endorsements (some envelope) = elim (p.envelope_payload envelope) [
    | none ↦ []
    | some payload ↦ payload_endorsements payload
  ]

  -- The function that `SubmitTransactionWithPDC` hands to `submitWithRetry`; `decimal` is `%d`.
  unfoldable pub submit_once : (ℤ → String) → Round p.Bytes → Result String SubmitResult
  submit_once decimal r = elim r.proposal_error [
    | some e ↦ err ("failed to create proposal: " ⊕ e)
    | none ↦ elim r.endorse_error [
      | some e ↦ err ("failed to endorse: " ⊕ format_gateway_error e)
      | none ↦ elim r.submit_error [
        | some e ↦ err ("failed to submit: " ⊕ e)
        | none ↦ elim r.status_error [
          | some e ↦ err ("failed to get commit status: " ⊕ e)
          | none ↦
              if not r.successful
              then err ("transaction " ⊕ r.tx_id ⊕ " failed with code " ⊕ decimal r.code)
              else ok (record {
                tx_id = r.tx_id;
                block_number = r.block_number;
                validation_code = r.code;
                endorsements = extract_endorsements r.envelope;
                commit_timestamp = r.now;
                payload = r.result;
              })
        ]
      ]
    ]
  ]
