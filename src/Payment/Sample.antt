-- ===== src/Payment/Sample.antt =====
-- A small ledger of the payment chaincode, for the runs.
use kufi_chain.Prelude.{String, refl, true, false, none, some, []}
use kufi_chain.Prelude.Int.{ℤ}
use kufi_chain.Prelude.Dict.{Dict}
use kufi_chain.Payment.Types.{TransferIntent, TransferDetails, Value}
use kufi_chain.Payment.Host.{Json, Ledger, Tx}

-- Documents that carry what they encode.
pub data Doc : Type 0 where
  intent_doc : TransferIntent → Doc
  details_doc : TransferDetails → Doc
  map_doc : Dict (Value ℤ) → Doc
  blank : Doc

abbrev pub json : Json
json = record {
  Bytes = Doc;
  Float = ℤ;
  truncate = λ x. x;
  marshal_intent = intent_doc;
  unmarshal_intent = λ d. elim d [ intent_doc i ↦ some i | _ ↦ none ];
  marshal_details = details_doc;
  unmarshal_map = λ d. elim d [ map_doc m ↦ some m | _ ↦ none ];
  is_empty = λ d. elim d [ blank ↦ true | _ ↦ false ];
  empty_array = blank;
  marshal_array = λ ds. blank;
  unmarshal-marshal = λ i. refl;
}

abbrev pub tx : String → String → ℤ → Dict Doc → Tx Doc
tx id msp seconds transient = record {
  tx_id = id;
  client_msp = some msp;
  timestamp = some (record { seconds = seconds; nanos = 7000000 });
  transient = some transient;
  get_state_fails = λ k. false;
  put_state_fails = λ k. false;
  get_private_fails = λ c k. false;
  put_private_fails = λ c k. false;
  set_event_fails = false;
  query_result = λ q. none;
}

abbrev pub empty : Ledger Doc
empty = record { state = []; private_data = []; event = none }
