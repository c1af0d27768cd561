-- ===== src/Payment/Queries.antt =====
-- The functions of `PaymentContract` that only read. They return the ledger with their answer so
-- that it is a theorem that they leave it alone.
use kufi_chain.Prelude.{String, Bool, not, Option, none, some, List, [], ◌∷◌, ◌==◌}
use kufi_chain.Prelude.Dict.{lookup}
use kufi_chain.Prelude.Action.{pure, gets, or_raise, raise_if, ◌>>=◌, ◌>>◌}
use kufi_chain.Payment.Types.{allowed_status, sanitize_query_input}
use Prim.Native.String
use kufi_chain.Payment.Host.{Json, Tx}
use kufi_chain.Payment.Contract.{
  get_state_failed, not_found, get_private_failed, details_not_found, invalid_status, query_failed,
  next_failed, Call, get_state, load_intent,
}

infixl 65 ◌⊕◌
abbrev ◌⊕◌ : String → String → String
s ⊕ t = String.◌++◌ s t

-- The two rich queries, as CouchDB selectors.
unfoldable pub status_query : String → String
status_query status =
    "{\"selector\":{\"docType\":\"transferIntent\",\"status\":\"" ⊕ status ⊕ "\"}}"

unfoldable pub internal_ref_query : String → String
internal_ref_query internal_ref =
    "{\"selector\":{\"docType\":\"transferIntent\",\"internalRef\":\"" ⊕ internal_ref ⊕ "\"}}"

module _ (j : Json) where
  -- `QueryTransfer`
  unfoldable pub query_transfer : Tx j.Bytes → String → Call j.Bytes j.Bytes
  unfolding get_state
  query_transfer t tx_id = do found ← get_state t tx_id get_state_failed; or_raise found not_found

  -- `QueryTransferDetails`
  unfoldable pub query_transfer_details : Tx j.Bytes → String → String → Call j.Bytes j.Bytes
  query_transfer_details t collection tx_id = do
    raise_if (t.get_private_fails collection tx_id) get_private_failed
    found ←
        gets
          (λ s. elim (lookup collection s.private_data) [ none ↦ none | some m ↦ lookup tx_id m ])
    or_raise found details_not_found

  -- The loop over the result iterator: `none` in the list is an error of `Next`.
  unfoldable pub collect : List (Option j.Bytes) → Option (List j.Bytes)
  collect [] = some []
  collect (none ∷ rs) = none
  collect (some v ∷ rs) = elim (collect rs) [ none ↦ none | some vs ↦ some (v ∷ vs) ]

  abbrev array_of : List j.Bytes → j.Bytes
  array_of [] = j.empty_array
  array_of (v ∷ vs) = j.marshal_array (v ∷ vs)

  run_query : Tx j.Bytes → String → Call j.Bytes j.Bytes
  unfolding collect
  run_query t query = do
    answer ← or_raise (t.query_result query) query_failed
    results ← or_raise (collect answer) next_failed
    pure (array_of results)

  -- `QueryTransfersByStatus`
  unfoldable pub query_transfers_by_status : Tx j.Bytes → String → Call j.Bytes j.Bytes
  unfolding run_query allowed_status status_query
  query_transfers_by_status t status = do
    raise_if (not (allowed_status status)) invalid_status
    run_query t (status_query status)

  -- `QueryTransfersByInternalRef`
  unfoldable pub query_transfers_by_internal_ref : Tx j.Bytes → String → Call j.Bytes j.Bytes
  unfolding run_query sanitize_query_input internal_ref_query
  query_transfers_by_internal_ref t internal_ref =
      run_query t (internal_ref_query (sanitize_query_input internal_ref))

  -- `VerifyCommitmentHash`
  unfoldable pub verify_commitment_hash : Tx j.Bytes → String → String → Call j.Bytes Bool
  unfolding load_intent
  verify_commitment_hash t tx_id commitment_hash = do
    intent ← load_intent j t tx_id
    pure (intent.commitment_hash == commitment_hash)
