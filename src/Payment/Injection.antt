-- ===== src/Payment/Injection.antt =====
-- The rich queries of the payment chaincode are built by pasting text into a CouchDB selector.
use kufi_chain.Prelude.{ℕ, ◌≤◌, String, ◌≡◌, refl, ◌≢◌, inl, inr, true, arith, Bool-cases, eq_iff}
use kufi_chain.Prelude.Action.{err}
use kufi_chain.Payment.Types.{
  is_safe, sanitize_query_input, status_pending, status_settled, status_cancelled, status_failed,
}
use kufi_chain.Payment.Host.{Json, Ledger, Tx}
use kufi_chain.Payment.Contract.{invalid_status}
use kufi_chain.Payment.Queries.{query_transfers_by_status}
use Prim.Native.Char.{code}

-- A character that cannot end a JSON text or begin an escape.
abbrev pub IsPlain : ℕ → Type 0
IsPlain c = (c ≢ b'"') × (c ≢ 92) × (32 ≤ c)

abbrev pub AllChars : (ℕ → Type 0) → String → Type 0
AllChars P String.[] = Unit
AllChars P (String.◌∷◌ c s) = P (code c) × AllChars P s

is_safe-IsPlain : (c : ℕ) → is_safe c ≡ true → IsPlain c
unfolding is_safe
is_safe-IsPlain c h = ground arith

-- What is left of a reference after `sanitizeQueryInput` holds no quote, no backslash and no
-- control character, so that it stays one text in the selector.
pub sanitize_query_input-IsPlain : (s : String) → AllChars IsPlain (sanitize_query_input s)
unfolding sanitize_query_input
sanitize_query_input-IsPlain String.[] = tt
sanitize_query_input-IsPlain (String.◌∷◌ c s) = elim (Bool-cases (is_safe (code c))) [
  | inl safe ↦ rw safe (is_safe-IsPlain (code c) safe, sanitize_query_input-IsPlain s)
  | inr unsafe ↦ rw unsafe (sanitize_query_input-IsPlain s)
]

-- A reference of letters, digits, `-`, `_` and `.` is queried as it is.
pub sanitize_query_input_keeps :
    (s : String) → AllChars (λ c. is_safe c ≡ true) s → sanitize_query_input s ≡ s
unfolding sanitize_query_input
sanitize_query_input_keeps String.[] h = refl
sanitize_query_input_keeps (String.◌∷◌ c s) (safe, h) = rw (safe, sanitize_query_input_keeps s h)

module _ (j : Json) where
  -- `QueryTransfersByStatus` sends a selector to the database for the four statuses only: any other
  -- text is refused before the query, whatever the peer would answer, and the ledger is untouched.
  pub query_transfers_by_status_guard :
      (t : Tx j.Bytes) (status : String) (s : Ledger j.Bytes)
      → status ≢ status_pending
      → status ≢ status_settled
      → status ≢ status_cancelled
      → status ≢ status_failed
      → query_transfers_by_status j t status s ≡ (err invalid_status, s)
  unfolding query_transfers_by_status
  query_transfers_by_status_guard t status s a b c d = ground (
    arith,
    eq_iff status status_pending,
    eq_iff status status_settled,
    eq_iff status status_cancelled,
    eq_iff status status_failed,
  )
