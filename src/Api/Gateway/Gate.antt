-- ===== src/Api/Gateway/Gate.antt =====
-- What gets past the first part of `SubmitTransfer`, and what it leaves in the store of nonces.
use kufi_chain.Prelude.{
  String, ◌≡◌, refl, ◌⊎◌, inl, inr, true, false, none, arith, Bool-cases, Option-cases,
}
use kufi_chain.Prelude.Int.{unix_milli}
use kufi_chain.Prelude.Action.{Result, ok, err}
use kufi_chain.Api.Models.{TransferRequest}
use kufi_chain.Api.Gateway.Host.{Settings, Clock}
use kufi_chain.Api.Gateway.Requests.{validate_transfer_request, is_fresh}
use kufi_chain.Api.Gateway.Submit.{Storers, Stores, Reply, Gate, answered, passed, admit_transfer}

module _ (s : Storers) (h : Settings) where
  -- What a request that gets past the first part satisfies, and the stores then.
  pub record Passes (t : Clock) (bound : Result String TransferRequest) (st : Stores s)
      (req : TransferRequest) : Type 0 where
    pub is_bound : bound ≡ ok req
    pub is_valid : validate_transfer_request req ≡ none
    pub is_new : s.keys.get t.at_get req.idempotency_key st.keys ≡ none
    pub is_unused : s.nonces.exists t.at_exists req.nonce st.nonces ≡ false
    pub is_in_time : is_fresh h (unix_milli t.at_check) req ≡ true
    pub passes :
        admit_transfer s h t bound st
        ≡ passed req (record st { nonces = s.nonces.add req.nonce t.at_add st.nonces })

  abbrev IsAnswered : Gate s → Type 0
  IsAnswered (answered reply) = Unit
  IsAnswered (passed req st) = ⊥

  IsAnswered-reply : (g : Gate s) → IsAnswered g → (reply : Reply) × (g ≡ answered reply)
  IsAnswered-reply (answered reply) h = (reply, refl)
  IsAnswered-reply (passed req st) h = absurd h

  pub admit_transfer-cases :
      (t : Clock) (bound : Result String TransferRequest) (st : Stores s)
      → ((reply : Reply) × (admit_transfer s h t bound st ≡ answered reply))
        ⊎ ((req : TransferRequest) × Passes t bound st req)
  unfolding admit_transfer
  admit_transfer-cases t (err e) st = inl (IsAnswered-reply (admit_transfer s h t (err e) st) tt)
  admit_transfer-cases t (ok req) st = elim (Option-cases (validate_transfer_request req)) [
    | inr (e, bad) ↦ inl (IsAnswered-reply (admit_transfer s h t (ok req) st) (ground arith))
    | inl good ↦ elim (Option-cases (s.keys.get t.at_get req.idempotency_key st.keys)) [
      | inr (r, cached) ↦ inl (IsAnswered-reply (admit_transfer s h t (ok req) st) (ground arith))
      | inl absent ↦ elim (Bool-cases (s.nonces.exists t.at_exists req.nonce st.nonces)) [
        | inl used ↦ inl (IsAnswered-reply (admit_transfer s h t (ok req) st) (ground arith))
        | inr unused ↦ elim (Bool-cases (is_fresh h (unix_milli t.at_check) req)) [
          | inr stale ↦ inl (IsAnswered-reply (admit_transfer s h t (ok req) st) (ground arith))
          | inl fresh ↦ inr (
            req,
            record {
              is_bound = refl;
              is_valid = good;
              is_new = absent;
              is_unused = unused;
              is_in_time = fresh;
              passes = ground arith;
            },
          )
        ]
      ]
    ]
  ]
