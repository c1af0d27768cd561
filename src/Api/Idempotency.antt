-- ===== src/Api/Idempotency.antt =====
-- `IdempotencyStore` of internal/api/store.go: the receipts of finished requests under their keys,
-- for as long as the TTL lasts.
pub mod Expiry
use kufi_chain.Prelude.{String, Bool, true, false, Option, none, some, List, [], ◌∷◌, if◌then◌else◌}
use kufi_chain.Prelude.Int.{ℤ, ◌+ℤ◌, ltb_ℤ}
use kufi_chain.Prelude.Dict.{Dict, lookup, insert}
use kufi_chain.Prelude.Sweep.{sweep}

pub record IdempotencyEntry (Receipt : Type 0) : Type 0 where
  pub receipt : Receipt
  pub expires_at : ℤ

pub record IdempotencyStore (Receipt : Type 0) : Type 0 where
  pub entries : Dict (IdempotencyEntry Receipt)
  pub ttl : ℤ

module _ {Receipt : Type 0} where
  -- `NewIdempotencyStore`
  unfoldable pub new_idempotency_store : ℤ → IdempotencyStore Receipt
  new_idempotency_store ttl = record { entries = []; ttl = ttl }

  -- `Store`
  unfoldable pub store : ℤ → String → Receipt → IdempotencyStore Receipt → IdempotencyStore Receipt
  store now key r s = record s {
    entries = insert key (record { receipt = r; expires_at = now +ℤ s.ttl }) s.entries;
  }

  -- `Get`
  unfoldable pub get : ℤ → String → IdempotencyStore Receipt → Option Receipt
  get now key s = elim (lookup key s.entries) [
    | none ↦ none
    | some entry ↦ if ltb_ℤ entry.expires_at now then none else some entry.receipt
  ]

  -- One round of `cleanup`
  unfoldable pub cleanup : ℤ → IdempotencyStore Receipt → IdempotencyStore Receipt
  cleanup now s = record s { entries = sweep (λ entry. ltb_ℤ entry.expires_at now) s.entries }
