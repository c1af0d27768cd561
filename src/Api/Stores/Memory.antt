-- ===== src/Api/Stores/Memory.antt =====
-- The interfaces of the handlers, filled by the stores in memory.
use kufi_chain.Prelude.{String, ◌≡◌, refl, false, some, none, if◌then◌else◌, ◌==◌, arith, eq_refl}
use kufi_chain.Prelude.Int.{ℤ, ◌+ℤ◌, ◌≤ℤ◌}
use kufi_chain.Prelude.Dict.{Dict, lookup-insert, lookup-insert_self, lookup-erase}
use kufi_chain.Api.Nonces.{NonceStore}
use kufi_chain.Api.Nonces as Nonces
use kufi_chain.Api.Nonces.Replay.{Recorded, Recorded-add, Recorded-cleanup, exists-Recorded}
use kufi_chain.Api.Idempotency.{IdempotencyStore, store, get}
use kufi_chain.Api.Idempotency as Idempotency
use kufi_chain.Api.Idempotency.Expiry.{get-cleanup, get-store}
use kufi_chain.Api.Stores.{
  NonceStorer, IdempotencyStorer, ReceiptStorer, store_receipt, get_receipt_of, delete_receipt,
  count_receipts,
}

pub window-add : (n : String) (t : ℤ) (s : NonceStore) → (Nonces.add n t s).window ≡ s.window
unfolding Nonces.add
window-add n t s = refl

pub window-cleanup : (t : ℤ) (s : NonceStore) → (Nonces.cleanup t s).window ≡ s.window
unfolding Nonces.cleanup
window-cleanup t s = refl

pub Recorded-add_self : (n : String) (t : ℤ) (s : NonceStore) → Recorded t n (Nonces.add n t s)
unfolding Nonces.add
Recorded-add_self n t s = (t, lookup-insert_self n t s.nonces, omega arith)

abbrev pub nonce_store : NonceStorer
nonce_store = record {
  State = NonceStore;
  window = λ s. s.window;
  add = Nonces.add;
  exists = Nonces.exists;
  cleanup = Nonces.cleanup;
  Recorded = Recorded;
  window-add = window-add;
  window-cleanup = window-cleanup;
  Recorded-add_self = Recorded-add_self;
  Recorded-add = Recorded-add;
  Recorded-cleanup = Recorded-cleanup;
  exists-Recorded = exists-Recorded;
}

module _ {Receipt : Type 0} where
  pub get-store_self :
      (t₀ t : ℤ) (k : String) (r : Receipt) (s : IdempotencyStore Receipt)
      → t ≤ℤ t₀ +ℤ s.ttl
      → get t k (store t₀ k r s) ≡ some r
  get-store_self t₀ t k r s h = ground (arith, get-store t₀ t k k r s, eq_refl k)

  pub get-store_other :
      (t₀ t : ℤ) (j k : String) (r : Receipt) (s : IdempotencyStore Receipt)
      → (j == k) ≡ false
      → get t k (store t₀ j r s) ≡ get t k s
  get-store_other t₀ t j k r s other = ground (arith, get-store t₀ t j k r s)

  abbrev pub idempotency_store : IdempotencyStorer Receipt
  idempotency_store = record {
    State = IdempotencyStore Receipt;
    ttl = λ s. s.ttl;
    store = store;
    get = get;
    cleanup = Idempotency.cleanup;
    get-store_self = get-store_self;
    get-store_other = get-store_other;
    get-cleanup = get-cleanup;
  }

  pub get_receipt_of-store_receipt :
      (id k : String) (r : Receipt) (s : Dict Receipt)
      → get_receipt_of k (store_receipt id r s) ≡ (if id == k then some r else get_receipt_of k s)
  unfolding store_receipt get_receipt_of
  get_receipt_of-store_receipt id k r s = lookup-insert id k r s

  pub get_receipt_of-delete_receipt :
      (id k : String) (s : Dict Receipt)
      → get_receipt_of k (delete_receipt id s) ≡ (if id == k then none else get_receipt_of k s)
  unfolding delete_receipt get_receipt_of
  get_receipt_of-delete_receipt id k s = lookup-erase id k s

  abbrev pub receipt_store : ReceiptStorer Receipt
  receipt_store = record {
    State = Dict Receipt;
    store = store_receipt;
    get = get_receipt_of;
    delete = delete_receipt;
    count = count_receipts;
    get-store = get_receipt_of-store_receipt;
    get-delete = get_receipt_of-delete_receipt;
  }
