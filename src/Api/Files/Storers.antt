-- ===== src/Api/Files/Storers.antt =====
-- The interfaces of the handlers, filled by the file stores while the process runs.
use kufi_chain.Prelude.{
  String, ◌≡◌, refl, true, false, none, some, if◌then◌else◌, ◌==◌, arith, Option-cases, inl, inr,
  subst, sym, ap, ◌∙◌, List, [], ◌∷◌,
}
use kufi_chain.Prelude.Int.{ℤ, ◌-ℤ◌, ◌+ℤ◌, ◌≤ℤ◌, ltb_ℤ}
use kufi_chain.Prelude.Dict.{lookup, erase, lookup-insert, lookup-erase}
use kufi_chain.Prelude.Sweep.{keys, sweep_key, sweep_keys, sweep}
use kufi_chain.Receipt.Types.{Receipt}
use kufi_chain.Api.Nonces.{NonceStore}
use kufi_chain.Api.Nonces as Memory
use kufi_chain.Api.Nonces.Replay.{Recorded, Recorded-add, Recorded-cleanup, exists-Recorded}
use kufi_chain.Api.Stores.{NonceStorer, IdempotencyStorer, ReceiptStorer}
use kufi_chain.Api.Idempotency.{IdempotencyEntry, IdempotencyStore}
use kufi_chain.Api.Idempotency as Idempotency
use kufi_chain.Api.Idempotency.Expiry.{get-cleanup}
use kufi_chain.Api.Stores.Memory.{Recorded-add_self, get-store_self, get-store_other}
use kufi_chain.Api.Files.{Codec}
use kufi_chain.Api.Files.Keys.{FileIdempotencyStore, store_key, get_key, clean_keys}
use kufi_chain.Api.Files.Keys as Keys
use kufi_chain.Api.Files.Nonces.{FileNonceStore, persist, add, exists, cleanup}
use kufi_chain.Api.Files.Receipts.{FileReceiptStore, store, get, delete, count}

-- The part of the store that is in memory.
abbrev pub in_memory : FileNonceStore → NonceStore
in_memory s = record { nonces = s.nonces; window = s.window }

in_memory-add :
    (n : String) (t : ℤ) (s : FileNonceStore) → in_memory (add n t s) ≡ Memory.add n t (in_memory s)
unfolding add Memory.add
in_memory-add n t s = refl

in_memory-cleanup :
    (t : ℤ) (s : FileNonceStore) → in_memory (cleanup t s) ≡ Memory.cleanup t (in_memory s)
unfolding cleanup persist Memory.cleanup
in_memory-cleanup t s = refl

in_memory-exists :
    (t : ℤ) (n : String) (s : FileNonceStore) → exists t n s ≡ Memory.exists t n (in_memory s)
unfolding exists Memory.exists
in_memory-exists t n s = refl

pub exists-Recorded_file :
    (a b : ℤ) (n : String) (s : FileNonceStore)
    → ltb_ℤ (b -ℤ a) s.window ≡ true
    → Recorded a n (in_memory s)
    → exists b n s ≡ true
exists-Recorded_file a b n s inside used =
    in_memory-exists b n s ∙ exists-Recorded a b n (in_memory s) inside used

pub Recorded-add_file :
    (a t : ℤ) (n k : String) (s : FileNonceStore)
    → a ≤ℤ t
    → Recorded a n (in_memory s)
    → Recorded a n (in_memory (add k t s))
Recorded-add_file a t n k s later used =
    subst (Recorded a n) (sym (in_memory-add k t s)) (Recorded-add a t n k (in_memory s) later used)

pub Recorded-add_self_file :
    (n : String) (t : ℤ) (s : FileNonceStore) → Recorded t n (in_memory (add n t s))
Recorded-add_self_file n t s =
    subst (Recorded t n) (sym (in_memory-add n t s)) (Recorded-add_self n t (in_memory s))

pub Recorded-cleanup_file :
    (a b t : ℤ) (n : String) (s : FileNonceStore)
    → t ≤ℤ b
    → ltb_ℤ (b -ℤ a) s.window ≡ true
    → Recorded a n (in_memory s)
    → Recorded a n (in_memory (cleanup t s))
Recorded-cleanup_file a b t n s early inside used =
    subst (Recorded a n) (sym (in_memory-cleanup t s))
      (Recorded-cleanup a b t n (in_memory s) early inside used)

pub window-add_file : (n : String) (t : ℤ) (s : FileNonceStore) → (add n t s).window ≡ s.window
unfolding add
window-add_file n t s = refl

pub window-cleanup_file : (t : ℤ) (s : FileNonceStore) → (cleanup t s).window ≡ s.window
unfolding cleanup persist
window-cleanup_file t s = refl

abbrev pub file_nonces : NonceStorer
file_nonces = record {
  State = FileNonceStore;
  window = λ s. s.window;
  add = add;
  exists = exists;
  cleanup = cleanup;
  Recorded = λ a n s. Recorded a n (in_memory s);
  window-add = window-add_file;
  window-cleanup = window-cleanup_file;
  Recorded-add_self = Recorded-add_self_file;
  Recorded-add = Recorded-add_file;
  Recorded-cleanup = Recorded-cleanup_file;
  exists-Recorded = exists-Recorded_file;
}

module _ (j : Codec Receipt) where
  pub get-store_file :
      (id k : String) (r : Receipt) (s : FileReceiptStore j.Bytes)
      → get j k (store j id r s) ≡ (if id == k then some r else get j k s)
  unfolding get store
  get-store_file id k r s = lookup-insert id k r s.cache

  pub get-delete_file :
      (id k : String) (s : FileReceiptStore j.Bytes)
      → get j k (delete j id s) ≡ (if id == k then none else get j k s)
  unfolding get delete
  get-delete_file id k s = lookup-erase id k s.cache

  abbrev pub file_receipts : ReceiptStorer Receipt
  file_receipts = record {
    State = FileReceiptStore j.Bytes;
    store = store j;
    get = get j;
    delete = delete j;
    count = count j;
    get-store = get-store_file;
    get-delete = get-delete_file;
  }

module _ {A : Type 0} (j : Codec (IdempotencyEntry A)) where
  -- The part in memory.
  abbrev memory_keys : FileIdempotencyStore A j.Bytes → IdempotencyStore A
  memory_keys s = record { entries = s.entries; ttl = s.ttl }

  clean_keys-sweep_keys :
      (now : ℤ) (ks : List String) (s : FileIdempotencyStore A j.Bytes)
      → memory_keys (clean_keys j now ks s)
        ≡ record { entries = sweep_keys (λ e. ltb_ℤ e.expires_at now) ks s.entries; ttl = s.ttl }
  unfolding clean_keys sweep_keys sweep_key
  clean_keys-sweep_keys now [] s = refl
  clean_keys-sweep_keys now (k ∷ ks) s = elim (Option-cases (lookup k s.entries)) [
    | inl absent ↦ ground (arith, clean_keys-sweep_keys now ks s)
    | inr (e, found) ↦ ground (
      arith,
      clean_keys-sweep_keys now ks s,
      clean_keys-sweep_keys now ks
          (record s { entries = erase k s.entries; disk = erase k s.disk }),
    )
  ]

  memory_keys-cleanup :
      (now : ℤ) (s : FileIdempotencyStore A j.Bytes)
      → memory_keys (Keys.cleanup j now s) ≡ Idempotency.cleanup now (memory_keys s)
  unfolding Keys.cleanup Idempotency.cleanup sweep
  memory_keys-cleanup now s = clean_keys-sweep_keys now (keys s.entries) s

  memory_keys-get_key :
      (t : ℤ) (k : String) (s : FileIdempotencyStore A j.Bytes)
      → get_key j t k s ≡ Idempotency.get t k (memory_keys s)
  unfolding get_key Idempotency.get
  memory_keys-get_key t k s = refl

  memory_keys-store_key :
      (t : ℤ) (k : String) (r : A) (s : FileIdempotencyStore A j.Bytes)
      → memory_keys (store_key j t k r s) ≡ Idempotency.store t k r (memory_keys s)
  unfolding store_key Idempotency.store
  memory_keys-store_key t k r s = refl

  pub get_key-store_self :
      (t₀ t : ℤ) (k : String) (r : A) (s : FileIdempotencyStore A j.Bytes)
      → t ≤ℤ t₀ +ℤ s.ttl
      → get_key j t k (store_key j t₀ k r s) ≡ some r
  get_key-store_self t₀ t k r s inside =
      memory_keys-get_key t k (store_key j t₀ k r s)
      ∙ ap (Idempotency.get t k) (memory_keys-store_key t₀ k r s)
      ∙ get-store_self t₀ t k r (memory_keys s) inside

  pub get_key-store_other :
      (t₀ t : ℤ) (i k : String) (r : A) (s : FileIdempotencyStore A j.Bytes)
      → (i == k) ≡ false
      → get_key j t k (store_key j t₀ i r s) ≡ get_key j t k s
  get_key-store_other t₀ t i k r s other =
      memory_keys-get_key t k (store_key j t₀ i r s)
      ∙ ap (Idempotency.get t k) (memory_keys-store_key t₀ i r s)
      ∙ get-store_other t₀ t i k r (memory_keys s) other
      ∙ sym (memory_keys-get_key t k s)

  pub get_key-cleanup :
      (t₀ t : ℤ) (k : String) (s : FileIdempotencyStore A j.Bytes)
      → t₀ ≤ℤ t
      → get_key j t k (Keys.cleanup j t₀ s) ≡ get_key j t k s
  get_key-cleanup t₀ t k s later =
      memory_keys-get_key t k (Keys.cleanup j t₀ s)
      ∙ ap (Idempotency.get t k) (memory_keys-cleanup t₀ s)
      ∙ get-cleanup t₀ t k (memory_keys s) later
      ∙ sym (memory_keys-get_key t k s)

  abbrev pub file_keys : IdempotencyStorer A
  file_keys = record {
    State = FileIdempotencyStore A j.Bytes;
    ttl = λ s. s.ttl;
    store = store_key j;
    get = get_key j;
    cleanup = Keys.cleanup j;
    get-store_self = get_key-store_self;
    get-store_other = get_key-store_other;
    get-cleanup = get_key-cleanup;
  }
