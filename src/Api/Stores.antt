-- ===== src/Api/Stores.antt =====
-- internal/api/store.go: what the handlers ask of their stores, and `ReceiptStore`.
pub mod Memory
use kufi_chain.Prelude.{
  ℕ, String, ◌≡◌, List, [], Bool, true, false, none, some, Option, if◌then◌else◌, ◌==◌, length,
}
use kufi_chain.Prelude.Int.{ℤ, ◌-ℤ◌, ◌+ℤ◌, ◌≤ℤ◌, ltb_ℤ}
use kufi_chain.Prelude.Dict.{Dict, lookup, insert, erase}

-- `NonceStorer`. A method takes the time that its `time.Now()` returns; `cleanup` is a round of the
-- goroutine that the constructor starts. `Recorded a n s`: the nonce `n` was added at `a` or later.
pub record NonceStorer : Type 1 where
  pub State : Type 0
  pub window : State → ℤ
  pub add : String → ℤ → State → State
  pub exists : ℤ → String → State → Bool
  pub cleanup : ℤ → State → State
  pub Recorded : ℤ → String → State → Type 0
  pub window-add : (n : String) (t : ℤ) (s : State) → window (add n t s) ≡ window s
  pub window-cleanup : (t : ℤ) (s : State) → window (cleanup t s) ≡ window s
  pub Recorded-add_self : (n : String) (t : ℤ) (s : State) → Recorded t n (add n t s)
  pub Recorded-add :
      (a t : ℤ) (n k : String) (s : State) → a ≤ℤ t → Recorded a n s → Recorded a n (add k t s)
  pub Recorded-cleanup :
      (a b t : ℤ) (n : String) (s : State)
      → t ≤ℤ b
      → ltb_ℤ (b -ℤ a) (window s) ≡ true
      → Recorded a n s
      → Recorded a n (cleanup t s)
  pub exists-Recorded :
      (a b : ℤ) (n : String) (s : State)
      → ltb_ℤ (b -ℤ a) (window s) ≡ true
      → Recorded a n s
      → exists b n s ≡ true

-- `IdempotencyStorer`, likewise.
pub record IdempotencyStorer (Receipt : Type 0) : Type 1 where
  pub State : Type 0
  pub ttl : State → ℤ
  pub store : ℤ → String → Receipt → State → State
  pub get : ℤ → String → State → Option Receipt
  pub cleanup : ℤ → State → State
  pub get-store_self :
      (t₀ t : ℤ) (k : String) (r : Receipt) (s : State)
      → t ≤ℤ t₀ +ℤ ttl s
      → get t k (store t₀ k r s) ≡ some r
  pub get-store_other :
      (t₀ t : ℤ) (j k : String) (r : Receipt) (s : State)
      → (j == k) ≡ false
      → get t k (store t₀ j r s) ≡ get t k s
  pub get-cleanup :
      (t₀ t : ℤ) (k : String) (s : State) → t₀ ≤ℤ t → get t k (cleanup t₀ s) ≡ get t k s

-- `ReceiptStorer`, likewise.
pub record ReceiptStorer (Receipt : Type 0) : Type 1 where
  pub State : Type 0
  pub store : String → Receipt → State → State
  pub get : String → State → Option Receipt
  pub delete : String → State → State
  pub count : State → ℕ
  pub get-store :
      (id k : String) (r : Receipt) (s : State)
      → get k (store id r s) ≡ (if id == k then some r else get k s)
  pub get-delete :
      (id k : String) (s : State) → get k (delete id s) ≡ (if id == k then none else get k s)

-- `ReceiptStore`
module _ {Receipt : Type 0} where
  abbrev pub new_receipt_store : Dict Receipt
  new_receipt_store = []

  unfoldable pub store_receipt : String → Receipt → Dict Receipt → Dict Receipt
  store_receipt id r s = insert id r s

  unfoldable pub get_receipt_of : String → Dict Receipt → Option Receipt
  get_receipt_of id s = lookup id s

  unfoldable pub delete_receipt : String → Dict Receipt → Dict Receipt
  delete_receipt id s = erase id s

  unfoldable pub count_receipts : Dict Receipt → ℕ
  count_receipts s = length s
