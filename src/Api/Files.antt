-- ===== src/Api/Files.antt =====
-- internal/api/store_persistent.go: the stores that keep a file beside what they have in memory.
pub mod Receipts
pub mod Keys
pub mod Nonces
pub mod Restart
pub mod Kept
pub mod Storers
mod Tests
use kufi_chain.Prelude.{ℕ, zero, suc, String, ◌≡◌, Option, none, some, List, [], ◌∷◌}

-- encoding/json on the values of a store.
pub record Codec (V : Type 0) : Type 1 where
  pub Bytes : Type 0
  pub encode : V → Bytes
  pub decode : Bytes → Option V
  pub decode-encode : (v : V) → decode (encode v) ≡ some v

-- One of the goroutines that wait to write, and the others.
unfoldable pub take_at : {A : Type 0} → ℕ → List A → Option (A × List A)
take_at n [] = none
take_at zero (a ∷ rest) = some (a, rest)
take_at (suc n) (a ∷ rest) = elim (take_at n rest) [
  | none ↦ none
  | some (b, others) ↦ some (b, a ∷ others)
]
