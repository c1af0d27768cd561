-- ===== src/Api/Nonces.antt =====
-- `NonceStore` of internal/api/store.go: the nonces that requests have used, for replay protection.
pub mod Replay
use kufi_chain.Prelude.{String, Bool, true, false, Option, none, some, List, [], ◌∷◌}
use kufi_chain.Prelude.Int.{ℤ, ◌-ℤ◌, ltb_ℤ}
use kufi_chain.Prelude.Dict.{Dict, lookup, insert}
use kufi_chain.Prelude.Sweep.{sweep}

pub record NonceStore : Type 0 where
  pub nonces : Dict ℤ
  pub window : ℤ

-- `NewNonceStore`
unfoldable pub new_nonce_store : ℤ → NonceStore
new_nonce_store window = record { nonces = []; window = window }

-- `Add`
unfoldable pub add : String → ℤ → NonceStore → NonceStore
add nonce timestamp s = record s { nonces = insert nonce timestamp s.nonces }

-- `Exists`
unfoldable pub exists : ℤ → String → NonceStore → Bool
exists now nonce s = elim (lookup nonce s.nonces) [
  | none ↦ false
  | some timestamp ↦ ltb_ℤ (now -ℤ timestamp) s.window
]

-- One round of `cleanup`
unfoldable pub cleanup : ℤ → NonceStore → NonceStore
cleanup now s = record s {
  nonces = sweep (λ timestamp. ltb_ℤ s.window (now -ℤ timestamp)) s.nonces;
}
