-- ===== src/Api/Files/Nonces.antt =====
-- internal/api/store_persistent.go: `FileNonceStore`.
use kufi_chain.Prelude.{
  ℕ, ◌+◌, ◌-◌, ◌%◌, String, Bool, false, Option, none, some, [], if◌then◌else◌, length, eqb,
}
use kufi_chain.Prelude.Int.{ℤ, ◌-ℤ◌, ltb_ℤ}
use kufi_chain.Prelude.Dict.{Dict, lookup, insert}
use kufi_chain.Prelude.Sweep.{sweep}
use kufi_chain.Prelude.Copy.{copy}

-- `disk` is the content of nonces.json, `none` where it is missing or does not decode; `persisting`
-- the goroutines that wait to write it.
pub record FileNonceStore : Type 0 where
  pub nonces : Dict ℤ
  pub window : ℤ
  pub disk : Option (Dict ℤ)
  pub persisting : ℕ

-- What `loadAll` keeps of the file.
abbrev pub kept : ℤ → ℤ → String → ℤ → Option (String × ℤ)
kept now window nonce ts = if ltb_ℤ (now -ℤ ts) window then some (nonce, ts) else none

-- `NewFileNonceStore`, with `loadAll`
unfoldable pub new_file_nonce_store : ℤ → ℤ → Option (Dict ℤ) → FileNonceStore
new_file_nonce_store now window disk = record {
  nonces = elim disk [ none ↦ [] | some m ↦ copy (kept now window) m ];
  window = window;
  disk = disk;
  persisting = 0;
}

-- `persist`, where the file can be written.
unfoldable pub persist : FileNonceStore → FileNonceStore
persist fns = record fns { disk = some fns.nonces }

-- `Add`
unfoldable pub add : String → ℤ → FileNonceStore → FileNonceStore
add nonce timestamp fns =
    let m = insert nonce timestamp fns.nonces in
    record fns {
      nonces = m;
      persisting = if eqb (length m % 100) 0 then fns.persisting + 1 else fns.persisting;
    }

-- The goroutine of `Add`.
unfoldable pub run_persist : FileNonceStore → FileNonceStore
unfolding persist
run_persist fns =
    if eqb fns.persisting 0 then fns else record (persist fns) { persisting = fns.persisting - 1 }

-- `Exists`
unfoldable pub exists : ℤ → String → FileNonceStore → Bool
exists now nonce fns = elim (lookup nonce fns.nonces) [
  | none ↦ false
  | some timestamp ↦ ltb_ℤ (now -ℤ timestamp) fns.window
]

-- One round of `cleanup`
unfoldable pub cleanup : ℤ → FileNonceStore → FileNonceStore
unfolding persist
cleanup now fns =
    persist
      (record fns { nonces = sweep (λ timestamp. ltb_ℤ fns.window (now -ℤ timestamp)) fns.nonces })

-- The process ends and starts again.
unfoldable pub restart : ℤ → FileNonceStore → FileNonceStore
restart now fns = new_file_nonce_store now fns.window fns.disk
