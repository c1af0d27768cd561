-- ===== src/Api/Files/Keys.antt =====
-- internal/api/store_persistent.go: `FileIdempotencyStore`.
use kufi_chain.Prelude.{
  ℕ, String, Bool, false, Option, none, some, List, [], ◌∷◌, ◌++◌, if◌then◌else◌,
}
use kufi_chain.Prelude.Int.{ℤ, ◌+ℤ◌, ltb_ℤ}
use kufi_chain.Prelude.Dict.{Dict, lookup, insert, erase}
use kufi_chain.Prelude.Sweep.{keys, sweep}
use kufi_chain.Prelude.Copy.{copy}
use kufi_chain.Api.Idempotency.{IdempotencyEntry}
use kufi_chain.Api.Files.{Codec, take_at}

pub record FileIdempotencyStore (Receipt Bytes : Type 0) : Type 0 where
  pub entries : Dict (IdempotencyEntry Receipt)
  pub ttl : ℤ
  pub disk : Dict Bytes
  pub pending : List (String × IdempotencyEntry Receipt)

module _ {Receipt : Type 0} (j : Codec (IdempotencyEntry Receipt)) where
  abbrev pub is_expired_file : ℤ → j.Bytes → Bool
  is_expired_file now bytes = elim (j.decode bytes) [
    | none ↦ false
    | some e ↦ ltb_ℤ e.expires_at now
  ]

  -- What `loadAll` makes of a file.
  abbrev pub loaded_entry : ℤ → String → j.Bytes → Option (String × IdempotencyEntry Receipt)
  loaded_entry now key bytes = elim (j.decode bytes) [
    | none ↦ none
    | some e ↦ if ltb_ℤ e.expires_at now then none else some (key, e)
  ]

  -- `NewFileIdempotencyStore`, with `loadAll`, which removes the files of expired entries.
  unfoldable pub new_file_idempotency_store :
      ℤ → ℤ → Dict j.Bytes → FileIdempotencyStore Receipt j.Bytes
  new_file_idempotency_store now ttl disk = record {
    entries = copy (loaded_entry now) disk;
    ttl = ttl;
    disk = sweep (is_expired_file now) disk;
    pending = [];
  }

  -- `Store`
  unfoldable pub store_key :
      ℤ
      → String
      → Receipt
      → FileIdempotencyStore Receipt j.Bytes
      → FileIdempotencyStore Receipt j.Bytes
  store_key now key r fis =
      let entry : IdempotencyEntry Receipt = record { receipt = r; expires_at = now +ℤ fis.ttl } in
      record fis {
        entries = insert key entry fis.entries;
        pending = fis.pending ++ (key, entry) ∷ [];
      }

  -- The goroutine of `Store`.
  unfoldable pub write_key :
      ℕ → Bool → FileIdempotencyStore Receipt j.Bytes → FileIdempotencyStore Receipt j.Bytes
  unfolding take_at
  write_key k works fis = elim (take_at k fis.pending) [
    | none ↦ fis
    | some ((key, entry), rest) ↦ record fis {
      pending = rest;
      disk = if works then insert key (j.encode entry) fis.disk else fis.disk;
    }
  ]

  -- `Get`
  unfoldable pub get_key : ℤ → String → FileIdempotencyStore Receipt j.Bytes → Option Receipt
  get_key now key fis = elim (lookup key fis.entries) [
    | none ↦ none
    | some entry ↦ if ltb_ℤ entry.expires_at now then none else some entry.receipt
  ]

  -- The loop of `cleanup`, over the keys that are there at its start.
  unfoldable pub clean_keys :
      ℤ → List String → FileIdempotencyStore Receipt j.Bytes → FileIdempotencyStore Receipt j.Bytes
  clean_keys now [] fis = fis
  clean_keys now (k ∷ ks) fis = clean_keys now ks (elim (lookup k fis.entries) [
    | none ↦ fis
    | some entry ↦
        if ltb_ℤ entry.expires_at now
        then record fis { entries = erase k fis.entries; disk = erase k fis.disk }
        else fis
  ])

  -- One round of `cleanup`, where the files can be removed.
  unfoldable pub cleanup :
      ℤ → FileIdempotencyStore Receipt j.Bytes → FileIdempotencyStore Receipt j.Bytes
  unfolding clean_keys
  cleanup now fis = clean_keys now (keys fis.entries) fis

  -- The process ends, with the writes that wait, and starts again.
  unfoldable pub restart_keys :
      ℤ → FileIdempotencyStore Receipt j.Bytes → FileIdempotencyStore Receipt j.Bytes
  restart_keys now fis = new_file_idempotency_store now fis.ttl fis.disk
