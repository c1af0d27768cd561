-- ===== src/Api/Files/Receipts.antt =====
-- internal/api/store_persistent.go: `FileReceiptStore`.
use kufi_chain.Prelude.{
  ℕ, String, Bool, Option, none, some, List, [], ◌∷◌, ◌++◌, if◌then◌else◌, length,
}
use kufi_chain.Prelude.Dict.{Dict, lookup, insert, erase}
use kufi_chain.Prelude.Copy.{copy}
use kufi_chain.Receipt.Types.{Receipt}
use kufi_chain.Api.Files.{Codec, take_at}

-- `disk` has the file `<name>.json` under its name, `pending` the writes that wait in goroutines.
pub record FileReceiptStore (Bytes : Type 0) : Type 0 where
  pub cache : Dict Receipt
  pub disk : Dict Bytes
  pub pending : List (String × Receipt)

module _ (j : Codec Receipt) where
  -- What `loadAll` makes of a file: the receipt goes under its own transaction's id.
  abbrev pub loaded : String → j.Bytes → Option (String × Receipt)
  loaded name bytes = elim (j.decode bytes) [ none ↦ none | some r ↦ some (r.tx_id, r) ]

  -- `NewFileReceiptStore`, with `loadAll`
  unfoldable pub new_file_receipt_store : Dict j.Bytes → FileReceiptStore j.Bytes
  new_file_receipt_store disk = record { cache = copy loaded disk; disk = disk; pending = [] }

  -- `Store`
  unfoldable pub store : String → Receipt → FileReceiptStore j.Bytes → FileReceiptStore j.Bytes
  store tx_id r fs = record fs {
    cache = insert tx_id r fs.cache;
    pending = fs.pending ++ (tx_id, r) ∷ [];
  }

  -- The goroutine of `Store`, for the waiting write with the number `k`; `works` is whether the
  -- operating system writes the file.
  unfoldable pub write_at : ℕ → Bool → FileReceiptStore j.Bytes → FileReceiptStore j.Bytes
  unfolding take_at
  write_at k works fs = elim (take_at k fs.pending) [
    | none ↦ fs
    | some ((tx_id, r), rest) ↦ record fs {
      pending = rest;
      disk = if works then insert tx_id (j.encode r) fs.disk else fs.disk;
    }
  ]

  -- `Get`
  unfoldable pub get : String → FileReceiptStore j.Bytes → Option Receipt
  get tx_id fs = lookup tx_id fs.cache

  -- `Delete`, where the file can be removed.
  unfoldable pub delete : String → FileReceiptStore j.Bytes → FileReceiptStore j.Bytes
  delete tx_id fs = record fs { cache = erase tx_id fs.cache; disk = erase tx_id fs.disk }

  -- `Count`
  unfoldable pub count : FileReceiptStore j.Bytes → ℕ
  count fs = length fs.cache

  -- The process ends, with the writes that wait, and starts again.
  unfoldable pub restart : FileReceiptStore j.Bytes → FileReceiptStore j.Bytes
  restart fs = new_file_receipt_store fs.disk
