-- ===== src/Api/Files/Tests.antt =====
-- The file stores with a receipt and a nonce.
use kufi_chain.Prelude.{◌≡◌, refl, true, none, some, []}
use kufi_chain.Prelude.Int.{ℤ, pos}
use kufi_chain.Prelude.Dict.{Dict, lookup}
use kufi_chain.Receipt.Types.{Receipt}
use kufi_chain.Receipt.Sample.{receipt}
use kufi_chain.Api.Files.{Codec}
use kufi_chain.Api.Files.Receipts.{
  FileReceiptStore, new_file_receipt_store, store, write_at, delete, get, restart,
}
use kufi_chain.Api.Files.Nonces.{FileNonceStore, new_file_nonce_store}
use kufi_chain.Api.Files.Restart.{
  IsNamed, Reach, opened, stored, flushed, get-flushed, get-restart_resurrects,
}

abbrev codec : Codec Receipt
codec = record { Bytes = Receipt; encode = λ r. r; decode = λ r. some r; decode-encode = λ r. refl }

abbrev fresh : FileReceiptStore Receipt
fresh = new_file_receipt_store codec []

nothing_there : IsNamed codec []
unfolding lookup
nothing_there k b r found e = cc

one_receipt : Reach codec [] (store codec (receipt "bob" 7).tx_id (receipt "bob" 7) fresh)
one_receipt = stored (receipt "bob" 7) opened

get-flushed_example :
    (let s = store codec (receipt "bob" 7).tx_id (receipt "bob" 7) fresh in
      get codec "tx1"
        (restart codec (record s { disk = flushed codec s.pending s.disk; pending = [] }))
      ≡ get codec "tx1" s)
get-flushed_example =
    get-flushed codec [] (store codec (receipt "bob" 7).tx_id (receipt "bob" 7) fresh) "tx1"
      nothing_there one_receipt

idle : fresh.pending ≡ []
unfolding new_file_receipt_store
idle = refl

no_files : IsNamed codec fresh.disk
unfolding new_file_receipt_store lookup
no_files k b r found e = cc

get-restart_resurrects_example :
    (let r = receipt "bob" 7 in
      let gone = write_at codec 0 true (delete codec r.tx_id (store codec r.tx_id r fresh)) in
      (get codec r.tx_id gone ≡ none) × (get codec r.tx_id (restart codec gone) ≡ some r))
get-restart_resurrects_example = get-restart_resurrects codec fresh (receipt "bob" 7) idle no_files

abbrev nonces : FileNonceStore
nonces = new_file_nonce_store (pos 0) (pos 300) none

no_file : (m : Dict ℤ) → nonces.disk ≡ some m → lookup "n" m ≡ none
unfolding new_file_nonce_store
no_file m e = cc
