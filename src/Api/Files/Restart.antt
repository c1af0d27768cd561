-- ===== src/Api/Files/Restart.antt =====
-- What the store of receipts still knows after a restart.
use kufi_chain.Prelude.{
  String, ◌≡◌, refl, Bool, true, false, Option, none, some, List, [], ◌∷◌, ◌++◌, arith, ap, ◌∙◌,
  sym, eq_iff, eq_refl, ◌==◌, if◌then◌else◌, any, Option-cases, Bool-cases, subst, inl, inr,
}
use kufi_chain.Prelude.Dict.{
  Dict, lookup, insert, erase, lookup-insert, lookup-insert_self, lookup-erase,
}
use kufi_chain.Prelude.Copy.{KeepsNames, lookup-copy}
use kufi_chain.Receipt.Types.{Receipt}
use kufi_chain.Api.Files.{Codec, take_at}
use kufi_chain.Api.Files.Receipts.{
  FileReceiptStore, loaded, new_file_receipt_store, store, write_at, get, delete, restart,
}

module _ (j : Codec Receipt) where
  -- Every file that can be read is named after the transaction of its receipt.
  abbrev pub IsNamed : Dict j.Bytes → Type 0
  IsNamed disk =
      (k : String) (b : j.Bytes) (r : Receipt)
      → lookup k disk ≡ some b
      → j.decode b ≡ some r
      → r.tx_id ≡ k

  abbrev pub read : Option j.Bytes → Option Receipt
  read none = none
  read (some b) = j.decode b

  -- After a restart the store has exactly what its files hold.
  get-restart :
      (k : String) (s : FileReceiptStore j.Bytes)
      → IsNamed s.disk
      → get j k (restart j s) ≡ read (lookup k s.disk)
  unfolding get restart new_file_receipt_store
  get-restart k s named =
      let copied = lookup-copy (loaded j) k s.disk keeps in
      elim (Option-cases (lookup k s.disk)) [
        | inl absent ↦ ground (arith, copied)
        | inr (b, found) ↦ elim (Option-cases (j.decode b)) [
          | inl corrupt ↦ ground (arith, copied)
          | inr (r, good) ↦ ground (arith, copied)
        ]
      ]
    where
      keeps : KeepsNames (loaded j) s.disk
      keeps i b name r found e = elim (Option-cases (j.decode b)) [
        | inl corrupt ↦ absurd (ground arith)
        | inr (r', good) ↦ let right = named i b r' found good in ground (arith, right)
      ]

  -- The files after every waiting write has been made, in order.
  unfoldable pub flushed : List (String × Receipt) → Dict j.Bytes → Dict j.Bytes
  flushed [] disk = disk
  flushed ((id, r) ∷ ps) disk = flushed ps (insert id (j.encode r) disk)

  abbrev pub waits : String → List (String × Receipt) → Bool
  waits id ps = any (λ (k, r). k == id) ps

  -- What happens to a store whose receipts are stored under their own transactions, whose writes are
  -- made in order, and whose receipts are deleted only when no write of them waits.
  pub data Reach (disk : Dict j.Bytes) : FileReceiptStore j.Bytes → Type 0 where
    opened : Reach disk (new_file_receipt_store j disk)
    stored :
        {s : FileReceiptStore j.Bytes} (r : Receipt)
        → Reach disk s
        → Reach disk (store j r.tx_id r s)
    written : {s : FileReceiptStore j.Bytes} → Reach disk s → Reach disk (write_at j 0 true s)
    deleted :
        {s : FileReceiptStore j.Bytes} (id : String)
        → waits id s.pending ≡ false
        → Reach disk s
        → Reach disk (delete j id s)

  abbrev Synced : FileReceiptStore j.Bytes → Type 0
  Synced s =
      IsNamed (flushed s.pending s.disk)
      × ((k : String) → read (lookup k (flushed s.pending s.disk)) ≡ lookup k s.cache)

  flushed-append :
      (ps : List (String × Receipt)) (id : String) (r : Receipt) (disk : Dict j.Bytes)
      → flushed (ps ++ (id, r) ∷ []) disk ≡ insert id (j.encode r) (flushed ps disk)
  unfolding flushed
  flushed-append [] id r disk = refl
  flushed-append ((k, q) ∷ ps) id r disk = flushed-append ps id r (insert k (j.encode q) disk)

  lookup-flushed :
      (ps : List (String × Receipt)) (id k : String) (d d' : Dict j.Bytes)
      → waits id ps ≡ false
      → ((i : String) → lookup i d' ≡ (if id == i then none else lookup i d))
      → lookup k (flushed ps d') ≡ (if id == k then none else lookup k (flushed ps d))
  unfolding flushed
  lookup-flushed [] id k d d' none_waits same = same k
  lookup-flushed ((q, r) ∷ ps) id k d d' none_waits same =
      lookup-flushed ps id k (insert q (j.encode r) d) (insert q (j.encode r) d') (ground arith)
        (λ i.
          let before = same i in
          ground (
            arith,
            lookup-insert q i (j.encode r) d,
            lookup-insert q i (j.encode r) d',
            before,
            eq_iff q id,
            eq_iff q i,
            eq_iff id i,
          ))

  IsNamed-insert :
      (r : Receipt) (disk : Dict j.Bytes)
      → IsNamed disk
      → IsNamed (insert r.tx_id (j.encode r) disk)
  IsNamed-insert r disk named k b q found good = elim (Bool-cases (r.tx_id == k)) [
    | inl here ↦
        ground
          (arith, lookup-insert r.tx_id k (j.encode r) disk, eq_iff r.tx_id k, j.decode-encode r)
    | inr there ↦ named k b q (ground (arith, lookup-insert r.tx_id k (j.encode r) disk)) good
  ]

  Synced-insert :
      (r : Receipt) (disk : Dict j.Bytes) (cache : Dict Receipt)
      → IsNamed disk
      → ((k : String) → read (lookup k disk) ≡ lookup k cache)
      → IsNamed (insert r.tx_id (j.encode r) disk)
        × ((k : String)
            → read (lookup k (insert r.tx_id (j.encode r) disk))
              ≡ lookup k (insert r.tx_id r cache))
  Synced-insert r disk cache named same = (
    IsNamed-insert r disk named,
    λ k.
        let before = same k in
        ground (
          arith,
          lookup-insert r.tx_id k (j.encode r) disk,
          lookup-insert r.tx_id k r cache,
          j.decode-encode r,
          before,
        ),
  )

  Synced-write :
      (ps : List (String × Receipt)) (cache : Dict Receipt) (disk : Dict j.Bytes)
      → Synced (record { cache = cache; disk = disk; pending = ps })
      → Synced (write_at j 0 true (record { cache = cache; disk = disk; pending = ps }))
  unfolding write_at take_at flushed
  Synced-write [] cache disk h = h
  Synced-write ((id, r) ∷ ps) cache disk h = h

  Synced-Reach :
      (disk : Dict j.Bytes) (s : FileReceiptStore j.Bytes) → IsNamed disk → Reach disk s → Synced s
  unfolding flushed store delete new_file_receipt_store get restart
  Synced-Reach disk s named opened =
      (named, λ k. sym (get-restart k (new_file_receipt_store j disk) named))
  Synced-Reach disk s named (stored {s = u} r reach) =
      let (n, same) = Synced-Reach disk u named reach in
      subst
        (λ d. IsNamed d × ((k : String) → read (lookup k d) ≡ lookup k (insert r.tx_id r u.cache)))
        (sym (flushed-append u.pending r.tx_id r u.disk))
        (Synced-insert r (flushed u.pending u.disk) u.cache n same)
  Synced-Reach disk s named (written {s = u} reach) =
      Synced-write u.pending u.cache u.disk (Synced-Reach disk u named reach)
  Synced-Reach disk s named (deleted {s = u} id none_waits reach) =
      let (n, same) = Synced-Reach disk u named reach in
      let gone = λ (k : String).
        lookup-flushed u.pending id k u.disk (erase id u.disk) none_waits
          (λ i. lookup-erase id i u.disk) in
      (
        λ k b q found good. let left = gone k in n k b q (ground (arith, left)) good,
        λ k.
            let left = gone k in
            let before = same k in ground (arith, left, before, lookup-erase id k u.cache),
      )

  -- A store that was opened on files named after their receipts, and whose receipts were then stored
  -- under their own transactions, written in order and deleted only while no write of them waited,
  -- answers after a restart as it did before, once the waiting writes have been made.
  pub get-flushed :
      (disk : Dict j.Bytes) (s : FileReceiptStore j.Bytes) (k : String)
      → IsNamed disk
      → Reach disk s
      → get j k (restart j (record s { disk = flushed s.pending s.disk; pending = [] })) ≡ get j k s
  unfolding get
  get-flushed disk s k named reach =
      let (n, same) = Synced-Reach disk s named reach in
      get-restart k (record s { disk = flushed s.pending s.disk; pending = [] }) n ∙ same k

  -- A receipt that is stored and then deleted while its write still waits is gone before the restart
  -- and there again after it, where the write is made in between.
  pub get-restart_resurrects :
      (s : FileReceiptStore j.Bytes) (r : Receipt)
      → s.pending ≡ []
      → IsNamed s.disk
      → let gone = write_at j 0 true (delete j r.tx_id (store j r.tx_id r s)) in
        (get j r.tx_id gone ≡ none) × (get j r.tx_id (restart j gone) ≡ some r)
  unfolding get store delete write_at take_at
  get-restart_resurrects s r idle named =
      subst
        (λ ps.
          let gone = write_at j 0 true (
            delete j r.tx_id
              (record s { cache = insert r.tx_id r s.cache; pending = ps ++ (r.tx_id, r) ∷ [] })) in
          (get j r.tx_id gone ≡ none) × (get j r.tx_id (restart j gone) ≡ some r))
        (sym idle)
        (
          ground (arith, lookup-erase r.tx_id r.tx_id (insert r.tx_id r s.cache), eq_refl r.tx_id),
          get-restart r.tx_id
                (record {
                  cache = erase r.tx_id (insert r.tx_id r s.cache);
                  disk = files;
                  pending = [];
                })
                (IsNamed-insert r (erase r.tx_id s.disk) erased)
              ∙ ap read (lookup-insert_self r.tx_id (j.encode r) (erase r.tx_id s.disk))
              ∙ j.decode-encode r,
        )
    where
      files : Dict j.Bytes
      files = insert r.tx_id (j.encode r) (erase r.tx_id s.disk)

      erased : IsNamed (erase r.tx_id s.disk)
      erased k b q found good = named k b q (ground (arith, lookup-erase r.tx_id k s.disk)) good
