-- ===== src/Api/Files/Kept.antt =====
-- What the stores of nonces and keys still know after a restart.
use kufi_chain.Prelude.{
  String, ◌≡◌, true, false, none, some, [], ◌∷◌, ◌++◌, arith, sym, Option-cases, subst, inl, inr,
}
use kufi_chain.Prelude.Int.{ℤ, ◌≤ℤ◌, ◌-ℤ◌, ◌+ℤ◌, ltb_ℤ, -ℤ_parts}
use kufi_chain.Prelude.Dict.{Dict, lookup, insert, lookup-insert_self}
use kufi_chain.Prelude.Sweep.{sweep, lookup-sweep}
use kufi_chain.Prelude.Copy.{KeepsNames, lookup-copy}
use kufi_chain.Api.Files.{Codec, take_at}
use kufi_chain.Api.Idempotency.{IdempotencyEntry}
use kufi_chain.Api.Files.Keys.{
  FileIdempotencyStore, loaded_entry, new_file_idempotency_store, store_key, write_key, get_key,
  restart_keys,
}
use kufi_chain.Api.Files.Nonces.{
  FileNonceStore, kept, new_file_nonce_store, persist, add, exists, cleanup,
}
use kufi_chain.Api.Files.Nonces as Nonces

kept-KeepsNames : (now window : ℤ) (m : Dict ℤ) → KeepsNames (kept now window) m
kept-KeepsNames now window m k v name w found e = ground arith

-- A restart after a round of the cleanup is not seen: at no later time does it change the answer of
-- `Exists`.
pub exists-restart :
    (t₀ now t : ℤ) (nonce : String) (s : FileNonceStore)
    → t₀ ≤ℤ now
    → now ≤ℤ t
    → exists t nonce (Nonces.restart now (cleanup t₀ s)) ≡ exists t nonce s
unfolding exists Nonces.restart cleanup persist new_file_nonce_store
exists-restart t₀ now t nonce s before after =
    let swept = sweep (λ x. ltb_ℤ s.window (t₀ -ℤ x)) s.nonces in
    let copied = lookup-copy (kept now s.window) nonce swept (kept-KeepsNames now s.window swept) in
    let left = lookup-sweep (λ x. ltb_ℤ s.window (t₀ -ℤ x)) nonce s.nonces in
    elim (Option-cases (lookup nonce s.nonces)) [
      | inl absent ↦ ground (arith, copied, left)
      | inr (x, found) ↦ ground (arith, copied, left, -ℤ_parts t₀ x, -ℤ_parts now x, -ℤ_parts t x)
    ]

-- A nonce that is not in the file and is added is found until its window ends, and is unknown after
-- a restart, where nothing has been written in between.
pub exists-restart_forgets :
    (a now t : ℤ) (nonce : String) (s : FileNonceStore)
    → ((m : Dict ℤ) → s.disk ≡ some m → lookup nonce m ≡ none)
    → (exists t nonce (add nonce a s) ≡ ltb_ℤ (t -ℤ a) s.window)
      × (exists t nonce (Nonces.restart now (add nonce a s)) ≡ false)
unfolding exists Nonces.restart add new_file_nonce_store lookup
exists-restart_forgets a now t nonce s missing = (
  ground (arith, lookup-insert_self nonce a s.nonces),
  elim (Option-cases s.disk) [
    | inl no_file ↦ ground arith
    | inr (m, file) ↦
        let copied = lookup-copy (kept now s.window) nonce m (kept-KeepsNames now s.window m) in
        let absent = missing m file in ground (arith, copied, absent)
  ],
)

module _ {A : Type 0} (j : Codec (IdempotencyEntry A)) where
  -- A key whose receipt is stored and written answers with it after a restart too, up to the end of
  -- the TTL, where no other write waits.
  pub get_key-restart_keys :
      (t₀ now t : ℤ) (key : String) (r : A) (s : FileIdempotencyStore A j.Bytes)
      → s.pending ≡ []
      → now ≤ℤ t
      → t ≤ℤ t₀ +ℤ s.ttl
      → get_key j t key (restart_keys j now (write_key j 0 true (store_key j t₀ key r s))) ≡ some r
  unfolding get_key restart_keys new_file_idempotency_store store_key write_key take_at
  get_key-restart_keys t₀ now t key r s idle before inside =
      let entry : IdempotencyEntry A = record { receipt = r; expires_at = t₀ +ℤ s.ttl } in
      let disk = insert key (j.encode entry) s.disk in
      let keeps : KeepsNames (loaded_entry j now) disk =
        λ k b name w found e. own_name now k b name w e in
      let copied = lookup-copy (loaded_entry j now) key disk keeps in
      let there = lookup-insert_self key (j.encode entry) s.disk in
      let read_back = j.decode-encode entry in
      subst
        (λ ps.
          get_key j t key (
            restart_keys j now (
              write_key j 0 true (record s {
                entries = insert key entry s.entries;
                pending = ps ++ (key, entry) ∷ [];
              })))
          ≡ some r)
        (sym idle) (ground (arith, copied, there, read_back))
    where
      own_name :
          (now : ℤ) (k : String) (b : j.Bytes) (name : String) (w : IdempotencyEntry A)
          → loaded_entry j now k b ≡ some (name, w)
          → name ≡ k
      own_name now k b name w e = elim (Option-cases (j.decode b)) [
        | inl corrupt ↦ absurd (ground arith)
        | inr (x, good) ↦ ground arith
      ]
