-- ===== src/Api/Idempotency/Expiry.antt =====
-- How long a key answers.
use kufi_chain.Prelude.{String, ◌≡◌, none, some, arith, ◌==◌, if◌then◌else◌, Option-cases, inl, inr}
use kufi_chain.Prelude.Int.{ℤ, ◌+ℤ◌, ◌≤ℤ◌, ltb_ℤ, leb_ℤ}
use kufi_chain.Prelude.Dict.{lookup, lookup-insert}
use kufi_chain.Prelude.Sweep.{lookup-sweep}
use kufi_chain.Api.Idempotency.{IdempotencyStore, store, get, cleanup}

module _ {Receipt : Type 0} where
  -- A round of the cleanup is not seen: at no later time does it change the answer of `Get`.
  pub get-cleanup :
      (t₀ t : ℤ) (key : String) (s : IdempotencyStore Receipt)
      → t₀ ≤ℤ t
      → get t key (cleanup t₀ s) ≡ get t key s
  unfolding get cleanup
  get-cleanup t₀ t key s h = elim (Option-cases (lookup key s.entries)) [
    | inl absent ↦ ground (arith, lookup-sweep (λ e. ltb_ℤ e.expires_at t₀) key s.entries)
    | inr (e, found) ↦ ground (arith, lookup-sweep (λ e. ltb_ℤ e.expires_at t₀) key s.entries)
  ]

  -- A stored receipt is the answer under its key up to the end of the TTL and not after it; every
  -- other key answers as before.
  pub get-store :
      (t₀ t : ℤ) (key k : String) (r : Receipt) (s : IdempotencyStore Receipt)
      → get t k (store t₀ key r s)
        ≡ (if key == k then (if leb_ℤ t (t₀ +ℤ s.ttl) then some r else none) else get t k s)
  unfolding get store
  get-store t₀ t key k r s =
      ground
        (arith, lookup-insert key k (record { receipt = r; expires_at = t₀ +ℤ s.ttl }) s.entries)
