-- ===== src/Api/Nonces/Replay.antt =====
-- How long a used nonce is remembered.
use kufi_chain.Prelude.{
  String, ◌≡◌, refl, true, some, List, [], ◌∷◌, arith, ◌==◌, Bool-cases, Option-cases, inl, inr,
}
use kufi_chain.Prelude.Int.{ℤ, ◌-ℤ◌, ◌≤ℤ◌, ltb_ℤ, -ℤ_parts}
use kufi_chain.Prelude.Dict.{lookup, lookup-insert, lookup-insert_self}
use kufi_chain.Prelude.Sweep.{lookup-sweep}
use kufi_chain.Api.Nonces.{NonceStore, add, exists, cleanup}

-- A round of the cleanup is not seen: at no later time does it change the answer of `Exists`.
pub exists-cleanup :
    (t₀ t : ℤ) (nonce : String) (s : NonceStore)
    → t₀ ≤ℤ t
    → exists t nonce (cleanup t₀ s) ≡ exists t nonce s
unfolding exists cleanup
exists-cleanup t₀ t nonce s h = elim (Option-cases (lookup nonce s.nonces)) [
  | inl absent ↦ ground (arith, lookup-sweep (λ x. ltb_ℤ s.window (t₀ -ℤ x)) nonce s.nonces)
  | inr (x, found) ↦ ground (
    arith,
    lookup-sweep (λ y. ltb_ℤ s.window (t₀ -ℤ y)) nonce s.nonces,
    -ℤ_parts t₀ x,
    -ℤ_parts t x,
  )
]

-- What the gateway does to the store: it adds a nonce at the present time, and cleans up.
pub data NonceOp : Type 0 where
  add_op : String → ℤ → NonceOp
  cleanup_op : ℤ → NonceOp

unfoldable pub run : List NonceOp → NonceStore → NonceStore
run [] s = s
run (add_op nonce t ∷ ops) s = run ops (add nonce t s)
run (cleanup_op t ∷ ops) s = run ops (cleanup t s)

-- The operations happen between two times.
abbrev pub Between : ℤ → ℤ → List NonceOp → Type 0
Between a b [] = Unit
Between a b (add_op nonce t ∷ ops) = (a ≤ℤ t) × (t ≤ℤ b) × Between a b ops
Between a b (cleanup_op t ∷ ops) = (a ≤ℤ t) × (t ≤ℤ b) × Between a b ops

abbrev pub Recorded : ℤ → String → NonceStore → Type 0
Recorded a nonce s = (x : ℤ) × (lookup nonce s.nonces ≡ some x) × (a ≤ℤ x)

window-run : (ops : List NonceOp) (s : NonceStore) → (run ops s).window ≡ s.window
unfolding run add cleanup
window-run [] s = refl
window-run (add_op nonce t ∷ ops) s = window-run ops (add nonce t s)
window-run (cleanup_op t ∷ ops) s = window-run ops (cleanup t s)

pub Recorded-add :
    (a t : ℤ) (nonce k : String) (s : NonceStore)
    → a ≤ℤ t
    → Recorded a nonce s
    → Recorded a nonce (add k t s)
unfolding add
Recorded-add a t nonce k s later (x, found, h) = elim (Bool-cases (k == nonce)) [
  | inl same ↦ (t, ground (arith, lookup-insert k nonce t s.nonces), later)
  | inr other ↦ (x, ground (arith, lookup-insert k nonce t s.nonces), h)
]

pub Recorded-cleanup :
    (a b t : ℤ) (nonce : String) (s : NonceStore)
    → t ≤ℤ b
    → ltb_ℤ (b -ℤ a) s.window ≡ true
    → Recorded a nonce s
    → Recorded a nonce (cleanup t s)
unfolding cleanup
Recorded-cleanup a b t nonce s early inside (x, found, h) = (
  x,
  ground (
    arith,
    lookup-sweep (λ y. ltb_ℤ s.window (t -ℤ y)) nonce s.nonces,
    -ℤ_parts t x,
    -ℤ_parts b a,
  ),
  h,
)

run-Recorded :
    (ops : List NonceOp) (a b : ℤ) (nonce : String) (s : NonceStore)
    → Between a b ops
    → ltb_ℤ (b -ℤ a) s.window ≡ true
    → Recorded a nonce s
    → Recorded a nonce (run ops s)
unfolding run add cleanup
run-Recorded [] a b nonce s h inside r = r
run-Recorded (add_op k t ∷ ops) a b nonce s (later, early, h) inside r =
    run-Recorded ops a b nonce (add k t s) h inside (Recorded-add a t nonce k s later r)
run-Recorded (cleanup_op t ∷ ops) a b nonce s (later, early, h) inside r =
    run-Recorded ops a b nonce (cleanup t s) h inside
      (Recorded-cleanup a b t nonce s early inside r)

-- A recorded nonce is found for the rest of the window.
pub exists-Recorded :
    (a b : ℤ) (nonce : String) (s : NonceStore)
    → ltb_ℤ (b -ℤ a) s.window ≡ true
    → Recorded a nonce s
    → exists b nonce s ≡ true
unfolding exists
exists-Recorded a b nonce s inside (x, found, later) = ground (arith, -ℤ_parts b x, -ℤ_parts b a)

-- Once a nonce has been added at time `a`, `Exists` finds it at every time `b` with less than a
-- window in between, whatever nonces are added and rounds of the cleanup run from `a` to `b`.
pub exists-run :
    (ops : List NonceOp) (a b : ℤ) (nonce : String) (s : NonceStore)
    → Between a b ops
    → ltb_ℤ (b -ℤ a) s.window ≡ true
    → exists b nonce (run ops (add nonce a s)) ≡ true
unfolding exists add
exists-run ops a b nonce s h inside =
    let s' = add nonce a s in
    let start : Recorded a nonce s' = (a, lookup-insert_self nonce a s.nonces, omega arith) in
    let (x, found, later) = run-Recorded ops a b nonce s' h inside start in
    ground (arith, window-run ops s', -ℤ_parts b x, -ℤ_parts b a)
