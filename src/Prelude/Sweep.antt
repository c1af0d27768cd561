-- ===== src/Prelude/Sweep.antt =====
-- `for k, v := range m { if p(v) { delete(m, k) } }`: Go visits each key once and reads the value
-- that stands under it then.
use kufi_chain.Prelude.Tests.{if◌then◌else◌, Bool-cases}
use kufi_chain.Prelude.Lists.{contains}
use kufi_chain.Prelude.Dict.{Dict, lookup, erase, lookup-erase}
use Prim.Native.String.{String}
use mathlib.Core.Path.{◌≡◌, refl}
use mathlib.Core.Logic.{inl, inr}
use mathlib.Core.Bool.{Bool, false}
use mathlib.Core.Option.{Option, none, some}
use mathlib.Core.List.{List, [], ◌∷◌}
use native.Mathlib.Omega.{arith}
use text.Mathlib.Text.{◌==◌}
use text.Mathlib.TextEquality.{eq_iff}

module _ {ℓ} {V : Type ℓ} where
  -- The keys in the order of the list.
  unfoldable pub keys : Dict V → List String
  keys [] = []
  keys ((k, v) ∷ m) = k ∷ keys m

  abbrev pub drop_if : (V → Bool) → Option V → Option V
  drop_if p none = none
  drop_if p (some v) = if p v then none else some v

  unfoldable pub sweep_key : (V → Bool) → String → Dict V → Dict V
  sweep_key p k m = elim (lookup k m) [ none ↦ m | some v ↦ if p v then erase k m else m ]

  unfoldable pub sweep_keys : (V → Bool) → List String → Dict V → Dict V
  sweep_keys p [] m = m
  sweep_keys p (k ∷ ks) m = sweep_keys p ks (sweep_key p k m)

  unfoldable pub sweep : (V → Bool) → Dict V → Dict V
  sweep p m = sweep_keys p (keys m) m

  lookup-sweep_key :
      (p : V → Bool) (k j : String) (m : Dict V)
      → lookup j (sweep_key p k m) ≡ (if k == j then drop_if p (lookup j m) else lookup j m)
  unfolding sweep_key
  lookup-sweep_key p k j m = ground (arith, lookup-erase k j m, eq_iff k j)

  drop_if_twice : (p : V → Bool) (o : Option V) → drop_if p (drop_if p o) ≡ drop_if p o
  drop_if_twice p none = refl
  drop_if_twice p (some v) = ground arith

  lookup-sweep_keys :
      (p : V → Bool) (ks : List String) (j : String) (m : Dict V)
      → lookup j (sweep_keys p ks m)
        ≡ (if contains j ks then drop_if p (lookup j m) else lookup j m)
  unfolding sweep_keys
  lookup-sweep_keys p [] j m = refl
  lookup-sweep_keys p (k ∷ ks) j m = ground (
    arith,
    lookup-sweep_keys p ks j (sweep_key p k m),
    lookup-sweep_key p k j m,
    drop_if_twice p (lookup j m),
  )

  pub absent_key : (j : String) (m : Dict V) → contains j (keys m) ≡ false → lookup j m ≡ none
  unfolding keys lookup
  absent_key j [] h = refl
  absent_key j ((k, v) ∷ m) h = ground (arith, absent_key j m)

  -- Sweeping drops exactly the entries that pass the test.
  pub lookup-sweep :
      (p : V → Bool) (j : String) (m : Dict V) → lookup j (sweep p m) ≡ drop_if p (lookup j m)
  unfolding sweep
  lookup-sweep p j m = elim (Bool-cases (contains j (keys m))) [
    | inl here ↦ ground (arith, lookup-sweep_keys p (keys m) j m)
    | inr there ↦ ground (arith, lookup-sweep_keys p (keys m) j m, absent_key j m)
  ]
