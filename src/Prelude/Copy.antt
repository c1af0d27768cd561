-- ===== src/Prelude/Copy.antt =====
-- `for k, v := range src { if … { dst[name] = … } }`: entries of one map put into another.
use kufi_chain.Prelude.Tests.{if◌then◌else◌, Bool-cases, Option-cases}
use kufi_chain.Prelude.Lists.{contains}
use kufi_chain.Prelude.Dict.{Dict, lookup, insert, lookup-insert}
use kufi_chain.Prelude.Sweep.{keys, absent_key}
use Prim.Native.String.{String}
use mathlib.Core.Path.{◌≡◌, refl}
use mathlib.Core.Logic.{inl, inr}
use mathlib.Core.Option.{Option, none, some}
use mathlib.Core.List.{List, [], ◌∷◌}
use native.Mathlib.Omega.{arith}
use text.Mathlib.Text.{◌==◌}
use text.Mathlib.TextEquality.{eq_iff}

module _ {V W : Type 0} where
  -- `f` says what is made of an entry, and the name that it gets.
  unfoldable pub copy_key : (String → V → Option (String × W)) → String → Dict V → Dict W → Dict W
  copy_key f k src dst = elim (lookup k src) [
    | none ↦ dst
    | some v ↦ elim (f k v) [ none ↦ dst | some (name, w) ↦ insert name w dst ]
  ]

  unfoldable pub copy_keys :
      (String → V → Option (String × W)) → List String → Dict V → Dict W → Dict W
  copy_keys f [] src dst = dst
  copy_keys f (k ∷ ks) src dst = copy_keys f ks src (copy_key f k src dst)

  -- From an empty map.
  unfoldable pub copy : (String → V → Option (String × W)) → Dict V → Dict W
  copy f src = copy_keys f (keys src) src []

  -- Each entry gets its own name again.
  abbrev pub KeepsNames : (String → V → Option (String × W)) → Dict V → Type 0
  KeepsNames f src =
      (k : String) (v : V) (name : String) (w : W)
      → lookup k src ≡ some v
      → f k v ≡ some (name, w)
      → name ≡ k

  abbrev pub made : (String → V → Option (String × W)) → String → Option V → Option W → Option W
  made f k none d = d
  made f k (some v) d = elim (f k v) [ none ↦ d | some (name, w) ↦ some w ]

  lookup-copy_key :
      (f : String → V → Option (String × W)) (k j : String) (src : Dict V) (dst : Dict W)
      → KeepsNames f src
      → lookup j (copy_key f k src dst)
        ≡ (if k == j then made f j (lookup j src) (lookup j dst) else lookup j dst)
  unfolding copy_key
  lookup-copy_key f k j src dst names = elim (Option-cases (lookup k src)) [
    | inl absent ↦ ground (arith, eq_iff k j)
    | inr (v, found) ↦ elim (Option-cases (f k v)) [
      | inl nothing ↦ ground (arith, eq_iff k j)
      | inr ((name, w), some_made) ↦
          let same = names k v name w found some_made in
          ground (arith, eq_iff k j, lookup-insert name j w dst, same)
    ]
  ]

  made_twice :
      (f : String → V → Option (String × W)) (k : String) (o : Option V) (d : Option W)
      → made f k o (made f k o d) ≡ made f k o d
  made_twice f k none d = refl
  made_twice f k (some v) d = ground arith

  lookup-copy_keys :
      (f : String → V → Option (String × W)) (ks : List String) (j : String) (src : Dict V)
      (dst : Dict W)
      → KeepsNames f src
      → lookup j (copy_keys f ks src dst)
        ≡ (if contains j ks then made f j (lookup j src) (lookup j dst) else lookup j dst)
  unfolding copy_keys
  lookup-copy_keys f [] j src dst names = refl
  lookup-copy_keys f (k ∷ ks) j src dst names = ground (
    arith,
    lookup-copy_keys f ks j src (copy_key f k src dst) names,
    lookup-copy_key f k j src dst names,
    made_twice f j (lookup j src) (lookup j dst),
  )

  -- The copy has under a name what is made of the entry of that name.
  pub lookup-copy :
      (f : String → V → Option (String × W)) (j : String) (src : Dict V)
      → KeepsNames f src
      → lookup j (copy f src) ≡ made f j (lookup j src) none
  unfolding copy lookup
  lookup-copy f j src names = elim (Bool-cases (contains j (keys src))) [
    | inl here ↦ ground (arith, lookup-copy_keys f (keys src) j src [] names)
    | inr there ↦ ground (arith, lookup-copy_keys f (keys src) j src [] names, absent_key j src)
  ]
