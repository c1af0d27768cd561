-- ===== src/Prelude/Sort.antt =====
-- `sort.Strings`, and a sort of records by a text. The order of texts is that of their code points,
-- which for valid UTF-8 is the order of the bytes.
use kufi_chain.Prelude.Tests.{ltb, if◌then◌else◌, Bool-cases}
use kufi_chain.Prelude.Lists.{contains}
use text.Mathlib.TextPositions.{eq_refl}
use Prim.Native.Nat.{ℕ}
use Prim.Native.Char.{Char, code}
use Prim.Native.String.{String}
use mathlib.Core.Path.{◌≡◌, refl, sym, ap, ◌∙◌}
use mathlib.Core.Logic.{inl, inr}
use mathlib.Core.Bool.{Bool, true, false}
use mathlib.Core.List.{List, [], ◌∷◌}
use native.Mathlib.Omega.{arith}
use text.Mathlib.Text.{◌==◌}
use text.Mathlib.TextEquality.{codes_equal, eq_iff}

abbrev pub codes : String → List ℕ
codes String.[] = []
codes (String.◌∷◌ c s) = code c ∷ codes s

leb_codes : List ℕ → List ℕ → Bool
leb_codes [] ys = true
leb_codes (x ∷ xs) [] = false
leb_codes (x ∷ xs) (y ∷ ys) = if ltb x y then true else if ltb y x then false else leb_codes xs ys

-- `s <= t` on strings
unfoldable pub leb_text : String → String → Bool
unfolding leb_codes
leb_text s t = leb_codes (codes s) (codes t)

leb_codes_total : (xs ys : List ℕ) → leb_codes xs ys ≡ false → leb_codes ys xs ≡ true
unfolding leb_codes
leb_codes_total [] ys h = ground arith
leb_codes_total (x ∷ xs) [] h = refl
leb_codes_total (x ∷ xs) (y ∷ ys) h = ground (arith, leb_codes_total xs ys)

leb_codes_trans :
    (xs ys zs : List ℕ) → leb_codes xs ys ≡ true → leb_codes ys zs ≡ true → leb_codes xs zs ≡ true
unfolding leb_codes
leb_codes_trans [] ys zs p q = refl
leb_codes_trans (x ∷ xs) [] zs p q = absurd (cc)
leb_codes_trans (x ∷ xs) (y ∷ ys) [] p q = absurd (cc)
leb_codes_trans (x ∷ xs) (y ∷ ys) (z ∷ zs) p q = ground (arith, leb_codes_trans xs ys zs)

leb_codes_antisymm : (xs ys : List ℕ) → leb_codes xs ys ≡ true → leb_codes ys xs ≡ true → xs ≡ ys
unfolding leb_codes
leb_codes_antisymm [] [] p q = refl
leb_codes_antisymm [] (y ∷ ys) p q = absurd (cc)
leb_codes_antisymm (x ∷ xs) [] p q = absurd (cc)
leb_codes_antisymm (x ∷ xs) (y ∷ ys) p q = ground (arith, leb_codes_antisymm xs ys)

codes_injective : (s t : String) → codes s ≡ codes t → s ≡ t
codes_injective String.[] String.[] h = refl
codes_injective String.[] (String.◌∷◌ d t) h = absurd (cc)
codes_injective (String.◌∷◌ c s) String.[] h = absurd (cc)
codes_injective (String.◌∷◌ c s) (String.◌∷◌ d t) h =
    let first : c ≡ d = code_injective c d (cc) in
    let rest : s ≡ t = codes_injective s t (cc) in λ i. String.◌∷◌ (first i) (rest i)
  where
    code_injective : (a b : Char) → code a ≡ code b → a ≡ b
    code_injective a b h = codes_equal a b (ground (arith, h))

pub leb_text_total : (s t : String) → leb_text s t ≡ false → leb_text t s ≡ true
unfolding leb_text
leb_text_total s t = leb_codes_total (codes s) (codes t)

pub leb_text_trans :
    (s t u : String) → leb_text s t ≡ true → leb_text t u ≡ true → leb_text s u ≡ true
unfolding leb_text
leb_text_trans s t u = leb_codes_trans (codes s) (codes t) (codes u)

pub leb_text_antisymm : (s t : String) → leb_text s t ≡ true → leb_text t s ≡ true → s ≡ t
unfolding leb_text
leb_text_antisymm s t p q = codes_injective s t (leb_codes_antisymm (codes s) (codes t) p q)

-- A text into its place.
unfoldable pub place : String → List String → List String
place s [] = s ∷ []
place s (t ∷ ts) = if leb_text s t then s ∷ t ∷ ts else t ∷ place s ts

-- `sort.Strings`
unfoldable pub sort : List String → List String
sort [] = []
sort (s ∷ ts) = place s (sort ts)

place_comm : (s t : String) (us : List String) → place s (place t us) ≡ place t (place s us)
unfolding place
place_comm s t [] = ground (arith, leb_text_total s t, leb_text_antisymm s t)
place_comm s t (u ∷ us) = ground (
  arith,
  place_comm s t us,
  leb_text_total s t,
  leb_text_total s u,
  leb_text_total t u,
  leb_text_antisymm s t,
  leb_text_trans s t u,
  leb_text_trans t s u,
)

-- Texts without one of them.
without : String → List String → List String
without s [] = []
without s (t ∷ ts) = if t == s then without s ts else t ∷ without s ts

abbrev pub AreDistinct : List String → Type 0
AreDistinct [] = Unit {0}
AreDistinct (s ∷ ts) = (contains s ts ≡ false) × AreDistinct ts

contains-without :
    (s m : String) (ts : List String)
    → contains m (without s ts) ≡ (if s == m then false else contains m ts)
unfolding without
contains-without s m [] = ground arith
contains-without s m (t ∷ ts) =
    ground (arith, contains-without s m ts, eq_iff t s, eq_iff s m, eq_iff t m)

without_absent : (s : String) (ts : List String) → contains s ts ≡ false → without s ts ≡ ts
unfolding without
without_absent s [] h = refl
without_absent s (t ∷ ts) h = ground (arith, without_absent s ts)

without-AreDistinct : (s : String) (ts : List String) → AreDistinct ts → AreDistinct (without s ts)
unfolding without
without-AreDistinct s [] h = tt
without-AreDistinct s (t ∷ ts) (new, rest) =
    let tail = without-AreDistinct s ts rest in
    ground (arith, tail, contains-without s t ts, eq_iff s t, eq_iff t s)

sort-without :
    (s : String) (ts : List String)
    → AreDistinct ts
    → contains s ts ≡ true
    → sort ts ≡ place s (sort (without s ts))
unfolding sort without
sort-without s [] distinct h = absurd (cc)
sort-without s (t ∷ ts) (new, rest) h = elim (Bool-cases (t == s)) [
  | inl e ↦ ground (arith, eq_iff t s, without_absent t ts new)
  | inr e ↦ ground (arith, sort-without s ts rest, place_comm t s (sort (without s ts)))
]

no_members : (ts : List String) → ((m : String) → contains m ts ≡ false) → ts ≡ []
no_members [] h = refl
no_members (t ∷ ts) h = absurd (ground (arith, h t, eq_refl t))

-- Two lists without repetitions that have the same members are sorted to one list.
pub sort_of_members :
    (ss ts : List String)
    → AreDistinct ss
    → AreDistinct ts
    → ((m : String) → contains m ss ≡ contains m ts)
    → sort ss ≡ sort ts
unfolding sort
sort_of_members [] ts ds dt h = ap sort (sym (no_members ts (λ m. sym (h m))))
sort_of_members (s ∷ ss) ts (new, ds) dt h =
    ap (place s) (
      sort_of_members ss (without s ts) ds (without-AreDistinct s ts dt)
        (λ m. ground (arith, h m, contains-without s m ts, eq_iff s m)))
    ∙ sym (sort-without s ts dt (ground (arith, h s, eq_refl s)))
