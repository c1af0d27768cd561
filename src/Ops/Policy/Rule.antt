-- ===== src/Ops/Policy/Rule.antt =====
-- What a rule asks for that `isORPolicyRule` accepts.
use kufi_chain.Prelude.{
  ℕ, zero, suc, ◌+◌, ◌<◌, ◌≤◌, ◌≡◌, refl, ap, subst, ◌∙◌, Bool, true, false, ◌&&◌, ◌||◌, some, List,
  [], ◌∷◌, arith, if◌then◌else◌, eqb, leb, ltb, length, any, All, Bool-cases, Option-cases, inl,
  inr,
}
use kufi_chain.Prelude.Int.{pos, negsuc, leb_ℤ, eq_ℤ}
use kufi_chain.Ops.Policy.{
  SignaturePolicy, unset, signed_by, n_out_of, Rules, no_rules, rule_and, rule_count, seen_signers,
  is_or_policy_rule,
}

-- Fabric's reading of a rule: whether it is met, where `signs i` says if the identity `i` has signed.
abbrev mutual
  pub is_met : (ℕ → Bool) → SignaturePolicy → Bool
  is_met signs unset = false
  is_met signs (signed_by (pos i)) = signs i
  is_met signs (signed_by (negsuc i)) = false
  is_met signs (n_out_of n rules) = leb_ℤ n (pos (met_count signs rules))

  pub met_count : (ℕ → Bool) → Rules → ℕ
  met_count signs no_rules = 0
  met_count signs (rule_and r rs) = (if is_met signs r then 1 else 0) + met_count signs rs

-- One of the first `n` has signed.
abbrev pub any_below : ℕ → (ℕ → Bool) → Bool
any_below zero signs = false
any_below (suc n) signs = signs n || any_below n signs

abbrev has : ℕ → List ℕ → Bool
has n xs = any (λ j. eqb j n) xs

abbrev except : ℕ → List ℕ → List ℕ
except n [] = []
except n (x ∷ xs) = if eqb x n then except n xs else x ∷ except n xs

abbrev AreDifferent : List ℕ → Type 0
AreDifferent [] = Unit {0}
AreDifferent (x ∷ xs) = (has x xs ≡ false) × AreDifferent xs

abbrev AreBelow : ℕ → List ℕ → Type 0
AreBelow n xs = All (λ x. x < n) xs

has-except : (n m : ℕ) (xs : List ℕ) → has m xs ≡ false → has m (except n xs) ≡ false
has-except n m [] h = refl
has-except n m (x ∷ xs) h = ground (arith, has-except n m xs)

except-AreDifferent : (n : ℕ) (xs : List ℕ) → AreDifferent xs → AreDifferent (except n xs)
except-AreDifferent n [] h = tt
except-AreDifferent n (x ∷ xs) (new, rest) =
    let tail = except-AreDifferent n xs rest in ground (arith, tail, has-except n x xs)

except-AreBelow : (n : ℕ) (xs : List ℕ) → AreBelow (suc n) xs → AreBelow n (except n xs)
except-AreBelow n [] h = tt
except-AreBelow n (x ∷ xs) (h, rest) = let tail = except-AreBelow n xs rest in ground (arith, tail)

except_absent : (n : ℕ) (xs : List ℕ) → has n xs ≡ false → except n xs ≡ xs
except_absent n [] h = refl
except_absent n (x ∷ xs) h = ground (arith, except_absent n xs)

length-except :
    (n : ℕ) (xs : List ℕ)
    → AreDifferent xs
    → length (except n xs) + (if has n xs then 1 else 0) ≡ length xs
length-except n [] h = omega arith
length-except n (x ∷ xs) (new, rest) = elim (Bool-cases (eqb x n)) [
  | inl e ↦
      let same : x ≡ n = ground arith in
      let absent : has n xs ≡ false = subst (λ y. has y xs ≡ false) same new in
      ground (arith, except_absent n xs absent)
  | inr e ↦ ground (arith, length-except n xs rest)
]

any-except :
    (n : ℕ) (signs : ℕ → Bool) (xs : List ℕ)
    → any signs xs ≡ ((has n xs && signs n) || any signs (except n xs))
any-except n signs [] = refl
any-except n signs (x ∷ xs) = elim (Bool-cases (eqb x n)) [
  | inl e ↦
      let same : x ≡ n = ground arith in
      let sign : signs x ≡ signs n = ap signs same in ground (arith, any-except n signs xs)
  | inr e ↦ ground (arith, any-except n signs xs)
]

-- Different numbers below `n` are at most `n`.
length_below : (n : ℕ) (xs : List ℕ) → AreDifferent xs → AreBelow n xs → length xs ≤ n
length_below zero [] d b = omega arith
length_below zero (x ∷ xs) d (h, rest) = absurd (omega (arith, h))
length_below (suc n) xs d b =
    let rest = length_below n (except n xs) (except-AreDifferent n xs d) (except-AreBelow n xs b) in
    ground (arith, rest, length-except n xs d)

-- `n` different numbers below `n` are all of them.
all_below :
    (n : ℕ) (signs : ℕ → Bool) (xs : List ℕ)
    → AreDifferent xs
    → AreBelow n xs
    → length xs ≡ n
    → any signs xs ≡ any_below n signs
all_below zero signs [] d b h = refl
all_below zero signs (x ∷ xs) d b h = absurd (omega (arith, h))
all_below (suc n) signs xs d b h =
    let fewer =
      length_below n (except n xs) (except-AreDifferent n xs d) (except-AreBelow n xs b) in
    let count = length-except n xs d in
    let rest =
      all_below n signs (except n xs) (except-AreDifferent n xs d) (except-AreBelow n xs b)
        (ground arith) in
    let here : has n xs ≡ true = ground arith in any-except n signs xs ∙ ground (arith, rest)

-- What the loop of `isORPolicyRule` has seen.
seen_signers-found :
    (n : ℕ) (signs : ℕ → Bool) (seen found : List ℕ) (rules : Rules)
    → AreDifferent seen
    → AreBelow n seen
    → seen_signers n seen rules ≡ some found
    → AreDifferent found
      × AreBelow n found
      × (any signs found ≡ (any signs seen || leb 1 (met_count signs rules)))
unfolding seen_signers
seen_signers-found n signs seen found no_rules d b h =
    let e : seen ≡ found = cc in
    (subst AreDifferent e d, subst (AreBelow n) e b, ground (arith, ap (any signs) e))
seen_signers-found n signs seen found (rule_and unset rules) d b h = absurd (cc)
seen_signers-found n signs seen found (rule_and (n_out_of k inner) rules) d b h = absurd (cc)
seen_signers-found n signs seen found (rule_and (signed_by (negsuc i)) rules) d b h = absurd (cc)
seen_signers-found n signs seen found (rule_and (signed_by (pos i)) rules) d b h =
    elim (Bool-cases (ltb i n)) [
      | inr over ↦ absurd (ground arith)
      | inl under ↦ elim (Bool-cases (any (λ j. eqb j i) seen)) [
        | inl known ↦ absurd (ground arith)
        | inr new ↦
            let (d', b', met) =
              seen_signers-found n signs (i ∷ seen) found rules (new, d) (ground arith, b)
                (ground arith) in
            (d', b', ground (arith, met))
      ]
    ]

-- A rule that `isORPolicyRule` accepts for so many identities is met exactly when one of them has
-- signed.
pub is_or_policy_rule-is_met :
    (rule : SignaturePolicy) (identities : ℕ) (signs : ℕ → Bool)
    → is_or_policy_rule (some rule) identities ≡ true
    → is_met signs rule ≡ any_below identities signs
unfolding is_or_policy_rule
is_or_policy_rule-is_met unset identities signs h = absurd (cc)
is_or_policy_rule-is_met (signed_by i) identities signs h = absurd (cc)
is_or_policy_rule-is_met (n_out_of n rules) identities signs h =
    elim (Bool-cases (eq_ℤ n (pos 1))) [
      | inr other ↦ absurd (ground arith)
      | inl one ↦ elim (Bool-cases (eqb (rule_count rules) identities)) [
        | inr other ↦ absurd (ground arith)
        | inl all ↦ elim (Option-cases (seen_signers identities [] rules)) [
          | inl none_seen ↦ absurd (ground arith)
          | inr (found, e) ↦
              let (d, b, met) = seen_signers-found identities signs [] found rules tt tt e in
              let every = all_below identities signs found d b (ground arith) in
              ground (arith, met, every)
        ]
      ]
    ]
