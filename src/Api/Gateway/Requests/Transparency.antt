-- ===== src/Api/Gateway/Requests/Transparency.antt =====
-- When the transparency policy is met, and which organisations are asked to endorse.
use kufi_chain.Prelude.{
  ◌≤◌, String, ◌≡◌, refl, ◌≢◌, ◌↔◌, Bool, true, false, not, ◌&&◌, ◌||◌, List, [], ◌∷◌, arith,
  eq_iff, ◌==◌, if◌then◌else◌, leb, eqb, length, any, Bool-cases, inl, inr, eq_refl, subst, sym,
}
use kufi_chain.Prelude.Dict.{Dict, insert, length-insert}
use kufi_chain.Fabric.Types.{Endorsement}
use kufi_chain.Api.Gateway.Host.{Settings}
use kufi_chain.Api.Gateway.Requests.{
  first_two, distinct_orgs, select_transparency_endorsing_orgs, tally, is_transparency_policy_met,
}

-- Some endorsement is that of the MSP.
abbrev pub endorsed_by : String → List Endorsement → Bool
endorsed_by m es = any (λ e. e.msp_id == m) es

-- Some endorsement names an MSP, and another one than `m`.
abbrev others : String → List Endorsement → Bool
others m es = any (λ e. not (e.msp_id == "") && not (e.msp_id == m)) es

others-elim :
    (m : String) (es : List Endorsement)
    → others m es ≡ true
    → (k : String) × (k ≢ "") × (m ≢ k) × (endorsed_by k es ≡ true)
others-elim m [] h = absurd (ground arith)
others-elim m (e ∷ es) h = elim (Bool-cases (not (e.msp_id == "") && not (e.msp_id == m))) [
  | inl here ↦ (
    e.msp_id,
    ground (arith, eq_iff e.msp_id ""),
    ground (arith, eq_iff e.msp_id m),
    ground (arith, eq_refl e.msp_id),
  )
  | inr there ↦
      let (k, named, other, found) = others-elim m es (ground arith) in
      (k, named, other, ground (arith, found))
]

others-intro :
    (m k : String) (es : List Endorsement)
    → k ≢ ""
    → m ≢ k
    → endorsed_by k es ≡ true
    → others m es ≡ true
others-intro m k [] named other found = absurd (ground arith)
others-intro m k (e ∷ es) named other found = elim (Bool-cases (e.msp_id == k)) [
  | inl here ↦ ground (arith, eq_iff e.msp_id k, eq_iff e.msp_id "", eq_iff e.msp_id m)
  | inr there ↦ ground (arith, others-intro m k es named other (ground arith))
]

length-tally :
    (origin : String) (es : List Endorsement) (d : Dict Bool) (b : Bool)
    → length d ≤ length (tally origin es d b).0
unfolding tally
length-tally origin [] d b = omega arith
length-tally origin (e ∷ es) d b =
    let skipped = length-tally origin es d b in
    let taken =
      length-tally origin es (insert e.msp_id true d) (if e.msp_id == origin then b else true) in
    ground (arith, length-insert e.msp_id true d, skipped, taken)

tally-one :
    (origin m : String) (es : List Endorsement) (b : Bool)
    → leb 2 (length (tally origin es ((m, true) ∷ []) b).0) ≡ others m es
unfolding tally insert
tally-one origin m [] b = refl
tally-one origin m (e ∷ es) b =
    let seen = if e.msp_id == origin then b else true in
    ground (
      arith,
      tally-one origin m es b,
      tally-one origin m es seen,
      eq_iff e.msp_id m,
      eq_iff m e.msp_id,
      length-tally origin es ((m, true) ∷ (e.msp_id, true) ∷ []) seen,
    )

-- The flag.
tally-independent :
    (origin : String) (es : List Endorsement) (d : Dict Bool) (b : Bool)
    → (tally origin es d b).1 ≡ (b || others origin es)
unfolding tally
tally-independent origin [] d b = ground arith
tally-independent origin (e ∷ es) d b =
    let seen = if e.msp_id == origin then b else true in
    ground (
      arith,
      tally-independent origin es d b,
      tally-independent origin es (insert e.msp_id true d) seen,
    )

-- Two endorsements of different MSPs, both named.
abbrev pub TwoMsps : List Endorsement → Type 0
TwoMsps es =
    (m : String) × (k : String) × (m ≢ "")
    × (k ≢ "")
    × (m ≢ k)
    × (endorsed_by m es ≡ true)
    × (endorsed_by k es ≡ true)

tally-two :
    (origin : String) (es : List Endorsement) (b : Bool)
    → leb 2 (length (tally origin es [] b).0) ≡ true
    → TwoMsps es
unfolding tally insert
tally-two origin [] b h = absurd (ground arith)
tally-two origin (e ∷ es) b h = elim (Bool-cases (e.msp_id == "")) [
  | inl unnamed ↦
      let (m, k, x, y, z, u, v) = tally-two origin es b (ground arith) in
      (m, k, x, y, z, ground (arith, u), ground (arith, v))
  | inr named ↦
      let one = tally-one origin e.msp_id es (if e.msp_id == origin then b else true) in
      let (k, y, z, v) = others-elim e.msp_id es (ground (arith, one)) in
      (
        e.msp_id,
        k,
        ground (arith, eq_iff e.msp_id ""),
        y,
        z,
        ground (arith, eq_refl e.msp_id),
        ground (arith, v),
      )
]

two-tally :
    (origin : String) (es : List Endorsement) (b : Bool)
    → TwoMsps es
    → leb 2 (length (tally origin es [] b).0) ≡ true
unfolding tally insert
two-tally origin [] b (m, k, x, y, z, u, v) = absurd (ground arith)
two-tally origin (e ∷ es) b (m, k, x, y, z, u, v) = elim (Bool-cases (e.msp_id == "")) [
  | inl unnamed ↦ ground (
    arith,
    eq_iff e.msp_id "",
    eq_iff e.msp_id m,
    eq_iff e.msp_id k,
    two-tally origin es b (m, k, x, y, z, rest m x unnamed u, rest k y unnamed v),
  )
  | inr named ↦
      let one = tally-one origin e.msp_id es (if e.msp_id == origin then b else true) in
      elim (Bool-cases (e.msp_id == m)) [
        | inl same ↦ ground (
          arith,
          one,
          others-intro e.msp_id k es y (ground (arith, eq_iff e.msp_id m))
              (ground (arith, eq_iff e.msp_id m, eq_iff e.msp_id k)),
        )
        | inr differs ↦ ground (
          arith,
          one,
          others-intro e.msp_id m es x (ground (arith, eq_iff e.msp_id m, eq_refl m))
              (ground arith),
        )
      ]
]
  where
    rest :
        (m : String)
        → m ≢ ""
        → (e.msp_id == "") ≡ true
        → endorsed_by m (e ∷ es) ≡ true
        → endorsed_by m es ≡ true
    rest m x unnamed u = ground (arith, eq_iff e.msp_id "", eq_iff e.msp_id m)

-- The transparency policy is met exactly when two different MSPs, both named, have endorsed.
-- Whether one of them is the origin plays no role.
pub is_transparency_policy_met_iff :
    (h : Settings) (es : List Endorsement) → (is_transparency_policy_met h es ≡ true) ↔ TwoMsps es
unfolding is_transparency_policy_met
is_transparency_policy_met_iff h es = (
  λ e. tally-two h.msp_id es false (ground arith),
  λ (m, k, x, y, z, u, v).
      let two = two-tally h.msp_id es false (m, k, x, y, z, u, v) in
      let some_there : eqb (length es) 0 ≡ false = there es m u in
      let not_origin : others h.msp_id es ≡ true = elim (Bool-cases (h.msp_id == m)) [
        | inl same ↦ others-intro h.msp_id k es y (ground (arith, eq_iff h.msp_id m)) v
        | inr differs ↦
            others-intro h.msp_id m es x (ground (arith, eq_iff h.msp_id m, eq_refl m)) u
      ] in
      ground (arith, two, some_there, not_origin, tally-independent h.msp_id es [] false),
)
  where
    there :
        (xs : List Endorsement) (m : String) → endorsed_by m xs ≡ true → eqb (length xs) 0 ≡ false
    there [] m u = absurd (ground arith)
    there (x ∷ xs) m u = ground arith

ne_texts : (a b : String) → (a == b) ≡ false → a ≢ b
ne_texts a b h = ground (arith, eq_iff a b)

-- Every transfer asks exactly two organisations to endorse: the gateway's own, where it has a name,
-- and another one.
pub select_transparency_endorsing_orgs_pair :
    (h : Settings)
    → (a : String) × (b : String) × (select_transparency_endorsing_orgs h ≡ a ∷ b ∷ [])
      × (a ≢ "")
      × (b ≢ "")
      × (a ≢ b)
      × (h.msp_id ≢ "" → a ≡ h.msp_id)
unfolding select_transparency_endorsing_orgs distinct_orgs
select_transparency_endorsing_orgs_pair h = elim (Bool-cases (h.msp_id == "")) [
  | inl unnamed ↦ (
    "TechcombankMSP",
    "VietcombankMSP",
    ground arith,
    ne_texts "TechcombankMSP" "" refl,
    ne_texts "VietcombankMSP" "" refl,
    ne_texts "TechcombankMSP" "VietcombankMSP" refl,
    ground (arith, eq_iff h.msp_id ""),
  )
  | inr named ↦ elim (Bool-cases (h.msp_id == "TechcombankMSP")) [
    | inl first ↦ (
      h.msp_id,
      "VietcombankMSP",
      subst
          (λ x.
            first_two (distinct_orgs [] (x ∷ "TechcombankMSP" ∷ "VietcombankMSP" ∷ "TaxMSP" ∷ []))
            ≡ x ∷ "VietcombankMSP" ∷ [])
          (sym ((eq_iff h.msp_id "TechcombankMSP").0 first)) refl,
      ground (arith, eq_iff h.msp_id ""),
      ne_texts "VietcombankMSP" "" refl,
      ground (
        arith,
        eq_iff h.msp_id "TechcombankMSP",
        ne_texts "TechcombankMSP" "VietcombankMSP" refl,
      ),
      λ e. refl,
    )
    | inr other ↦ (
      h.msp_id,
      "TechcombankMSP",
      ground (arith, eq_iff h.msp_id "TechcombankMSP"),
      ground (arith, eq_iff h.msp_id ""),
      ne_texts "TechcombankMSP" "" refl,
      ground (arith, eq_iff h.msp_id "TechcombankMSP"),
      λ e. refl,
    )
  ]
]
