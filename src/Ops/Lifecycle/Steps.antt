-- ===== src/Ops/Lifecycle/Steps.antt =====
-- What a call adds to the history, and the rules that carry this through the steps of a call.
use kufi_chain.Prelude.{
  String, ◌≡◌, refl, ◌⊎◌, inl, inr, Bool, true, false, none, some, [], ◌∷◌, if◌then◌else◌, Option,
  ℕ,
}
use kufi_chain.Prelude.Int.{ℤ, leb_ℤ}
use kufi_chain.Prelude.Action.{Result, ok, err, pure, raise, modify, caught, is_ok, ◌>>=◌}
use kufi_chain.Ops.Types.{Error}
use kufi_chain.Ops.Host.{Event, queried_committed, checked, approved, committed, slept, History}
use kufi_chain.Ops.Lifecycle.{Call, ask, approved_by, has_majority}

-- A command that stands in the history.
abbrev pub Ran : Event → History → Type 0
Ran e [] = ⊥
Ran e (x ∷ h) = (x ≡ e) ⊎ Ran e h

abbrev pub Shown : (Event → Type 0) → History → Type 0
Shown P h = (e : Event) × Ran e h × P e

-- The answer shows that a majority has approved the sequence, with the policy or as committed.
abbrev pub IsMajority : ℤ → String → Event → Type 0
IsMajority t policy (queried_committed (some c)) =
    (c.sequence ≡ t) × (has_majority c.approvals ≡ true)
IsMajority t policy (checked s q (ok (some approvals))) =
    (s ≡ t) × (q ≡ policy) × (has_majority approvals ≡ true)
IsMajority t policy _ = ⊥

-- The answer shows that this MSP has approved the sequence, with the policy or as committed.
abbrev pub IsApproval : String → ℤ → String → Event → Type 0
IsApproval msp_id t policy (queried_committed (some c)) =
    (c.sequence ≡ t) × (approved_by msp_id (some c.approvals) ≡ true)
IsApproval msp_id t policy (checked s q (ok (some approvals))) =
    (s ≡ t) × (q ≡ policy) × (approved_by msp_id (some approvals) ≡ true)
IsApproval msp_id t policy (approved id s q (ok done)) = (s ≡ t) × (q ≡ policy)
IsApproval msp_id t policy _ = ⊥

-- The answer shows that the sequence is committed, or a later one is.
abbrev pub IsCommit : ℤ → Event → Type 0
IsCommit t (queried_committed (some c)) = leb_ℤ t c.sequence ≡ true
IsCommit t (committed s q addresses (ok done)) = s ≡ t
IsCommit t _ = ⊥

-- What may be run next in a call that aims at the sequence `t` with a policy: an approval or a commit
-- is of this sequence and policy, and a commit has been preceded by an answer in which a majority
-- approves them.
abbrev pub Allowed : ℤ → String → History → Event → Type 0
Allowed t policy h (approved id s q r) = (s ≡ t) × (q ≡ policy)
Allowed t policy h (committed s q addresses r) =
    (s ≡ t) × (q ≡ policy) × Shown (IsMajority t policy) h
Allowed t policy h _ = Unit {0}

pub data Extends (t : ℤ) (policy : String) (h : History) : History → Type 0 where
  same : Extends t policy h h
  more :
      (e : Event) {h' : History}
      → Extends t policy h h'
      → Allowed t policy h' e
      → Extends t policy h (e ∷ h')

pub Extends-trans :
    (t : ℤ) (policy : String) (h h' h'' : History)
    → Extends t policy h h'
    → Extends t policy h' h''
    → Extends t policy h h''
Extends-trans t policy h h' _ a same = a
Extends-trans t policy h h' _ a (more e b ok_next) =
    more e (Extends-trans t policy h h' _ a b) ok_next

pub Ran-Extends :
    (t : ℤ) (policy : String) (e : Event) (h h' : History)
    → Extends t policy h h'
    → Ran e h
    → Ran e h'
Ran-Extends t policy e h _ same r = r
Ran-Extends t policy e h _ (more x b ok_next) r = inr (Ran-Extends t policy e h _ b r)

pub Shown-Extends :
    (t : ℤ) (policy : String) (P : Event → Type 0) (h h' : History)
    → Extends t policy h h'
    → Shown P h
    → Shown P h'
Shown-Extends t policy P h h' b (e, r, p) = (e, Ran-Extends t policy e h h' b r, p)

abbrev pub Anyway : History → Type 0
Anyway h = Unit {0}

-- Nothing more than that the history is extended.
abbrev pub Plain : {A : Type 0} → A → History → Type 0
Plain a h = Unit {0}

module _ (t : ℤ) (policy : String) where
  module _ {A : Type 0} where
    -- How a call ends: by a result with `Q`, or by an error.
    abbrev pub Ends : (A → History → Type 0) → History → Result Error A → History → Type 0
    Ends Q h (ok a) h' = Extends t policy h h' × Q a h'
    Ends Q h (err e) h' = Extends t policy h h'

    abbrev pub Does : (History → Type 0) → Call A → (A → History → Type 0) → Type 0
    Does P m Q = (h : History) → P h → Ends Q h (m h).0 (m h).1

    -- A fact about the history outlives the call.
    pub does_keep :
        (K : Event → Type 0) (P : History → Type 0) (m : Call A) (Q : A → History → Type 0)
        → Does P m Q
        → Does (λ h. P h × Shown K h) m (λ a h. Q a h × Shown K h)
    does_keep K P m Q d h (p, s) = keep (m h).0 (m h).1 (d h p)
      where
        keep :
            (r : Result Error A) (h' : History)
            → Ends Q h r h'
            → Ends (λ a h₁. Q a h₁ × Shown K h₁) h r h'
        keep (ok a) h' (b, q) = (b, (q, Shown-Extends t policy K h h' b s))
        keep (err e) h' b = b

    pub does_if :
        (P : History → Type 0) (Q : A → History → Type 0) (b : Bool) (m n : Call A)
        → (b ≡ true → Does P m Q)
        → (b ≡ false → Does P n Q)
        → Does P (if b then m else n) Q
    does_if P Q true m n yes_case no_case = yes_case refl
    does_if P Q false m n yes_case no_case = no_case refl

  abbrev pub Caught : {A : Type 0} → (A → History → Type 0) → Result Error A → History → Type 0
  Caught Q (ok a) h = Q a h
  Caught Q (err e) h = Unit {0}

  pub does_caught :
      {A : Type 0} (P : History → Type 0) (m : Call A) (Q : A → History → Type 0)
      → Does P m Q
      → Does P (caught m) (Caught Q)
  does_caught {A} P m Q d h p = keep (m h).0 (m h).1 (d h p)
    where
      keep :
          (r : Result Error A) (h' : History)
          → Ends Q h r h'
          → Extends t policy h h' × Caught Q r h'
      keep (ok a) h' (b, q) = (b, q)
      keep (err e) h' b = (b, tt)

  pub Ends-after :
      {B : Type 0} (Q : B → History → Type 0) (h h' : History) (r : Result Error B) (h'' : History)
      → Extends t policy h h'
      → Ends Q h' r h''
      → Ends Q h r h''
  Ends-after Q h h' (ok b) h'' x (y, q) = (Extends-trans t policy h h' h'' x y, q)
  Ends-after Q h h' (err e) h'' x y = Extends-trans t policy h h' h'' x y

  pub does_bind :
      {A B : Type 0} (P : History → Type 0) (m : Call A) (f : A → Call B) (R : A → History → Type 0)
      (Q : B → History → Type 0)
      → Does P m R
      → ((a : A) → Does (R a) (f a) Q)
      → Does P (m >>= f) Q
  does_bind {A} {B} P m f R Q first then_rest h p = after (m h).0 (m h).1 (first h p)
    where
      after :
          (r : Result Error A) (h' : History)
          → Ends R h r h'
          → let rest : Result Error B × History = elim r [ ok a ↦ f a h' | err e ↦ (err e, h') ] in
            Ends Q h rest.0 rest.1
      after (ok a) h' (x, q) = Ends-after Q h h' (f a h').0 (f a h').1 x (then_rest a h' q)
      after (err e) h' x = x

  pub does_ask :
      {A : Type 0} (answer : History → A) (event : A → Event) (P : History → Type 0)
      → ((a : A) (h : History) → P h → Allowed t policy h (event a))
      → Does P (ask answer event) (λ a h. Ran (event a) h)
  does_ask answer event P allowed h p =
      (more (event (answer h)) same (allowed (answer h) h p), inl refl)

  pub does_pure :
      {A : Type 0} (P : History → Type 0) (a : A) (Q : A → History → Type 0)
      → ((h : History) → P h → Q a h)
      → Does P (pure a) Q
  does_pure P a Q q h p = (same, q h p)

  pub does_option :
      {A B : Type 0} (P : History → Type 0) (Q : B → History → Type 0) (o : Option A) (n : Call B)
      (f : A → Call B)
      → (o ≡ none → Does P n Q)
      → ((a : A) → o ≡ some a → Does P (f a) Q)
      → Does P (elim o [ none ↦ n | some a ↦ f a ]) Q
  does_option P Q none n f no_case yes_case = no_case refl
  does_option P Q (some a) n f no_case yes_case = yes_case a refl

  pub does_result :
      {A B : Type 0} (P : History → Type 0) (Q : B → History → Type 0) (r : Result String A)
      (f : A → Call B) (g : String → Call B)
      → ((a : A) → r ≡ ok a → Does P (f a) Q)
      → ((e : String) → r ≡ err e → Does P (g e) Q)
      → Does P (elim r [ ok a ↦ f a | err e ↦ g e ]) Q
  does_result P Q (ok a) f g ok_case err_case = ok_case a refl
  does_result P Q (err e) f g ok_case err_case = err_case e refl

  pub does_raise :
      {A : Type 0} (P : History → Type 0) (e : Error) (Q : A → History → Type 0)
      → Does P (raise {A = A} e) Q
  does_raise P e Q h p = same

  pub does_sleep : (P : History → Type 0) (n : ℕ) → Does P (modify (λ h. slept n ∷ h)) Plain
  does_sleep P n h p = (more (slept n) same tt, tt)

  pub does_weaken :
      {A : Type 0} (P : History → Type 0) (m : Call A) (Q R : A → History → Type 0)
      → Does P m Q
      → ((a : A) (h : History) → Q a h → R a h)
      → Does P m R
  does_weaken {A} P m Q R d le h p = weaken (m h).0 (m h).1 (d h p)
    where
      weaken : (r : Result Error A) (h' : History) → Ends Q h r h' → Ends R h r h'
      weaken (ok a) h' (x, q) = (x, le a h' q)
      weaken (err e) h' x = x

  -- A call whose error is turned into a no.
  pub does_tried :
      {A : Type 0} (P : History → Type 0) (m : Call A) (K : History → Type 0)
      → Does P m (λ a h. K h)
      → Does P (caught m >>= λ r. pure (is_ok r)) (λ b h. b ≡ true → K h)
  does_tried {A} P m K d =
      does_bind P (caught m) (λ r. pure (is_ok r)) (Caught (λ a h. K h)) (λ b h. b ≡ true → K h)
        (does_caught P m (λ a h. K h) d)
        λ r. does_pure (Caught (λ a h. K h) r) (is_ok r) (λ b h. b ≡ true → K h) (succeeded r)
    where
      succeeded :
          (r : Result Error A) (h : History) → Caught (λ a h. K h) r h → is_ok r ≡ true → K h
      succeeded (ok a) h k e = k
      succeeded (err x) h k e = absurd (cc)
