-- ===== src/Fabric/Retry/Bounds.antt =====
-- How long a submission is tried, and what it ends with.
use kufi_chain.Prelude.{
  ℕ, zero, suc, ◌+◌, ◌-◌, ◌≤◌, ◌<◌, String, ◌≡◌, ◌↔◌, subst, inl, inr, Bool, true, false, not,
  if◌then◌else◌, arith, All, length, Bool-cases,
}
use kufi_chain.Prelude.Int.{ℤ, pos, ◌≤ℤ◌}
use kufi_chain.Prelude.Action.{ok, err, Result-cases}
use kufi_chain.Fabric.Types.{RetryConfig}
use kufi_chain.Fabric.Host.{Float64}
use kufi_chain.Fabric.Retry.{
  is_retryable, or_default, Run, Weather, next_backoff, attempts, attempts_allowed,
  submit_with_retry,
}

module _ (f : Float64) (to_lower : String → String) {A : Type 0} (w : Weather A) where
  -- A round that the loop goes on from.
  abbrev pub Transient : ℕ → Type 0
  Transient n =
      (e : String) × (w.attempt n ≡ err e)
      × (is_retryable to_lower e ≡ true)
      × (w.cancelled n ≡ false)

  abbrev pub AllTransient : (count n : ℕ) → Type 0
  AllTransient zero n = Unit
  AllTransient (suc count) n = Transient n × AllTransient count (n + 1)

  -- The counts of the tries and of the waits.
  attempts-tries :
      (m : f.Float) (max left n : ℕ) (backoff : ℤ)
      → (1 ≤ (attempts f to_lower w m max left n backoff).tries)
        × ((attempts f to_lower w m max left n backoff).tries ≤ left + 1)
        × (length (attempts f to_lower w m max left n backoff).waits
            ≤ (attempts f to_lower w m max left n backoff).tries)
  unfolding attempts
  attempts-tries m max zero n backoff = (omega arith, omega arith, omega arith)
  attempts-tries m max (suc left) n backoff =
      let rest = attempts-tries m max left (n + 1) (next_backoff f to_lower w m max backoff) in
      (ground (arith, rest), ground (arith, rest), ground (arith, rest))

  attempts-waits :
      (m : f.Float) (max left n : ℕ) (backoff bound : ℤ)
      → pos max ≤ℤ pos 9007199254740992
      → backoff ≤ℤ bound
      → pos max ≤ℤ bound
      → All (λ t. t ≤ℤ bound) (attempts f to_lower w m max left n backoff).waits
  unfolding attempts next_backoff
  attempts-waits m max zero n backoff bound small low high = tt
  attempts-waits m max (suc left) n backoff bound small low high =
      let next = next_backoff f to_lower w m max backoff in
      let capped : next ≤ℤ pos max =
        f.capped (f.times (f.from_int backoff) m) (pos max) (omega arith) small in
      let rest = attempts-waits m max left (n + 1) next bound small (omega (arith, capped)) high in
      ground (arith, rest)

  -- `submitWithRetry` ends: it tries at most as often as configured, at least once where it has a
  -- slot and a connection, it waits at most once after each try, and no wait is longer than both the
  -- first and the largest backoff, where the largest is below 2^53 nanoseconds.
  pub submit_with_retry-bounded :
      (cfg : RetryConfig f.Float) (bound : ℕ)
      → or_default cfg.max_backoff 5000000000 ≤ 9007199254740992
      → or_default cfg.initial_backoff 100000000 ≤ bound
      → or_default cfg.max_backoff 5000000000 ≤ bound
      → let run = submit_with_retry f to_lower w cfg in
        (run.tries ≤ attempts_allowed f to_lower w cfg)
        × (w.acquired ≡ true → w.connected ≡ true → 1 ≤ run.tries)
        × (length run.waits ≤ run.tries)
        × All (λ t. t ≤ℤ pos bound) run.waits
  unfolding submit_with_retry
  submit_with_retry-bounded cfg bound small first largest =
      let m = if f.is_positive cfg.backoff_multiplier then cfg.backoff_multiplier else f.two in
      let max = or_default cfg.max_backoff 5000000000 in
      let backoff = pos (or_default cfg.initial_backoff 100000000) in
      let left = attempts_allowed f to_lower w cfg - 1 in
      let allowed : 1 ≤ attempts_allowed f to_lower w cfg = or_default_pos cfg.max_attempts in
      let tries = attempts-tries m max left 1 backoff in
      let waits =
        attempts-waits m max left 1 backoff (pos bound) (omega (arith, small))
          (omega (arith, first)) (omega (arith, largest)) in
      (
        ground (arith, tries),
        ground (arith, tries),
        ground (arith, tries),
        if_All (not w.acquired) _ _ tt (if_All (not w.connected) _ _ tt waits),
      )
    where
      or_default_pos : (n : ℤ) → 1 ≤ or_default n 1
      or_default_pos n = ground arith

      if_All :
          (b : Bool) (x y : Run A)
          → All (λ t. t ≤ℤ pos bound) x.waits
          → All (λ t. t ≤ℤ pos bound) y.waits
          → All (λ t. t ≤ℤ pos bound) (if b then x else y).waits
      if_All true x y left_waits right_waits = left_waits
      if_All false x y left_waits right_waits = right_waits

  attempts-ok :
      (m : f.Float) (max left n : ℕ) (backoff : ℤ) (a : A)
      → (attempts f to_lower w m max left n backoff).result ≡ ok a
      → (k : ℕ) × (k ≤ left)
        × AllTransient k n
        × (w.attempt (n + k) ≡ ok a)
        × ((attempts f to_lower w m max left n backoff).tries ≡ k + 1)
  unfolding attempts
  attempts-ok m max zero n backoff a h = (0, omega arith, tt, ground arith, omega arith)
  attempts-ok m max (suc left) n backoff a h = elim (Result-cases (w.attempt n)) [
    | inl (b, good) ↦ (0, omega arith, tt, ground arith, ground arith)
    | inr (e, bad) ↦ elim (Bool-cases (is_retryable to_lower e)) [
      | inr final ↦ absurd (ground arith)
      | inl again ↦ elim (Bool-cases (w.cancelled n)) [
        | inl over ↦ absurd (ground arith)
        | inr waits ↦
            let next = next_backoff f to_lower w m max backoff in
            let (k, within, before, good, count) =
              attempts-ok m max left (n + 1) next a (ground arith) in
            let same : n + 1 + k ≡ n + suc k = omega arith in
            (
              suc k,
              omega (arith, within),
              ((e, bad, again, waits), before),
              subst (λ x. w.attempt x ≡ ok a) same good,
              ground (arith, count),
            )
      ]
    ]
  ]

  attempts_reach :
      (m : f.Float) (max left n k : ℕ) (backoff : ℤ) (a : A)
      → k ≤ left
      → AllTransient k n
      → w.attempt (n + k) ≡ ok a
      → (attempts f to_lower w m max left n backoff).result ≡ ok a
  unfolding attempts
  attempts_reach m max zero n k backoff a within before good =
      let same : n + k ≡ n = omega (arith, within) in subst (λ x. w.attempt x ≡ ok a) same good
  attempts_reach m max (suc left) n zero backoff a within before good = ground arith
  attempts_reach m max (suc left) n (suc k) backoff a within ((e, bad, again, waits), before) good =
      let next = next_backoff f to_lower w m max backoff in
      let same : n + suc k ≡ n + 1 + k = omega arith in
      ground (
        arith,
        attempts_reach m max left (n + 1) k next a (omega (arith, within)) before
            (subst (λ x. w.attempt x ≡ ok a) same good),
      )

  attempts_again :
      (m : f.Float) (max left n : ℕ) (backoff : ℤ) (e : String)
      → 1 ≤ left
      → w.attempt n ≡ err e
      → is_retryable to_lower e ≡ true
      → w.cancelled n ≡ false
      → 2 ≤ (attempts f to_lower w m max left n backoff).tries
  unfolding attempts
  attempts_again m max zero n backoff e more bad again waits = absurd (omega (arith, more))
  attempts_again m max (suc left) n backoff e more bad again waits =
      let rest = attempts-tries m max left (n + 1) (next_backoff f to_lower w m max backoff) in
      ground (arith, rest)

  -- With a slot, a connection and a second attempt allowed, a first attempt that fails with a
  -- transient error is followed by another one, where the context is still open.
  pub submit_with_retry_again :
      (cfg : RetryConfig f.Float) (e : String)
      → w.acquired ≡ true
      → w.connected ≡ true
      → w.attempt 1 ≡ err e
      → is_retryable to_lower e ≡ true
      → w.cancelled 1 ≡ false
      → 2 ≤ attempts_allowed f to_lower w cfg
      → 2 ≤ (submit_with_retry f to_lower w cfg).tries
  unfolding submit_with_retry
  submit_with_retry_again cfg e slot line bad again waits more =
      let m = if f.is_positive cfg.backoff_multiplier then cfg.backoff_multiplier else f.two in
      let max = or_default cfg.max_backoff 5000000000 in
      let backoff = pos (or_default cfg.initial_backoff 100000000) in
      let left = attempts_allowed f to_lower w cfg - 1 in
      let tries = attempts_again m max left 1 backoff e (omega (arith, more)) bad again waits in
      ground (arith, tries)

  -- With a slot and a connection, `submitWithRetry` returns a result exactly when one of the allowed
  -- attempts gives it and every attempt before that failed with a transient error after which the
  -- context was still open.
  pub submit_with_retry-ok_iff :
      (cfg : RetryConfig f.Float) (a : A)
      → w.acquired ≡ true
      → w.connected ≡ true
      → ((submit_with_retry f to_lower w cfg).result ≡ ok a) ↔ (
          (k : ℕ) × (k < attempts_allowed f to_lower w cfg)
          × AllTransient k 1
          × (w.attempt (1 + k) ≡ ok a))
  unfolding submit_with_retry
  submit_with_retry-ok_iff cfg a slot line =
      let m = if f.is_positive cfg.backoff_multiplier then cfg.backoff_multiplier else f.two in
      let max = or_default cfg.max_backoff 5000000000 in
      let backoff = pos (or_default cfg.initial_backoff 100000000) in
      let left = attempts_allowed f to_lower w cfg - 1 in
      let allowed : 1 ≤ attempts_allowed f to_lower w cfg = ground arith in
      (
        λ h.
            let (k, within, before, good, count) =
              attempts-ok m max left 1 backoff a (ground arith) in
            (k, omega (arith, within, allowed), before, good),
        λ (k, within, before, good).
            let r = attempts_reach m max left 1 k backoff a (omega (arith, within)) before good in
            ground (arith, r),
      )
