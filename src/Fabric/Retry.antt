-- ===== src/Fabric/Retry.antt =====
-- internal/fabric/client.go: `submitWithRetry` and `isRetryable`.
pub mod Bounds
use kufi_chain.Prelude.{
  ℕ, zero, suc, ◌+◌, ◌-◌, String, Bool, true, false, not, ◌||◌, List, [], ◌∷◌, if◌then◌else◌, any,
  eqb,
}
use kufi_chain.Prelude.Int.{ℤ, pos, negsuc}
use kufi_chain.Prelude.Action.{Result, ok, err}
use kufi_chain.Fabric.Types.{RetryConfig}
use kufi_chain.Fabric.Host.{Float64}
use kufi_chain.Fabric.Client.{has_text, ◌⊕◌}

abbrev pub retry_patterns : List String
retry_patterns =
    "unavailable" ∷ "deadline exceeded" ∷ "connection refused" ∷ "transport is closing"
    ∷ "mvcc_read_conflict" ∷ "phantom_read_conflict" ∷ "service is closing" ∷ "too many requests"
    ∷ "exceeding concurrency" ∷ "resource exhausted" ∷ []

-- `isRetryable` of an error that is not nil; `to_lower` is `strings.ToLower`.
unfoldable pub is_retryable : (String → String) → String → Bool
is_retryable to_lower message = any (λ p. has_text (to_lower message) p) retry_patterns

-- The defaults for settings that are not positive.
abbrev pub or_default : ℤ → ℕ → ℕ
or_default (pos n) default = if eqb n 0 then default else n
or_default (negsuc n) default = default

pub record Run (A : Type 0) : Type 0 where
  pub result : Result String A
  pub tries : ℕ
  pub waits : List ℤ

-- What one call of `submitWithRetry` meets: whether it gets a slot of the semaphore before its
-- context ends, whether the client is connected, what each attempt returns, and whether the context
-- ends in the wait after it, with which error.
pub record Weather (A : Type 0) : Type 0 where
  pub acquired : Bool
  pub connected : Bool
  pub attempt : ℕ → Result String A
  pub cancelled : ℕ → Bool
  pub context_error : String

module _ (f : Float64) (to_lower : String → String) {A : Type 0} (w : Weather A) where
  -- The next backoff.
  unfoldable pub next_backoff : f.Float → ℕ → ℤ → ℤ
  next_backoff multiplier max_backoff backoff =
      f.truncate
        (f.minimum (f.times (f.from_int backoff) multiplier) (f.from_int (pos max_backoff)))

  -- The loop from attempt `n` on, with `left` more attempts after it.
  unfoldable pub attempts : f.Float → ℕ → (left n : ℕ) → ℤ → Run A
  attempts multiplier max_backoff zero n backoff = record {
    result = w.attempt n;
    tries = 1;
    waits = [];
  }
  attempts multiplier max_backoff (suc left) n backoff = elim (w.attempt n) [
    | ok a ↦ record { result = ok a; tries = 1; waits = [] }
    | err e ↦ elim (is_retryable to_lower e) [
      | false ↦ record { result = err e; tries = 1; waits = [] }
      | true ↦ elim (w.cancelled n) [
        | true ↦ record {
          result = err ("context cancelled during retry: " ⊕ w.context_error);
          tries = 1;
          waits = backoff ∷ [];
        }
        | false ↦
            let rest =
              attempts multiplier max_backoff left (n + 1)
                (next_backoff multiplier max_backoff backoff) in
            record { result = rest.result; tries = suc rest.tries; waits = backoff ∷ rest.waits }
      ]
    ]
  ]

  abbrev pub attempts_allowed : RetryConfig f.Float → ℕ
  attempts_allowed cfg = or_default cfg.max_attempts 1

  -- `submitWithRetry`
  unfoldable pub submit_with_retry : RetryConfig f.Float → Run A
  unfolding attempts
  submit_with_retry cfg =
      if not w.acquired
      then record {
        result = err ("context cancelled waiting for semaphore: " ⊕ w.context_error);
        tries = 0;
        waits = [];
      }
      else if not w.connected
      then record { result = err "client not connected"; tries = 0; waits = [] }
      else attempts (if f.is_positive cfg.backoff_multiplier then cfg.backoff_multiplier else f.two)
          (or_default cfg.max_backoff 5000000000) (attempts_allowed cfg - 1) 1
          (pos (or_default cfg.initial_backoff 100000000))
