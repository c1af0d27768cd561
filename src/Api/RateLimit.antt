-- ===== src/Api/RateLimit.antt =====
-- `RateLimiter` of internal/api/middleware.go: the times of the accepted requests of each client.
pub mod Window
use kufi_chain.Prelude.{
  ℕ, String, Bool, true, false, Option, none, some, List, [], ◌∷◌, ◌++◌, if◌then◌else◌, leb, length,
  select,
}
use kufi_chain.Prelude.Int.{ℤ, ◌-ℤ◌, ltb_ℤ, leb_ℤ, pos}
use kufi_chain.Prelude.Dict.{Dict, lookup, insert}

-- `limit` is an int; a limit below one turns every request away, as zero does.
pub record RateLimiter : Type 0 where
  pub requests : Dict (List ℤ)
  pub limit : ℕ
  pub window : ℤ

-- `NewRateLimiter`
unfoldable pub new_rate_limiter : ℕ → ℤ → RateLimiter
new_rate_limiter limit window = record { requests = []; limit = limit; window = window }

-- `rl.requests[clientIP]`, with the nil slice for a new client
abbrev pub requests_of : String → RateLimiter → List ℤ
requests_of ip rl = elim (lookup ip rl.requests) [ none ↦ [] | some ts ↦ ts ]

-- `t.After(cutoff)`
abbrev pub after : ℤ → ℤ → Bool
after cutoff t = ltb_ℤ cutoff t

-- The part of `RateLimitMiddleware` under the lock: whether the request is let through, and the
-- limiter that it leaves.
unfoldable pub rate_limit : String → ℤ → RateLimiter → Bool × RateLimiter
rate_limit ip now rl =
    let valid = select (after (now -ℤ rl.window)) (requests_of ip rl) in
    if leb rl.limit (length valid)
    then (false, rl)
    else (true, record rl { requests = insert ip (valid ++ now ∷ []) rl.requests })
