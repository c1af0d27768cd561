-- ===== src/Api/Tests.antt =====
-- The stores of the gateway on a few requests.
use kufi_chain.Prelude.{ℕ, ◌≤◌, String, ◌≡◌, refl, true, false, List, [], ◌∷◌, arith}
use kufi_chain.Prelude.Int.{ℤ, pos, ◌-ℤ◌, ltb_ℤ}
use kufi_chain.Prelude.Dict.{lookup, insert}
use kufi_chain.Api.Nonces.{NonceStore, new_nonce_store, add, exists}
use kufi_chain.Api.Idempotency.{IdempotencyStore, new_idempotency_store, store}
use kufi_chain.Api.RateLimit.{RateLimiter, requests_of, rate_limit}
use kufi_chain.Api.RateLimit.Window.{count_after, admitted, last_time, admitted_capped}
use kufi_chain.Api.ApiKey.{ApiKeyConfig}

abbrev nonces : NonceStore
nonces = add "a" (pos 10) (new_nonce_store (pos 300))

forgotten : exists (pos 310) "a" nonces ≡ false
unfolding exists add new_nonce_store lookup insert ◌-ℤ◌
forgotten = refl

inside_window : ltb_ℤ (pos 100 -ℤ pos 10) (new_nonce_store (pos 300)).window ≡ true
unfolding new_nonce_store ◌-ℤ◌
inside_window = refl

abbrev keys : IdempotencyStore ℕ
keys = store (pos 10) "k" 7 (new_idempotency_store (pos 60))

abbrev limiter : RateLimiter
limiter = record { requests = []; limit = 2; window = pos 60 }

abbrev traffic : List (String × ℤ)
traffic = ("ip", pos 1) ∷ ("ip", pos 2) ∷ ("other", pos 2) ∷ ("ip", pos 3) ∷ []

two_pass : (admitted "ip" [] traffic limiter).0 ≡ pos 1 ∷ pos 2 ∷ []
unfolding admitted rate_limit lookup insert ◌-ℤ◌
two_pass = refl

new_client : requests_of "ip" limiter ≡ []
unfolding lookup
new_client = refl

admitted_capped_example :
    count_after (last_time (pos 0) traffic -ℤ limiter.window) (admitted "ip" [] traffic limiter).0
    ≤ limiter.limit
admitted_capped_example =
    admitted_capped "ip" (pos 0) traffic limiter new_client
      (omega arith, (omega arith, (omega arith, (omega arith, tt))))

abbrev config : ApiKeyConfig
config = record { enabled = true; keys = "" ∷ "secret" ∷ [] }
