-- ===== src/Api/Gateway/Requests/Freshness.antt =====
-- The window of a request's time stamp.
use kufi_chain.Prelude.{ℕ, ◌<◌, ◌≡◌, ◌↔◌, true, arith, not, ◌||◌, Bool-cases, inl, inr}
use kufi_chain.Prelude.Int.{ℤ, pos, negsuc, ◌-ℤ◌, ◌≤ℤ◌, -ℤ_parts, ltb_ℤ, leb_ℤ}
use kufi_chain.Api.Models.{TransferRequest}
use kufi_chain.Api.Gateway.Host.{Settings}
use kufi_chain.Api.Gateway.Requests.{wrap_int64, milliseconds, is_fresh}

-- The range of int64.
abbrev pub IsInt64 : ℤ → Type 0
IsInt64 a = (negsuc 9223372036854775807 ≤ℤ a) × (a ≤ℤ pos 9223372036854775807)

wrap-inside : (a : ℤ) → IsInt64 a → wrap_int64 a ≡ a
wrap-inside (pos n) (low, high) = ground arith
wrap-inside (negsuc n) (low, high) = ground arith

wrap_large :
    (d : ℤ)
    → pos 9223372036854775808 ≤ℤ d
    → d ≤ℤ pos 18446744073709551615
    → ltb_ℤ (wrap_int64 d) (pos 0) ≡ true
wrap_large (pos n) low high = ground arith
wrap_large (negsuc n) low high = absurd (omega (arith, low))

milliseconds-small : (w : ℤ) → IsInt64 w → milliseconds w ≤ℤ pos 9223372036854775
milliseconds-small (pos n) (low, high) = omega arith
milliseconds-small (negsuc n) (low, high) = ground arith

window_test :
    (d limit : ℤ)
    → negsuc 9223372036854775807 ≤ℤ d
    → d ≤ℤ pos 18446744073709551615
    → limit ≤ℤ pos 9223372036854775
    → (not (ltb_ℤ (wrap_int64 d) (pos 0) || ltb_ℤ limit (wrap_int64 d)) ≡ true)
      ↔ ((pos 0 ≤ℤ d) × (d ≤ℤ limit))
window_test d limit low high small = elim (Bool-cases (leb_ℤ d (pos 9223372036854775807))) [
  | inl inside ↦
      let same = wrap-inside d (low, ground arith) in
      (λ e. ground (arith, same), λ (x, y). ground (arith, same))
  | inr outside ↦
      let negative = wrap_large d (ground arith) high in
      (λ e. absurd (ground (arith, negative)), λ (x, y). absurd (ground arith))
]

-- The test of the time stamp is the test without the overflow of int64: at a time before 2^62, it
-- accepts exactly a time stamp that is not in the future and no older than the window.
pub is_fresh_iff :
    (h : Settings) (now : ℕ) (req : TransferRequest)
    → now < 4611686018427387904
    → IsInt64 req.timestamp
    → IsInt64 h.nonce_window
    → (is_fresh h (pos now) req ≡ true)
      ↔ ((req.timestamp ≤ℤ pos now) × (pos now -ℤ req.timestamp ≤ℤ milliseconds h.nonce_window))
unfolding is_fresh
is_fresh_iff h now req small range window =
    let parts = -ℤ_parts (pos now) req.timestamp in
    let test =
      window_test (pos now -ℤ req.timestamp) (milliseconds h.nonce_window)
        (omega (arith, parts, range)) (omega (arith, parts, range))
        (milliseconds-small h.nonce_window window) in
    (
      λ e. let (x, y) = test.0 e in (omega (arith, parts, x), y),
      λ (x, y). test.1 (omega (arith, parts, x), y),
    )
