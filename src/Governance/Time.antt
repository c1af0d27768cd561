-- ===== src/Governance/Time.antt =====
-- Times of the governance chaincode. A `time.Time` is its number of nanoseconds; package time is
-- not in the repository, so its texts enter through `Format`.
use kufi_chain.Prelude.{ℕ, ◌-◌, ◌%◌, String, Bool, false, Option, none, some, if◌then◌else◌, ltb}
use kufi_chain.Prelude.Int.{ℤ, pos, negsuc, ltb_ℤ, ◌+ℤ◌, ◌*ℤ◌}

pub record Format : Type 0 where
  pub format : ℤ → String
  pub parse : String → Option ℤ

abbrev two_63 : ℕ
two_63 = 9223372036854775808

abbrev two_64 : ℕ
two_64 = 18446744073709551616

-- Two's complement: the int64 whose bits are `r`, for `r` below 2 ^ 64.
abbrev from_bits : ℕ → ℤ
from_bits r = if ltb r two_63 then pos r else negsuc (two_64 - r - 1)

-- The int64 that an integer wraps round to.
unfoldable pub wrap_64 : ℤ → ℤ
wrap_64 (pos n) = from_bits (n % two_64)
wrap_64 (negsuc n) = from_bits (two_64 - 1 - n % two_64)

abbrev pub hour : ℤ
hour = pos 3600000000000

-- `isExpired`: the duration is an int64 product, which wraps round.
unfoldable pub is_expired : Format → String → ℤ → ℤ → Bool
unfolding wrap_64 ◌+ℤ◌ ◌*ℤ◌
is_expired f created_at expiry_hours now = elim (f.parse created_at) [
  | none ↦ false
  | some created ↦ ltb_ℤ (created +ℤ wrap_64 (expiry_hours *ℤ hour)) now
]
