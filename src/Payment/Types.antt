-- ===== src/Payment/Types.antt =====
-- Records, constants and pure helpers of chaincode/payment/payment.go.
use kufi_chain.Prelude.{
  ℕ, ◌-◌, ◌/◌, String, Bool, ◌&&◌, ◌||◌, Option, some, ltb, leb, eqb, if◌then◌else◌, ◌==◌,
}
use kufi_chain.Prelude.Int.{ℤ, pos, ◌+ℤ◌, ◌*ℤ◌}
use kufi_chain.Prelude.Dict.{Dict, lookup}
use Prim.Native.Char.{code}
use Prim.Native.String
use Prim.Native.String.{len, slice}

pub record TransferIntent : Type 0 where
  pub doc_type : String
  pub tx_id : String
  pub commitment_hash : String
  pub internal_ref : String
  pub policy_id : String
  pub status : String
  pub created_at : ℤ
  pub updated_at : ℤ
  pub settled_at : ℤ
  pub creator_msp : String

pub record TransferDetails : Type 0 where
  pub doc_type : String
  pub tx_id : String
  pub from_id : String
  pub to_id : String
  pub amount_vnd : ℤ
  pub memo : String
  pub internal_ref : String
  pub timestamp : ℤ
  pub sender_msp : String
  pub receiver_msp : String

abbrev pub status_pending : String
status_pending = "PENDING"

abbrev pub status_settled : String
status_settled = "SETTLED"

abbrev pub status_cancelled : String
status_cancelled = "CANCELLED"

abbrev pub status_failed : String
status_failed = "FAILED"

abbrev pub collection_intra_bank_prefix : String
collection_intra_bank_prefix = "collectionIntraBank_"

abbrev pub collection_inter_bank : String
collection_inter_bank = "collectionInterBank"

abbrev pub collection_high_risk : String
collection_high_risk = "collectionHighRisk"

-- `resolveIntraBankCollection`: a trailing "MSP" is cut off, unless nothing else is there.
-- `len` and `slice` count bytes, as in Go.
unfoldable pub resolve_intra_bank_collection : String → String
resolve_intra_bank_collection msp_id =
    let n = len msp_id in
    let org_name =
      if ltb 3 n && (slice msp_id (n - 3) n == "MSP") then slice msp_id 0 (n - 3) else msp_id in
    String.◌++◌ collection_intra_bank_prefix org_name

-- The map `allowedStatuses`.
unfoldable pub allowed_status : String → Bool
allowed_status s =
    s == status_pending || s == status_settled || s == status_cancelled || s == status_failed

-- A protobuf Timestamp: `nanos` counts 0 to 999,999,999, so it needs no sign.
pub record Timestamp : Type 0 where
  pub seconds : ℤ
  pub nanos : ℕ

-- `txTs.Seconds*1000 + int64(txTs.Nanos/1000000)`. The seconds of a Timestamp end in the year 9999,
-- so the product stays inside int64.
unfoldable pub now_ms : Timestamp → ℤ
now_ms ts = ts.seconds *ℤ pos 1000 +ℤ pos (ts.nanos / 1000000)

-- What `json.Unmarshal` leaves in an `interface{}`, as far as the code tells it apart.
pub data Value (Float : Type 0) : Type 0 where
  text : String → Value Float
  float64 : Float → Value Float
  int64 : ℤ → Value Float
  int : ℤ → Value Float
  other : Value Float

abbrev as_text : {Float : Type 0} → Option (Value Float) → String
as_text (some (text s)) = s
as_text _ = ""

-- `getString`
unfoldable pub get_string : {Float : Type 0} → Dict (Value Float) → String → String
get_string m key = as_text (lookup key m)

abbrev as_int64 : {Float : Type 0} → (Float → ℤ) → Option (Value Float) → ℤ
as_int64 truncate (some (float64 x)) = truncate x
as_int64 truncate (some (int64 n)) = n
as_int64 truncate (some (int n)) = n
as_int64 truncate _ = pos 0

-- `getInt64`; `truncate` is Go's conversion `int64(val)` of a float64.
unfoldable pub get_int64 : {Float : Type 0} → (Float → ℤ) → Dict (Value Float) → String → ℤ
get_int64 truncate m key = as_int64 truncate (lookup key m)

-- The characters that `sanitizeQueryInput` keeps. It walks bytes: those of a character outside
-- ASCII are all above 127 and go, so a walk over characters removes the same.
unfoldable pub is_safe : ℕ → Bool
is_safe c =
    (leb b'a' c && leb c b'z')
    || (leb b'A' c && leb c b'Z')
    || (leb b'0' c && leb c b'9')
    || eqb c b'-'
    || eqb c b'_'
    || eqb c b'.'

-- `sanitizeQueryInput`
unfoldable pub sanitize_query_input : String → String
sanitize_query_input String.[] = ""
sanitize_query_input (String.◌∷◌ c s) =
    if is_safe (code c) then String.◌∷◌ c (sanitize_query_input s) else sanitize_query_input s
