-- ===== src/Api/ApiKey.antt =====
-- `APIKeyMiddleware` of internal/api/middleware.go.
use kufi_chain.Prelude.{
  String, ◌≡◌, ◌≢◌, ◌⊎◌, ◌↔◌, inl, inr, Bool, true, not, List, [], ◌∷◌, arith, ◌==◌, eq_iff,
  if◌then◌else◌, contains, Bool-cases,
}

pub record ApiKeyConfig : Type 0 where
  pub enabled : Bool
  pub keys : List String

-- The request goes on to the handlers, or is answered with 401 or 403.
pub data Verdict : Type 0 where
  next unauthorized forbidden : Verdict

-- `subtle.ConstantTimeCompare(a, b) == 1` says that the texts are equal.
unfoldable pub api_key_middleware : ApiKeyConfig → String → Verdict
api_key_middleware cfg api_key =
    if not cfg.enabled
    then next
    else if api_key == ""
    then unauthorized
    else if contains api_key cfg.keys
    then next
    else forbidden

-- The text is one of the list.
abbrev pub Among : String → List String → Type 0
Among k [] = ⊥
Among k (x ∷ xs) = (x ≡ k) ⊎ Among k xs

contains-Among : (k : String) (xs : List String) → contains k xs ≡ true → Among k xs
contains-Among k [] h = cc
contains-Among k (x ∷ xs) h = elim (Bool-cases (x == k)) [
  | inl here ↦ inl ((eq_iff x k).0 here)
  | inr there ↦ inr (contains-Among k xs (ground arith))
]

Among-contains : (k : String) (xs : List String) → Among k xs → contains k xs ≡ true
Among-contains k [] h = absurd h
Among-contains k (x ∷ xs) (inl e) = ground (arith, eq_iff x k)
Among-contains k (x ∷ xs) (inr h) = ground (arith, Among-contains k xs h)

-- With keys required, a request reaches the handlers exactly when its header is one of the
-- configured keys and not empty: an empty key in the configuration opens nothing.
pub api_key_middleware-next_iff :
    (cfg : ApiKeyConfig) (api_key : String)
    → cfg.enabled ≡ true
    → (api_key_middleware cfg api_key ≡ next) ↔ ((api_key ≢ "") × Among api_key cfg.keys)
unfolding api_key_middleware
api_key_middleware-next_iff cfg api_key on = (
  λ e. (
    ground (arith, eq_iff api_key ""),
    contains-Among api_key cfg.keys (ground (arith, eq_iff api_key "")),
  ),
  λ (filled, among). ground (arith, eq_iff api_key "", Among-contains api_key cfg.keys among),
)
