-- ===== src/Ops/Policy.antt =====
-- internal/fabricops/chaincode.go: the committed endorsement policy as a text.
pub mod Rule
use kufi_chain.Prelude.{
  ℕ, ◌+◌, String, Bool, true, false, not, ◌||◌, Option, none, some, List, [], ◌∷◌, if◌then◌else◌,
  ◌==◌, eqb, ltb, length, any, map,
}
use kufi_chain.Prelude.Int.{ℤ, pos, negsuc, eq_ℤ}
use kufi_chain.Prelude.Sort.{sort}
use kufi_chain.Prelude.Action.{Result, ok, err}
use kufi_chain.Fabric.Client.{join, ◌⊕◌}

-- `commonpb.SignaturePolicy`: what its oneof holds, and a list of such.
mutual
  pub data SignaturePolicy : Type 0 where
    unset : SignaturePolicy
    signed_by : ℤ → SignaturePolicy
    n_out_of : ℤ → Rules → SignaturePolicy

  pub data Rules : Type 0 where
    no_rules : Rules
    rule_and : SignaturePolicy → Rules → Rules

unfoldable pub rule_count : Rules → ℕ
rule_count no_rules = 0
rule_count (rule_and r rs) = 1 + rule_count rs

-- One identity of an envelope: whether it is a role, and its bytes.
pub record Principal (Bytes : Type 0) : Type 0 where
  pub is_role : Bool
  pub principal : Bytes

pub record SignaturePolicyEnvelope (Bytes : Type 0) : Type 0 where
  pub rule : Option SignaturePolicy
  pub identities : List (Principal Bytes)

-- `peerpb.ApplicationPolicy`: what its oneof holds.
pub data ApplicationPolicy (Bytes : Type 0) : Type 0 where
  signature_policy : SignaturePolicyEnvelope Bytes → ApplicationPolicy Bytes
  channel_reference : String → ApplicationPolicy Bytes
  no_policy : ApplicationPolicy Bytes

-- encoding/base64, and protobuf for each message; an `msppb.MSPRole` is the name of its role and its
-- MSP.
pub record Codec : Type 1 where
  pub Bytes : Type 0
  pub base64 : String → Result String Bytes
  pub application_policy : Bytes → Result String (ApplicationPolicy Bytes)
  pub envelope : Bytes → Result String (SignaturePolicyEnvelope Bytes)
  pub msp_role : Bytes → Result String (String × String)
  pub trim : String → String

-- The loop of `isORPolicyRule`: the indices that it has seen, or `none` where it returns false.
unfoldable pub seen_signers : ℕ → List ℕ → Rules → Option (List ℕ)
seen_signers identities seen no_rules = some seen
seen_signers identities seen (rule_and (signed_by (pos i)) rules) =
    if not (ltb i identities)
    then none
    else if any (λ j. eqb j i) seen
    then none
    else seen_signers identities (i ∷ seen) rules
seen_signers identities seen (rule_and (signed_by (negsuc i)) rules) = none
seen_signers identities seen (rule_and unset rules) = none
seen_signers identities seen (rule_and (n_out_of n inner) rules) = none

-- `isORPolicyRule`
unfoldable pub is_or_policy_rule : Option SignaturePolicy → ℕ → Bool
is_or_policy_rule none identities = false
is_or_policy_rule (some unset) identities = false
is_or_policy_rule (some (signed_by i)) identities = false
is_or_policy_rule (some (n_out_of n rules)) identities =
    if not (eq_ℤ n (pos 1)) || not (eqb (rule_count rules) identities)
    then false
    else elim (seen_signers identities [] rules) [
      | none ↦ false
      | some seen ↦ eqb (length seen) identities
    ]

-- The text of a policy that any peer of the MSPs meets.
unfoldable pub or_policy : List String → String
or_policy msp_ids = "OR(" ⊕ join (map (λ id. "'" ⊕ id ⊕ ".peer'") (sort msp_ids)) "," ⊕ ")"

module _ (c : Codec) where
  -- The loop of `signatureEnvelopeToPolicy`.
  unfoldable pub principal_msps : List (Principal c.Bytes) → Result String (List String)
  principal_msps [] = ok []
  principal_msps (p ∷ ps) =
      if not p.is_role
      then err "unsupported principal classification"
      else elim (c.msp_role p.principal) [
        | err e ↦ err e
        | ok (role, msp) ↦
            if not (role == "PEER")
            then err ("unsupported MSP role " ⊕ role)
            else elim (principal_msps ps) [ err e ↦ err e | ok msps ↦ ok (msp ∷ msps) ]
      ]

  -- `signatureEnvelopeToPolicy`
  unfoldable pub signature_envelope_to_policy :
      SignaturePolicyEnvelope c.Bytes → Result String String
  signature_envelope_to_policy env = elim (principal_msps env.identities) [
    | err e ↦ err e
    | ok msps ↦
        if not (is_or_policy_rule env.rule (length msps))
        then err "unsupported signature policy shape"
        else ok (or_policy msps)
  ]

  envelope_text : c.Bytes → Result String String
  envelope_text raw = elim (c.envelope raw) [
    | err e ↦ err e
    | ok env ↦ signature_envelope_to_policy env
  ]

  -- `decodeValidationPolicy`
  unfoldable pub decode_validation_policy : String → Result String String
  unfolding envelope_text
  decode_validation_policy encoded =
      if c.trim encoded == "" then ok "" else elim (c.base64 encoded) [
        | err e ↦ err e
        | ok raw ↦ elim (c.application_policy raw) [
          | err e ↦ envelope_text raw
          | ok (signature_policy env) ↦ signature_envelope_to_policy env
          | ok (channel_reference ref) ↦
              if ref == "" then envelope_text raw else ok ("channelconfig:" ⊕ ref)
          | ok no_policy ↦ envelope_text raw
        ]
      ]
