-- ===== src/Fabric/Extractor.antt =====
-- internal/fabric/endorsement.go: `EndorsementExtractor`.
use kufi_chain.Prelude.{
  ℕ, ◌+◌, ◌/◌, String, Bool, true, false, ◌&&◌, Option, none, some, List, [], ◌∷◌, if◌then◌else◌,
  ◌==◌, leb, length, ◌++◌,
}
use kufi_chain.Prelude.Dict.{Dict, lookup, insert}
use kufi_chain.Prelude.Action.{Result, ok, err}
use kufi_chain.Receipt.Verify.{in_set, some_in, count_in}
use kufi_chain.Fabric.Types.{EndorsementInfo}

-- crypto/x509, crypto/ecdsa, encoding/pem and encoding/asn1. `verify_chain` is at the present time.
pub record X509 : Type 1 where
  pub Bytes : Type 0
  pub Cert : Type 0
  pub Pool : Type 0
  pub PublicKey : Type 0
  pub Signature : Type 0
  pub pem_decode : String → Option Bytes
  pub parse_certificate : Bytes → Option Cert
  pub common_name : Cert → String
  pub ecdsa_key : Cert → Option PublicKey
  pub empty_pool : Pool
  pub add_cert : Pool → Cert → Pool
  pub verify_chain : Cert → Pool → Bool
  pub sha256 : String → String
  pub sha256_hex : Bytes → String
  -- `parseECDSASignature`'s `asn1.Unmarshal`, with both of its numbers there
  pub asn1_signature : String → Option Signature
  pub ecdsa_verify : PublicKey → String → Signature → Bool

pub data Error : Type 0 where
  pem_failed parse_failed no_endorsement : Error
  missing_endorsement unknown_policy : String → Error
  insufficient : ℕ → ℕ → Error

pub record VerifiedEndorsement (Cert : Type 0) : Type 0 where
  pub msp_id : String
  pub endorser_cert : Cert
  pub endorser_cert_pem : String
  pub signature : String
  pub signature_valid : Bool
  pub cert_chain_valid : Bool
  pub endorser_identity : String

module _ (x : X509) where
  pub record EndorsementExtractor : Type 0 where
    pub trusted_cas : Dict x.Pool
    pub trusted_roots : List x.Cert

  -- `NewEndorsementExtractor`
  unfoldable pub new_endorsement_extractor : EndorsementExtractor
  new_endorsement_extractor = record { trusted_cas = []; trusted_roots = [] }

  -- `AddTrustedCA`
  unfoldable pub add_trusted_ca :
      String → String → EndorsementExtractor → Result Error EndorsementExtractor
  add_trusted_ca msp_id pem ee = elim (x.pem_decode pem) [
    | none ↦ err pem_failed
    | some der ↦ elim (x.parse_certificate der) [
      | none ↦ err parse_failed
      | some cert ↦
          let pool : x.Pool = elim (lookup msp_id ee.trusted_cas) [
            | none ↦ x.empty_pool
            | some p ↦ p
          ] in
          ok (record ee {
            trusted_cas = insert msp_id (x.add_cert pool cert) ee.trusted_cas;
            trusted_roots = ee.trusted_roots ++ cert ∷ [];
          })
    ]
  ]

  -- `verifyECDSASignature`
  unfoldable pub verify_ecdsa_signature : x.Cert → String → String → Bool
  verify_ecdsa_signature cert signature message = elim (x.ecdsa_key cert) [
    | none ↦ false
    | some key ↦ elim (x.asn1_signature signature) [
      | none ↦ false
      | some rs ↦ x.ecdsa_verify key (x.sha256 message) rs
    ]
  ]

  -- `VerifyEndorsement`
  unfoldable pub verify_endorsement :
      EndorsementInfo → String → EndorsementExtractor → Result Error (VerifiedEndorsement x.Cert)
  unfolding verify_ecdsa_signature
  verify_endorsement e message ee = elim (x.pem_decode e.certificate) [
    | none ↦ err pem_failed
    | some der ↦ elim (x.parse_certificate der) [
      | none ↦ err parse_failed
      | some cert ↦ ok (record {
        msp_id = e.msp_id;
        endorser_cert = cert;
        endorser_cert_pem = e.certificate;
        signature = e.signature;
        signature_valid = verify_ecdsa_signature cert e.signature message;
        cert_chain_valid = elim (lookup e.msp_id ee.trusted_cas) [
          | none ↦ false
          | some pool ↦ x.verify_chain cert pool
        ];
        endorser_identity = x.common_name cert;
      })
    ]
  ]

  -- `GetCertificateFingerprint`
  unfoldable pub get_certificate_fingerprint : String → Option String
  get_certificate_fingerprint pem = elim (x.pem_decode pem) [
    | none ↦ none
    | some der ↦ some (x.sha256_hex der)
  ]

-- The first loop of `VerifyEndorsementPolicy`.
unfoldable pub valid_msps :
    {Cert : Type 0} → List (VerifiedEndorsement Cert) → Dict Bool → Dict Bool
valid_msps [] msps = msps
valid_msps (e ∷ es) msps =
    valid_msps es
      (if e.signature_valid && e.cert_chain_valid then insert e.msp_id true msps else msps)

-- The loop of the policy AND, which names the first MSP that is missing.
unfoldable pub first_missing : Dict Bool → List String → Option String
first_missing msps [] = none
first_missing msps (m ∷ ms) = if in_set msps m then first_missing msps ms else some m

-- `VerifyEndorsementPolicy`; `none` is its result true with a nil error.
unfoldable pub verify_endorsement_policy :
    {Cert : Type 0} → List (VerifiedEndorsement Cert) → String → List String → Option Error
verify_endorsement_policy es policy_type required =
    let msps = valid_msps es [] in
    if policy_type == "AND"
    then elim (first_missing msps required) [ none ↦ none | some m ↦ some (missing_endorsement m) ]
    else if policy_type == "OR"
    then (if some_in msps required then none else some no_endorsement)
    else if policy_type == "MAJORITY"
    then (let majority = length required / 2 + 1 in
        if leb majority (count_in msps required)
        then none
        else some (insufficient (count_in msps required) majority))
    else some (unknown_policy policy_type)
