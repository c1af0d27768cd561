-- ===== src/Receipt/Endorsement.antt =====
-- internal/receipt/verify.go: the set-up of a `Verifier`, and `verifyEndorsement`.
use kufi_chain.Prelude.{
  String, Bool, true, false, not, ◌&&◌, ◌||◌, Option, none, some, List, [], ◌∷◌, if◌then◌else◌,
  ◌==◌, is_some,
}
use kufi_chain.Prelude.Int.{ℤ, pos, ltb_ℤ, ◌+ℤ◌}
use kufi_chain.Prelude.Dict.{Dict, lookup, insert}
use kufi_chain.Receipt.Types.{EndorsementRecord, PolicyConfig}
use kufi_chain.Receipt.Host.{Crypto}

pub data EndorsementError : Type 0 where
  pem_failed parse_failed cert_expired_error chain_failed no_trusted_ca : EndorsementError
  fingerprint_mismatch revocation_failed : EndorsementError

pub record EndorsementVerifyResult : Type 0 where
  pub msp_id : String
  pub endorser_id : String
  pub signature_valid : Bool
  pub cert_chain_valid : Bool
  pub cert_expired : Bool
  pub cert_revoked : Bool
  pub error : Option EndorsementError

-- `er.SignatureValid && er.CertChainValid && !er.CertExpired && !er.CertRevoked`
abbrev pub is_proven : EndorsementVerifyResult → Bool
is_proven er =
    er.signature_valid && er.cert_chain_valid && not er.cert_expired && not er.cert_revoked

pub record Verifier (Pool : Type 0) : Type 0 where
  pub trusted_cas : Dict Pool
  pub policy_config : Dict PolicyConfig
  pub crl_endpoint : String
  pub allow_expired_certs : Bool

module _ (c : Crypto) where
  -- `NewVerifier`
  unfoldable pub new_verifier : Verifier c.Pool
  new_verifier = record {
    trusted_cas = [];
    policy_config = [];
    crl_endpoint = "";
    allow_expired_certs = false;
  }

  -- `AddTrustedCA`; `none` is its error.
  unfoldable pub add_trusted_ca : String → String → Verifier c.Pool → Option (Verifier c.Pool)
  add_trusted_ca msp_id pem v = elim (c.pem_decode pem) [
    | none ↦ none
    | some der ↦ elim (c.parse_certificate der) [
      | none ↦ none
      | some cert ↦
          let pool : c.Pool = elim (lookup msp_id v.trusted_cas) [
            | none ↦ c.empty_pool
            | some p ↦ p
          ] in
          some (record v { trusted_cas = insert msp_id (c.add_cert pool cert) v.trusted_cas })
    ]
  ]

  -- `AddPolicyConfig`
  unfoldable pub add_policy_config : String → PolicyConfig → Verifier c.Pool → Verifier c.Pool
  add_policy_config policy_id config v = record v {
    policy_config = insert policy_id config v.policy_config;
  }

  -- `SetCRLEndpoint`
  unfoldable pub set_crl_endpoint : String → Verifier c.Pool → Verifier c.Pool
  set_crl_endpoint endpoint v = record v { crl_endpoint = endpoint }

  -- `SetAllowExpiredCerts`
  unfoldable pub set_allow_expired_certs : Bool → Verifier c.Pool → Verifier c.Pool
  set_allow_expired_certs allow v = record v { allow_expired_certs = allow }

  abbrev blank : EndorsementRecord → EndorsementVerifyResult
  blank e = record {
    msp_id = e.msp_id;
    endorser_id = e.endorser_id;
    signature_valid = false;
    cert_chain_valid = false;
    cert_expired = false;
    cert_revoked = false;
    error = none;
  }

  -- `verifyEndorsement`: the certificate's dates
  unfoldable pub check_dates :
      Verifier c.Pool → ℤ → c.Cert → EndorsementVerifyResult → EndorsementVerifyResult
  check_dates v now cert r =
      if ltb_ℤ now (c.not_before cert) || ltb_ℤ (c.not_after cert) now
      then record r {
        cert_expired = true;
        error = if v.allow_expired_certs then r.error else some cert_expired_error;
      }
      else r

  abbrev or_error : Option EndorsementError → EndorsementError → Option EndorsementError
  or_error none e = some e
  or_error (some x) e = some x

  -- The chain; `time.Hour` is in nanoseconds, as all times here.
  unfoldable pub check_chain :
      Verifier c.Pool
      → ℤ
      → EndorsementRecord
      → c.Cert
      → EndorsementVerifyResult
      → EndorsementVerifyResult
  check_chain v now e cert r = elim (lookup e.msp_id v.trusted_cas) [
    | none ↦ record r { cert_chain_valid = e.cert_chain_valid; error = some no_trusted_ca }
    | some pool ↦
        let at = if v.allow_expired_certs then c.not_before cert +ℤ pos 3600000000000 else now in
        let good = c.verify_chain cert pool at in
        record r {
          cert_chain_valid = good;
          error = if good then r.error else or_error r.error chain_failed;
        }
  ]

  unfoldable pub check_fingerprint :
      EndorsementRecord → c.Bytes → EndorsementVerifyResult → EndorsementVerifyResult
  check_fingerprint e der r =
      if e.cert_fingerprint == c.sha256_hex der
      then r
      else record r { error = some fingerprint_mismatch; cert_chain_valid = false }

  -- `checkRevocation`, a placeholder: whether the certificate is revoked, and the error.
  unfoldable pub check_revocation : String → Bool × Option EndorsementError
  check_revocation cert_fingerprint = (false, none)

  -- The revocation, where an endpoint is configured
  unfoldable pub check_crl :
      Verifier c.Pool → EndorsementRecord → EndorsementVerifyResult → EndorsementVerifyResult
  check_crl v e r =
      let (revoked, failed) = check_revocation e.cert_fingerprint in
      if not (v.crl_endpoint == "") && r.cert_chain_valid
      then record r {
        cert_revoked = revoked;
        error = if is_some failed then some revocation_failed else r.error;
      }
      else r

  -- `verifyEndorsement`
  unfoldable pub verify_endorsement :
      Verifier c.Pool → ℤ → EndorsementRecord → EndorsementVerifyResult
  verify_endorsement v now e =
      if e.certificate_pem == ""
      then check_crl v e (record (blank e) {
        signature_valid = e.signature_valid;
        cert_chain_valid = e.cert_chain_valid;
      })
      else elim (c.pem_decode e.certificate_pem) [
        | none ↦ record (blank e) { error = some pem_failed }
        | some der ↦ elim (c.parse_certificate der) [
          | none ↦ record (blank e) { error = some parse_failed }
          | some cert ↦
              let checked =
                check_fingerprint e der
                  (check_chain v now e cert (check_dates v now cert (blank e))) in
              check_crl v e (record checked { signature_valid = e.signature_valid })
        ]
      ]

  -- The loop of `VerifyReceipt`: the results in order, and the MSPs with a proven endorsement.
  unfoldable pub verify_endorsements :
      Verifier c.Pool
      → ℤ
      → List EndorsementRecord
      → Dict Bool
      → List EndorsementVerifyResult × Dict Bool
  verify_endorsements v now [] msps = ([], msps)
  verify_endorsements v now (e ∷ es) msps =
      let r = verify_endorsement v now e in
      let (rs, out) =
        verify_endorsements v now es (if is_proven r then insert e.msp_id true msps else msps) in
      (r ∷ rs, out)
