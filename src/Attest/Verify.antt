-- ===== src/Attest/Verify.antt =====
-- src/vsock_attest/verify.rs: the verification of a guest's quote. The numbers of the quote types are
-- constants of fleetos-core and parameters here, of which only the two that are accepted must differ.
-- `production` is the build's feature.
pub mod Binding
pub mod Fails
use fleetos_agent.Prelude.{
  ℕ, zero, suc, Bool, true, false, not, ◌||◌, Option, none, some, List, [], ◌∷◌, ◌≢◌, Bytes, length,
  take, ltb, leb, ◌==◌, if◌then◌else◌,
}
use fleetos_agent.Collections.Key.{same_bytes}
use fleetos_agent.Errors.{AgentError, attestation, Result, ok, err, ◌>>=◌, ◌>>◌}

pub record QuoteTypes : Type 0 where
  pub dev_software : ℕ
  pub host_measured : ℕ
  pub tpm2 : ℕ
  pub sev_snp : ℕ
  pub tdx : ℕ
  pub host_ne_dev : host_measured ≢ dev_software

pub record VsockAttestationProof : Type 0 where
  pub quote_type : ℕ
  pub raw_quote : Bytes
  pub guest_x25519_pubkey : Bytes

pub record BootMeasurement : Type 0 where
  pub kernel_hash : Bytes
  pub rootfs_hash : Bytes
  pub guest_init_hash : Bytes
  pub combined_hash : Bytes

pub record VerifiedGuest : Type 0 where
  pub guest_x25519_pubkey : Bytes

abbrev pub guest_of : VsockAttestationProof → VerifiedGuest
guest_of proof = record { guest_x25519_pubkey = proof.guest_x25519_pubkey }

-- `raw_quote.windows(n).any(|w| w == nonce_bytes)`.
unfoldable pub any_window : ℕ → Bytes → Bytes → Bool
any_window n nonce [] = false
any_window n nonce (b ∷ raw) =
    let rest = any_window n nonce raw in
    if leb n (length (b ∷ raw)) then same_bytes (take n (b ∷ raw)) nonce || rest else false

-- The first 32 bytes of the quote against the measurement of the launched VM.
unfoldable pub check_measurement :
    Option BootMeasurement → VsockAttestationProof → Result VerifiedGuest
check_measurement none proof = err (attestation "no boot measurement registered (fail-closed)")
check_measurement (some measurement) proof =
    if ltb (length proof.raw_quote) 32
    then err (attestation "host-measured quote too short (fail-closed)")
    else if not (same_bytes (take 32 proof.raw_quote) measurement.combined_hash)
    then err (attestation "boot measurement mismatch (fail-closed)")
    else ok (guest_of proof)

module _ (types : QuoteTypes) (production : Bool) where
  unfoldable pub verify_nonce_binding : VsockAttestationProof → Bytes → Result (Unit {0})
  verify_nonce_binding proof nonce =
      if proof.quote_type == types.host_measured || proof.quote_type == types.dev_software
      then (if not (any_window 32 nonce proof.raw_quote)
          then err (attestation "nonce not found in quote (fail-closed)")
          else ok tt)
      else err (
          attestation
            "nonce binding verification not implemented for this quote type (fail-closed)")

  unfoldable pub verify_dev_software : VsockAttestationProof → Bytes → Result VerifiedGuest
  unfolding verify_nonce_binding
  verify_dev_software proof nonce =
      if production
      then err (attestation "QUOTE_TYPE_DEV_SOFTWARE rejected in production build (fail-closed)")
      else (do verify_nonce_binding proof nonce; ok (guest_of proof))

  unfoldable pub verify_host_measured :
      VsockAttestationProof → Bytes → Option BootMeasurement → Result VerifiedGuest
  unfolding verify_nonce_binding check_measurement
  verify_host_measured proof nonce measurement = do
    verify_nonce_binding proof nonce
    check_measurement measurement proof

  unfoldable pub verify :
      VsockAttestationProof → Bytes → Option BootMeasurement → Result VerifiedGuest
  unfolding verify_dev_software verify_host_measured
  verify proof nonce measurement =
      if proof.quote_type == types.dev_software
      then verify_dev_software proof nonce
      else if proof.quote_type == types.host_measured
      then verify_host_measured proof nonce measurement
      else if proof.quote_type == types.tpm2
      then err (attestation "TPM2 guest attestation not yet implemented (fail-closed)")
      else if proof.quote_type == types.sev_snp
      then err (attestation "SEV-SNP guest attestation not yet implemented (fail-closed)")
      else if proof.quote_type == types.tdx
      then err (attestation "TDX guest attestation not yet implemented (fail-closed)")
      else err (attestation "unknown quote_type (fail-closed)")
