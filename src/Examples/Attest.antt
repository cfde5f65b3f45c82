-- ===== src/Examples/Attest.antt =====
-- The verification of a quote and the handshake, for quotes of 32 and of 64 bytes.
use fleetos_agent.Prelude.{ℕ, true, some, [], ◌∷◌, ◌++◌, ◌≡◌, ◌↔◌, refl, arith, Bytes}
use fleetos_agent.Prelude.Words.{to_le_bytes}
use fleetos_agent.Collections.Key.{nat_key}
use fleetos_agent.Collections.HashMap
use fleetos_agent.Errors.{internal, Result, ok, err}
use fleetos_agent.Attest.Verify.{
  QuoteTypes, VsockAttestationProof, BootMeasurement, VerifiedGuest, guest_of, verify,
  verify_host_measured, verify_nonce_binding, check_measurement, any_window,
}
use fleetos_agent.Attest.Verify.Binding.{Contains}
use fleetos_agent.Attest.Verify.Fails.{Accepts, verify_iff}
use fleetos_agent.Attest.Handshake.{VsockAttestServer, handle_connection}
use fleetos_agent.Attest.Handshake.Transcript.{config_is_earned}

abbrev types : QuoteTypes
types = record {
  dev_software = 255;
  host_measured = 3;
  tpm2 = 0;
  sev_snp = 1;
  tdx = 2;
  host_ne_dev = omega arith;
}

abbrev hash : Bytes
hash = to_le_bytes 32 12345

abbrev nonce : Bytes
nonce = to_le_bytes 32 67890

abbrev proof : VsockAttestationProof
proof = record { quote_type = 3; raw_quote = hash ++ nonce; guest_x25519_pubkey = 5 ∷ [] }

abbrev measurement : BootMeasurement
measurement = record {
  kernel_hash = [];
  rootfs_hash = [];
  guest_init_hash = [];
  combined_hash = hash;
}

verify_iff_example : (verify types true proof nonce (some measurement) ≡ ok (guest_of proof)) ↔ (
    Contains proof.raw_quote nonce
    × Accepts types true proof (some measurement)
    × (guest_of proof ≡ guest_of proof))
unfolding to_le_bytes
verify_iff_example = verify_iff types true proof nonce (some measurement) (guest_of proof) refl

abbrev server : VsockAttestServer ℕ
server = record { boot_measurements = (7, measurement) ∷ []; workload_contexts = (7, 40) ∷ [] }

abbrev build : VerifiedGuest → ℕ → Result ℕ
build guest context = ok context

abbrev build_fallback : VerifiedGuest → Result ℕ
build_fallback guest = err (internal "no context")

config_is_earned_example :
    (p : VsockAttestationProof) × (◌≡◌ {A = Result VsockAttestationProof} (ok proof) (ok p))
    × Contains p.raw_quote nonce
    × Accepts types true p (HashMap.lookup 7 server.boot_measurements)
unfolding to_le_bytes handle_connection verify verify_host_measured verify_nonce_binding
    check_measurement any_window HashMap.lookup
config_is_earned_example =
    config_is_earned types true build build_fallback server 7 nonce (ok proof) 3 refl refl
