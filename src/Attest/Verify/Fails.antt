-- ===== src/Attest/Verify/Fails.antt =====
-- What `verify` of src/vsock_attest/verify.rs accepts.
use fleetos_agent.Prelude.{
  ◌≤◌, Bool, true, false, Option, none, some, ◌≡◌, ◌↔◌, ◌⊎◌, inl, inr, refl, ap, sym, ◌∙◌, subst,
  arith, Bytes, length, take, ◌==◌, ==_iff, Bool-cases,
}
use fleetos_agent.Collections.Key.{same_bytes_iff}
use fleetos_agent.Errors.{ok}
use fleetos_agent.Attest.Verify.{
  QuoteTypes, VsockAttestationProof, BootMeasurement, VerifiedGuest, guest_of, any_window,
  check_measurement, verify, verify_nonce_binding, verify_dev_software, verify_host_measured,
}
use fleetos_agent.Attest.Verify.Binding.{Contains, any_window_iff}

module _ (types : QuoteTypes) (production : Bool) where
  -- The two ways in: a software quote in a build for development, or a quote of the host's own
  -- measurement of the VM that it launched.
  pub record ByMeasurement (proof : VsockAttestationProof) (measurement : Option BootMeasurement)
      : Type 0 where
    pub launched : BootMeasurement
    pub registered : measurement ≡ some launched
    pub is_host : proof.quote_type ≡ types.host_measured
    pub long : 32 ≤ length proof.raw_quote
    pub matches : take 32 proof.raw_quote ≡ launched.combined_hash

  pub Accepts : VsockAttestationProof → Option BootMeasurement → Type 0
  Accepts proof measurement =
      ((production ≡ false) × (proof.quote_type ≡ types.dev_software))
      ⊎ ByMeasurement proof measurement

  binding :
      (nonce raw : Bytes)
      → length nonce ≡ 32
      → (any_window 32 nonce raw ≡ true) ↔ Contains raw nonce
  binding nonce raw n32 =
      subst (λ n. (any_window n nonce raw ≡ true) ↔ Contains raw nonce) n32
        (any_window_iff nonce raw (omega arith))

  check_measurement-ok :
      (measurement : Option BootMeasurement) (proof : VsockAttestationProof) (guest : VerifiedGuest)
      → proof.quote_type ≡ types.host_measured
      → check_measurement measurement proof ≡ ok guest
      → ByMeasurement proof measurement × (guest ≡ guest_of proof)
  unfolding check_measurement
  check_measurement-ok none proof guest host e = ground arith
  check_measurement-ok (some m) proof guest host e = (
    record {
      launched = m;
      registered = refl;
      is_host = host;
      long = ground arith;
      matches = (same_bytes_iff (take 32 proof.raw_quote) m.combined_hash).0 (ground arith);
    },
    ground arith,
  )

  ByMeasurement-check :
      (measurement : Option BootMeasurement) (proof : VsockAttestationProof)
      → ByMeasurement proof measurement
      → check_measurement measurement proof ≡ ok (guest_of proof)
  unfolding check_measurement
  ByMeasurement-check none proof h = ground (arith, h.registered)
  ByMeasurement-check (some m) proof h = ground (
    arith,
    h.registered,
    h.long,
    (same_bytes_iff (take 32 proof.raw_quote) h.launched.combined_hash).1 h.matches,
  )

  verify-Accepts :
      (proof : VsockAttestationProof) (nonce : Bytes) (measurement : Option BootMeasurement)
      (guest : VerifiedGuest)
      → verify types production proof nonce measurement ≡ ok guest
      → (any_window 32 nonce proof.raw_quote ≡ true)
        × Accepts proof measurement
        × (guest ≡ guest_of proof)
  unfolding verify verify_nonce_binding verify_dev_software verify_host_measured Accepts
  verify-Accepts proof nonce measurement guest e =
      elim (Bool-cases (proof.quote_type == types.dev_software)) [
        | inl dev ↦ (ground arith, inl (ground arith, (==_iff _ _).0 dev), ground arith)
        | inr not_dev ↦ elim (Bool-cases (proof.quote_type == types.host_measured)) [
          | inr not_host ↦ ground arith
          | inl host ↦
              let c =
                check_measurement-ok measurement proof guest ((==_iff _ _).0 host) (ground arith) in
              (ground arith, inr c.0, c.1)
        ]
      ]

  Accepts-verify :
      (proof : VsockAttestationProof) (nonce : Bytes) (measurement : Option BootMeasurement)
      → any_window 32 nonce proof.raw_quote ≡ true
      → Accepts proof measurement
      → verify types production proof nonce measurement ≡ ok (guest_of proof)
  unfolding verify verify_nonce_binding verify_dev_software verify_host_measured Accepts
  Accepts-verify proof nonce measurement found (inl (dev_build, dev)) = ground arith
  Accepts-verify proof nonce measurement found (inr h) =
      ground (arith, h.is_host, types.host_ne_dev, ByMeasurement-check measurement proof h)

  -- For a nonce of 32 bytes, verification is fail-closed. It returns a guest only where the quote holds the challenge's nonce
  -- and either is a software quote in a build that is not for production, or is host-measured, a
  -- measurement is registered for the peer, and the first 32 bytes of the quote are that measurement's
  -- combined hash; the guest then has the key of the proof. In all these cases it does.
  pub verify_iff :
      (proof : VsockAttestationProof) (nonce : Bytes) (measurement : Option BootMeasurement)
      (guest : VerifiedGuest)
      → length nonce ≡ 32
      → (verify types production proof nonce measurement ≡ ok guest)
        ↔ (Contains proof.raw_quote nonce × Accepts proof measurement × (guest ≡ guest_of proof))
  verify_iff proof nonce measurement guest n32 = (
    λ e.
        let h = verify-Accepts proof nonce measurement guest e in
        ((binding nonce proof.raw_quote n32).0 h.0, h.1, h.2),
    λ (found, accepts, same).
        Accepts-verify proof nonce measurement ((binding nonce proof.raw_quote n32).1 found) accepts
        ∙ ap ok (sym same),
  )
