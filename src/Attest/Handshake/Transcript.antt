-- ===== src/Attest/Handshake/Transcript.antt =====
-- What `handle_connection` of src/vsock_attest/mod.rs sends.
use fleetos_agent.Prelude.{
  ℕ, zero, suc, Bool, true, false, Option, none, some, List, [], ◌∷◌, take, ◌≡◌, inl, inr, refl, ap,
  sym, subst, arith, Bytes, length,
}
use fleetos_agent.Collections.Key.{nat_key}
use fleetos_agent.Collections.HashMap
use fleetos_agent.Errors.{AgentError, Result, ok, err, Result-cases}
use fleetos_agent.Exec.{◌>>◌}
use fleetos_agent.Attest.Verify.{QuoteTypes, VsockAttestationProof, VerifiedGuest, verify}
use fleetos_agent.Attest.Verify.Binding.{Contains}
use fleetos_agent.Attest.Verify.Fails.{Accepts, verify_iff}
use fleetos_agent.Attest.Handshake.{
  Message, challenge, attest_result, workload_config, Stream, VsockAttestServer, write_msg,
  result_of, config_for, push_config, handle_connection,
}

take_nil : {A : Type 0} (n : ℕ) → take {A = A} n [] ≡ []
take_nil zero = refl
take_nil (suc n) = refl

module _ {Config : Type 0} where
  write_third :
      (n : ℕ) (a b c : Message Config) (incoming : Result VsockAttestationProof)
      → (write_msg c (record { incoming = incoming; writable = n; sent = a ∷ b ∷ [] })).1.sent
        ≡ a ∷ b ∷ take n (c ∷ [])
  write_third zero a b c incoming = refl
  write_third (suc zero) a b c incoming = refl
  write_third (suc (suc n)) a b c incoming = refl

module _ {Context Config : Type 0} (types : QuoteTypes) (production : Bool)
    (build : VerifiedGuest → Context → Result Config)
    (build_fallback : VerifiedGuest → Result Config) where
  -- The messages that follow the verification.
  abbrev pub pushed : Result Config → List (Message Config)
  pushed (ok config) = workload_config config ∷ []
  pushed (err e) = []

  abbrev pub after_verification : Result VerifiedGuest → Option Context → List (Message Config)
  after_verification (ok guest) context =
      attest_result true none
      ∷ pushed (config_for types production build build_fallback guest context)
  after_verification (err e) context = attest_result false (some e) ∷ []

  -- The messages of a whole handshake, by what the guest answers.
  abbrev pub script :
      VsockAttestServer Context → ℕ → Bytes → Result VsockAttestationProof → List (Message Config)
  script server peer_cid nonce (err e) = challenge nonce ∷ []
  script server peer_cid nonce (ok proof) =
      challenge nonce
      ∷ after_verification
          (verify types production proof nonce (HashMap.lookup peer_cid server.boot_measurements))
          (HashMap.lookup peer_cid server.workload_contexts)

  abbrev pub fresh : Result VsockAttestationProof → ℕ → Stream Config
  fresh incoming n = record { incoming = incoming; writable = n; sent = [] }

  -- The last two steps, for any outcome of the verification.
  respond :
      (v : Result VerifiedGuest) (context : Option Context) (n : ℕ) (first : Message Config)
      (incoming : Result VsockAttestationProof)
      → ((write_msg (result_of v) >> push_config types production build build_fallback v context)
          (record { incoming = incoming; writable = n; sent = first ∷ [] })).1.sent
        ≡ first ∷ take n (after_verification v context)
  respond (err e) context zero first incoming = refl
  respond (err e) context (suc zero) first incoming = refl
  respond (err e) context (suc (suc n)) first incoming = refl
  respond (ok guest) context zero first incoming = refl
  respond (ok guest) context (suc n) first incoming =
      elim (Result-cases (config_for types production build build_fallback guest context)) [
        | inr (e, q) ↦ rw q (ap (λ t. first ∷ attest_result true none ∷ t) (sym (take_nil n)))
        | inl (config, q) ↦
            rw q (write_third n first (attest_result true none) (workload_config config) incoming)
      ]

  -- What a connection that takes n writes receives is the first n messages of the handshake: the
  -- challenge, then, where the guest answers, the result, with the reason where the guest is
  -- rejected, and then the configuration, only where it is accepted and the configuration is built.
  pub sent_exact :
      (server : VsockAttestServer Context) (peer_cid : ℕ) (nonce : Bytes)
      (incoming : Result VsockAttestationProof) (n : ℕ)
      → (handle_connection types production build build_fallback server peer_cid nonce
          (fresh incoming n)).1.sent
        ≡ take n (script server peer_cid nonce incoming)
  unfolding handle_connection
  sent_exact server peer_cid nonce (err e) zero = refl
  sent_exact server peer_cid nonce (err e) (suc zero) = refl
  sent_exact server peer_cid nonce (err e) (suc (suc n)) = refl
  sent_exact server peer_cid nonce (ok proof) zero = refl
  sent_exact server peer_cid nonce (ok proof) (suc n) =
      respond
        (verify types production proof nonce (HashMap.lookup peer_cid server.boot_measurements))
        (HashMap.lookup peer_cid server.workload_contexts) n (challenge nonce) (ok proof)

  abbrev pub has_config : List (Message Config) → Bool
  has_config [] = false
  has_config (challenge nonce ∷ messages) = has_config messages
  has_config (attest_result accepted reason ∷ messages) = has_config messages
  has_config (workload_config config ∷ messages) = true

  rejected-config :
      (nonce : Bytes) (e : AgentError) (context : Option Context) (n : ℕ)
      → has_config (take (suc n) (challenge nonce ∷ after_verification (err e) context)) ≡ false
  rejected-config nonce e context zero = refl
  rejected-config nonce e context (suc zero) = refl
  rejected-config nonce e context (suc (suc n)) = refl

  -- Only the script of an accepted guest has a configuration.
  script-config :
      (server : VsockAttestServer Context) (peer_cid : ℕ) (nonce : Bytes)
      (incoming : Result VsockAttestationProof) (n : ℕ)
      → has_config (take n (script server peer_cid nonce incoming)) ≡ true
      → (proof : VsockAttestationProof) × (guest : VerifiedGuest) × (incoming ≡ ok proof)
        × (verify types production proof nonce (HashMap.lookup peer_cid server.boot_measurements)
            ≡ ok guest)
  script-config server peer_cid nonce incoming zero h = ground arith
  script-config server peer_cid nonce (err e) (suc n) h =
      ground (arith, take_nil {A = Message Config} n)
  script-config server peer_cid nonce (ok proof) (suc n) h =
      elim (Result-cases
        (verify types production proof nonce (HashMap.lookup peer_cid server.boot_measurements))) [
          | inl (guest, q) ↦ (proof, guest, refl, q)
          | inr (e, q) ↦
              let context = HashMap.lookup peer_cid server.workload_contexts in
              let h' =
                subst
                  (λ v.
                    has_config (take (suc n) (challenge nonce ∷ after_verification v context))
                    ≡ true)
                  q h in
              absurd (cc (rejected-config nonce e context n))
        ]

  -- Where the nonce has 32 bytes, a configuration is sent to a guest only where its answer holds the nonce of the challenge and
  -- meets the conditions of acceptance, for the measurement registered for the peer.
  pub config_is_earned :
      (server : VsockAttestServer Context) (peer_cid : ℕ) (nonce : Bytes)
      (incoming : Result VsockAttestationProof) (n : ℕ)
      → length nonce ≡ 32
      → has_config
          (handle_connection types production build build_fallback server peer_cid nonce
            (fresh incoming n)).1.sent
        ≡ true
      → (proof : VsockAttestationProof) × (incoming ≡ ok proof)
        × Contains proof.raw_quote nonce
        × Accepts types production proof (HashMap.lookup peer_cid server.boot_measurements)
  config_is_earned server peer_cid nonce incoming n n32 h =
      let (proof, guest, q, accepted) = script-config server peer_cid nonce incoming n (
        subst (λ messages. has_config messages ≡ true) (sent_exact server peer_cid nonce incoming n)
          h) in
      let v =
        (verify_iff types production proof nonce (HashMap.lookup peer_cid server.boot_measurements)
            guest n32).0
          accepted in
      (proof, q, v.0, v.1)
