-- ===== src/Identity/Keystore/RoundTrip.antt =====
-- What is stored by src/identity/keystore.rs is loaded again.
use fleetos_agent.Prelude.{
  ℕ, ◌^◌, ◌<◌, Option, none, some, ◌∷◌, ◌≡◌, ◌≢◌, inl, inr, refl, sym, ap, ◌∙◌, Bytes, length,
  arith, ltb, ◌==◌, true, Bool-cases, Option-cases,
}
use fleetos_agent.Errors.{AgentError, secret, Result, ok, err, Result-cases}
use fleetos_agent.Exec.{Exec, lift, ◌>>=◌, lift-ok, lift-err}
use fleetos_agent.Storage.{Keyspace}
use fleetos_agent.Identity.Svid.{Postcard}
use fleetos_agent.Identity.Keystore.{
  Crypto, Random, software_master_key_label, default_seal_pcrs, cipher_key, envelope_bytes, save,
  seal_dek, encrypted, envelope_seal, envelope_unseal, software_seal, or_software, store_sealed,
  load_prefixed, load_sealed,
}
use fleetos_agent.Identity.Keystore.Envelope.{parse_envelope-envelope_bytes}
use fleetos_agent.Identity.Keystore.Saved.{
  load_sealed-saved, save-ok, software_seal-Recovers, direct_seal-Recovers,
}
use fleetos_agent.Identity.Keystore.Recovers.{Recovers, required-ok}
use fleetos_agent.Identity.Keystore.Master.{MasterIsPair}

cipher_key-ok :
    (dek key : Bytes) → cipher_key dek ≡ ok key → (key ≡ dek) × ((length dek == 32) ≡ true)
cipher_key-ok dek key e = elim (Bool-cases (length dek == 32)) [
  | inl sized ↦ (ground arith, sized)
  | inr odd ↦ absurd (ground arith)
]

module _ (storage : Keyspace) (crypto : Crypto) (blobs : Postcard crypto.SealedBlob)
    (tuples : Postcard (ℕ × ℕ × Bytes × Bytes)) where
  open storage use {Space}
  open crypto use {TpmEndpoint}

  -- Envelopes.
  envelope-Recovers :
      (random random' : Random) (endpoint : TpmEndpoint)
      (key_label plaintext blob_bytes ciphertext : Bytes) (blob : crypto.SealedBlob) (t : Space)
      → length blob_bytes < 2 ^ 32
      → length random.nonce ≡ 12
      → crypto.seal_to_pcr endpoint random.dek default_seal_pcrs ≡ some blob
      → crypto.encrypt random.dek random.nonce plaintext key_label ≡ some ciphertext
      → blobs.to_allocvec blob ≡ ok blob_bytes
      → Recovers (some plaintext) (
          load_prefixed storage crypto blobs tuples random'
            (some endpoint)
            key_label
            (some (3 ∷ envelope_bytes blob_bytes random.nonce ciphertext))
            t)
  unfolding load_prefixed envelope_unseal
  envelope-Recovers random random' endpoint key_label plaintext blob_bytes ciphertext blob t small n
        sealed made encoded =
      let parsed = parse_envelope-envelope_bytes blob_bytes random.nonce ciphertext small n in
      let decoded = blobs.from_bytes-to_allocvec blob blob_bytes encoded in
      let opens =
        crypto.decrypt-encrypt random.dek random.nonce plaintext key_label ciphertext made in
      elim (Option-cases (crypto.unseal_pcr endpoint blob)) [
        | inl failed ↦ inr (rw (parsed, decoded, failed) refl)
        | inr (found, q) ↦
            let same =
              crypto.unseal_pcr-seal_to_pcr endpoint random.dek found default_seal_pcrs blob sealed
                q in
            elim (Bool-cases (length random.dek == 32)) [
              | inl sized ↦ inl (rw (parsed, decoded, q, same, sized, opens) refl)
              | inr odd ↦ inr (rw (parsed, decoded, q, same, odd) refl)
            ]
      ]

  -- The steps of an envelope, from the last one.
  abbrev put : Random → Bytes → Bytes → Bytes → Exec Space (Unit {0})
  put random key_label ciphertext blob_bytes =
      save storage crypto blobs tuples key_label 3
        (envelope_bytes blob_bytes random.nonce ciphertext)

  abbrev encode : Random → Bytes → crypto.SealedBlob → Bytes → Exec Space (Unit {0})
  encode random key_label blob ciphertext =
      lift (blobs.to_allocvec blob) >>= put random key_label ciphertext

  abbrev cover : Random → Bytes → Bytes → crypto.SealedBlob → Bytes → Exec Space (Unit {0})
  cover random key_label plaintext blob dek =
      lift (encrypted storage crypto blobs tuples random key_label plaintext)
      >>= encode random key_label blob

  abbrev with_dek : Random → Bytes → Bytes → crypto.SealedBlob → Exec Space (Unit {0})
  with_dek random key_label plaintext blob =
      lift (cipher_key random.dek) >>= cover random key_label plaintext blob

  envelope_seal-Recovers :
      (random random' : Random) (endpoint : TpmEndpoint) (key_label plaintext : Bytes) (s t : Space)
      → ((blob : crypto.SealedBlob) (bytes : Bytes)
          → blobs.to_allocvec blob ≡ ok bytes
          → length bytes < 2 ^ 32)
      → length random.nonce ≡ 12
      → envelope_seal storage crypto blobs tuples random endpoint key_label plaintext s ≡ (ok tt, t)
      → Recovers
          (some plaintext)
          (load_sealed storage crypto blobs tuples random' (some endpoint) key_label t)
  unfolding envelope_seal
  envelope_seal-Recovers random random' endpoint key_label plaintext s t small n e =
      let (blob, q, rest) =
        lift-ok (seal_dek storage crypto blobs tuples endpoint random)
          (with_dek random key_label plaintext) s t tt e in
      let (dek, sized, rest2) =
        lift-ok (cipher_key random.dek) (cover random key_label plaintext blob) s t tt rest in
      let (ciphertext, made, rest3) =
        lift-ok (encrypted storage crypto blobs tuples random key_label plaintext)
          (encode random key_label blob) s t tt rest2 in
      let (blob_bytes, encoded, rest4) =
        lift-ok (blobs.to_allocvec blob) (put random key_label ciphertext) s t tt rest3 in
      let bytes = envelope_bytes blob_bytes random.nonce ciphertext in
      load_sealed-saved storage crypto blobs tuples random' (some endpoint) key_label bytes 3 s t
        (some plaintext) (save-ok storage crypto blobs tuples key_label bytes 3 s t rest4)
        (envelope-Recovers random random' endpoint key_label plaintext blob_bytes ciphertext blob t
          (small blob blob_bytes encoded) n
          (required-ok (secret "envelope DEK sealing failed") _ blob q)
          (required-ok (secret "envelope encryption failed") _ ciphertext made) encoded)

  save-err :
      (key_label bytes : Bytes) (prefix : ℕ) (s t : Space) (e : AgentError)
      → save storage crypto blobs tuples key_label prefix bytes s ≡ (err e, t)
      → t ≡ s
  save-err key_label bytes prefix s t e h =
      elim (Result-cases (storage.insert s key_label (prefix ∷ bytes))) [
        | inl (u, q) ↦ absurd (ground arith)
        | inr (e', q) ↦ ground arith
      ]

  -- An envelope that fails has written nothing.
  envelope_seal-err :
      (random : Random) (endpoint : TpmEndpoint) (key_label plaintext : Bytes) (s t : Space)
      (e : AgentError)
      → envelope_seal storage crypto blobs tuples random endpoint key_label plaintext s ≡ (err e, t)
      → t ≡ s
  unfolding envelope_seal
  envelope_seal-err random endpoint key_label plaintext s t e h =
      lift-err (seal_dek storage crypto blobs tuples endpoint random)
        (with_dek random key_label plaintext) s t e h
        λ blob h2.
          lift-err (cipher_key random.dek) (cover random key_label plaintext blob) s t e h2
            λ dek h3.
              lift-err (encrypted storage crypto blobs tuples random key_label plaintext)
                (encode random key_label blob) s t e h3
                λ ciphertext h4.
                  lift-err (blobs.to_allocvec blob) (put random key_label ciphertext) s t e h4
                    λ blob_bytes h5.
                      save-err key_label (envelope_bytes blob_bytes random.nonce ciphertext) 3 s t e
                        h5

  or_software-Recovers :
      (random random' : Random) (endpoint : TpmEndpoint) (key_label plaintext : Bytes)
      (r : Result (Unit {0})) (s s' t : Space)
      → ((blob : crypto.SealedBlob) (bytes : Bytes)
          → blobs.to_allocvec blob ≡ ok bytes
          → length bytes < 2 ^ 32)
      → length random.nonce ≡ 12
      → crypto.IsPair random.keypair.0 random.keypair.1
      → MasterIsPair storage crypto blobs tuples s
      → key_label ≢ software_master_key_label
      → envelope_seal storage crypto blobs tuples random endpoint key_label plaintext s ≡ (r, s')
      → or_software storage crypto blobs tuples random key_label plaintext (r, s') ≡ (ok tt, t)
      → Recovers
          (some plaintext)
          (load_sealed storage crypto blobs tuples random' (some endpoint) key_label t)
  or_software-Recovers random random' endpoint key_label plaintext (ok u) s s' t small n fresh m ne
        e h =
      envelope_seal-Recovers random random' endpoint key_label plaintext s t small n (e ∙ h)
  or_software-Recovers random random' endpoint key_label plaintext (err e') s s' t small n fresh m
        ne e h =
      let same = envelope_seal-err random endpoint key_label plaintext s s' e' e in
      software_seal-Recovers storage crypto blobs tuples random random' (some endpoint) key_label
        plaintext s t fresh m ne
        (ap (software_seal storage crypto blobs tuples random key_label plaintext) (sym same) ∙ h)

  -- Whatever its length and whether or not there is a TPM, and whether sealing by the TPM succeeded or
  -- fell back to software: what was stored under a label other than the master key's is what a load under that label yields, or the load fails; it never yields other bytes or none. The label must not
  -- be the master key's, the nonce has 12 bytes, a sealed data key is encoded in less than 2^32 bytes,
  -- and the key pair that is drawn and the one that the storage may hold are pairs.
  pub load-store_sealed :
      (random random' : Random) (endpoint : Option TpmEndpoint) (key_label plaintext : Bytes)
      (s t : Space)
      → ((blob : crypto.SealedBlob) (bytes : Bytes)
          → blobs.to_allocvec blob ≡ ok bytes
          → length bytes < 2 ^ 32)
      → length random.nonce ≡ 12
      → crypto.IsPair random.keypair.0 random.keypair.1
      → MasterIsPair storage crypto blobs tuples s
      → key_label ≢ software_master_key_label
      → store_sealed storage crypto blobs tuples random endpoint key_label plaintext s ≡ (ok tt, t)
      → Recovers
          (some plaintext)
          (load_sealed storage crypto blobs tuples random' endpoint key_label t)
  unfolding store_sealed
  load-store_sealed random random' none key_label plaintext s t small n fresh m ne e =
      software_seal-Recovers storage crypto blobs tuples random random' none key_label plaintext s t
        fresh m ne e
  load-store_sealed random random' (some endpoint) key_label plaintext s t small n fresh m ne e =
      elim (Bool-cases (ltb 64 (length plaintext))) [
        | inl large ↦
            let run =
              envelope_seal storage crypto blobs tuples random endpoint key_label plaintext s in
            or_software-Recovers random random' endpoint key_label plaintext run.0 s run.1 t small n
              fresh m ne refl (ground arith)
        | inr fits ↦
            direct_seal-Recovers storage crypto blobs tuples random random' endpoint key_label
              plaintext s t fresh m ne (ground arith)
      ]
