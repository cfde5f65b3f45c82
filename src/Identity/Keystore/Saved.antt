-- ===== src/Identity/Keystore/Saved.antt =====
-- What is sealed in software or by the TPM alone in src/identity/keystore.rs.
use fleetos_agent.Prelude.{
  ℕ, Option, some, ◌∷◌, ◌≡◌, ◌≢◌, inl, inr, refl, subst, Bytes, arith, Option-cases,
}
use fleetos_agent.Errors.{secret, ok, Result-cases}
use fleetos_agent.Exec.{bind-ok, lift-ok}
use fleetos_agent.Storage.{Keyspace}
use fleetos_agent.Identity.Svid.{Postcard}
use fleetos_agent.Secret.Deliver.{CoreSealedSecret}
use fleetos_agent.Identity.Keystore.{
  Crypto, Random, software_master_key_label, default_seal_pcrs, save, software_seal,
  software_unseal_from_bytes, wire, get_or_create_software_master_key, direct_seal, load_prefixed,
  load_sealed,
}
use fleetos_agent.Identity.Keystore.Recovers.{Recovers, required-ok}
use fleetos_agent.Identity.Keystore.Master.{
  MasterIsPair, HoldsPair, master-InUse, master-again, insert-HoldsPair,
}

module _ (storage : Keyspace) (crypto : Crypto) (blobs : Postcard crypto.SealedBlob)
    (tuples : Postcard (ℕ × ℕ × Bytes × Bytes)) where
  open storage use {Space}
  open crypto use {TpmEndpoint}

  -- A load reads what a save wrote, or fails.
  pub load_sealed-saved :
      (random : Random) (endpoint : Option TpmEndpoint) (key_label bytes : Bytes) (prefix : ℕ)
      (s t : Space) (a : Option Bytes)
      → storage.insert s key_label (prefix ∷ bytes) ≡ ok t
      → Recovers a (
          load_prefixed storage crypto blobs tuples random endpoint key_label
            (some (prefix ∷ bytes))
            t)
      → Recovers a (load_sealed storage crypto blobs tuples random endpoint key_label t)
  unfolding load_sealed
  load_sealed-saved random endpoint key_label bytes prefix s t a wrote h =
      elim (Result-cases (storage.get t key_label)) [
        | inr (e, q) ↦ inr (rw q refl)
        | inl (found, q) ↦
            let read = storage.get-insert_self s t key_label (prefix ∷ bytes) found wrote q in
            rw (q, read) h
      ]

  pub save-ok :
      (key_label bytes : Bytes) (prefix : ℕ) (s t : Space)
      → save storage crypto blobs tuples key_label prefix bytes s ≡ (ok tt, t)
      → storage.insert s key_label (prefix ∷ bytes) ≡ ok t
  save-ok key_label bytes prefix s t e =
      elim (Result-cases (storage.insert s key_label (prefix ∷ bytes))) [
        | inl (u, q) ↦ ground arith
        | inr (e', q) ↦ absurd (ground arith)
      ]

  -- Software sealing.
  software-Recovers :
      (random : Random) (sealed_bytes : Bytes) (sealed : CoreSealedSecret) (t : Space)
      (pair : Bytes × Bytes) (plaintext : Bytes)
      → HoldsPair storage crypto blobs tuples t pair
      → crypto.unseal pair.0 sealed ≡ some plaintext
      → tuples.to_allocvec (wire storage crypto blobs tuples sealed) ≡ ok sealed_bytes
      → Recovers
          (some plaintext)
          (software_unseal_from_bytes storage crypto blobs tuples random sealed_bytes t)
  unfolding software_unseal_from_bytes
  software-Recovers random sealed_bytes sealed t pair plaintext holds opens encoded =
      let decoded = tuples.from_bytes-to_allocvec _ sealed_bytes encoded in
      elim (master-again storage crypto blobs tuples random t pair holds) [
        | inl q ↦ inl (rw (q, decoded, opens) refl)
        | inr failed ↦
            elim (Result-cases
              (get_or_create_software_master_key storage crypto blobs tuples random t).0) [
                | inl (p, q) ↦ absurd (ground arith)
                | inr (e, q) ↦ inr (rw q refl)
              ]
      ]

  pub software_seal-Recovers :
      (random random' : Random) (endpoint : Option TpmEndpoint) (key_label plaintext : Bytes)
      (s t : Space)
      → crypto.IsPair random.keypair.0 random.keypair.1
      → MasterIsPair storage crypto blobs tuples s
      → key_label ≢ software_master_key_label
      → software_seal storage crypto blobs tuples random key_label plaintext s ≡ (ok tt, t)
      → Recovers
          (some plaintext)
          (load_sealed storage crypto blobs tuples random' endpoint key_label t)
  unfolding software_seal load_prefixed
  software_seal-Recovers random random' endpoint key_label plaintext s t fresh m ne e =
      let (pair, u, got, rest) =
        bind-ok (get_or_create_software_master_key storage crypto blobs tuples random) _ s t tt e in
      let (sealed, q, rest2) = lift-ok _ _ u t tt rest in
      let (sealed_bytes, encoded, rest3) = lift-ok _ _ u t tt rest2 in
      let used = master-InUse storage crypto blobs tuples random s u pair fresh m got in
      let wrote = save-ok key_label sealed_bytes 2 u t rest3 in
      let opens =
        crypto.unseal-seal pair.0 pair.1 plaintext 0 1 sealed used.is_pair
          (required-ok (secret "software seal failed") _ sealed q) in
      load_sealed-saved random' endpoint key_label sealed_bytes 2 u t (some plaintext) wrote (
        software-Recovers random' sealed_bytes sealed t pair plaintext
          (insert-HoldsPair storage crypto blobs tuples u t key_label (2 ∷ sealed_bytes) pair ne
            wrote used.holds)
          opens encoded)

  -- Sealing by the TPM itself.
  direct-Recovers :
      (random : Random) (endpoint : TpmEndpoint) (key_label plaintext blob_bytes : Bytes)
      (blob : crypto.SealedBlob) (t : Space)
      → crypto.seal_to_pcr endpoint plaintext default_seal_pcrs ≡ some blob
      → blobs.to_allocvec blob ≡ ok blob_bytes
      → Recovers (some plaintext) (
          load_prefixed storage crypto blobs tuples random
            (some endpoint)
            key_label
            (some (1 ∷ blob_bytes))
            t)
  unfolding load_prefixed
  direct-Recovers random endpoint key_label plaintext blob_bytes blob t sealed encoded =
      elim (Option-cases (crypto.unseal_pcr endpoint blob)) [
        | inl failed ↦ inr (rw (blobs.from_bytes-to_allocvec blob blob_bytes encoded, failed) refl)
        | inr (found, q) ↦
            let same =
              crypto.unseal_pcr-seal_to_pcr endpoint plaintext found default_seal_pcrs blob sealed
                q in
            inl (rw (blobs.from_bytes-to_allocvec blob blob_bytes encoded, q, same) refl)
      ]

  pub direct_seal-Recovers :
      (random random' : Random) (endpoint : TpmEndpoint) (key_label plaintext : Bytes) (s t : Space)
      → crypto.IsPair random.keypair.0 random.keypair.1
      → MasterIsPair storage crypto blobs tuples s
      → key_label ≢ software_master_key_label
      → direct_seal storage crypto blobs tuples random key_label plaintext
          (crypto.seal_to_pcr endpoint plaintext default_seal_pcrs)
          s
        ≡ (ok tt, t)
      → Recovers
          (some plaintext)
          (load_sealed storage crypto blobs tuples random' (some endpoint) key_label t)
  direct_seal-Recovers random random' endpoint key_label plaintext s t fresh m ne e =
      elim (Option-cases (crypto.seal_to_pcr endpoint plaintext default_seal_pcrs)) [
        | inl failed ↦
            software_seal-Recovers random random' (some endpoint) key_label plaintext s t fresh m ne
              (ground arith)
        | inr (blob, sealed) ↦
            let stored : direct_seal storage crypto blobs tuples random key_label plaintext
                  (some blob) s
                ≡ (ok tt, t) =
              subst
                (λ o.
                  direct_seal storage crypto blobs tuples random key_label plaintext o s
                  ≡ (ok tt, t))
                sealed e in
            let (blob_bytes, encoded, rest) = lift-ok _ _ s t tt stored in
            load_sealed-saved random' (some endpoint) key_label blob_bytes 1 s t (some plaintext)
              (save-ok key_label blob_bytes 1 s t rest)
              (direct-Recovers random' endpoint key_label plaintext blob_bytes blob t sealed
                encoded)
      ]
