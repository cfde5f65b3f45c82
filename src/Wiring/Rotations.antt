-- ===== src/Wiring/Rotations.antt =====
-- The secrets that src/wiring.rs keeps and writes.
use fleetos_agent.Prelude.{
  ℕ, Bool, true, Option, some, [], ◌∷◌, Bytes, ◌≡◌, ◌≢◌, refl, ◌∙◌, arith, inl, inr, All,
  Bool-cases, if◌then◌else◌,
}
use fleetos_agent.Errors.{Result, ok, err}
use fleetos_agent.Exec.{Exec, continue, lift, writes, written, ◌>>=◌, ◌>>◌}
use fleetos_agent.Storage.{Keyspace}
use fleetos_agent.Collections.Key.{bytes_key, same_bytes}
use fleetos_agent.Collections.HashMap.{lookup, lookup-insert}
use fleetos_agent.Identity.Svid.{Postcard}
use fleetos_agent.Identity.Keystore.{Crypto, Random, load_sealing_secret}
use fleetos_agent.Secret.Deliver.{ProtoSealedSecret, deliver_secret}
use fleetos_agent.Wiring.Secrets.{
  in_sequences, sealing_key, Files, safe_name, SecretsHandler, unseal, deliver, remember,
  handle_rotation, on_disk,
}

-- No byte of a file's name is a separator.
pub safe_name-All : (bytes : Bytes) → All (λ b. (b ≢ 47) × (b ≢ 58)) (safe_name bytes)
unfolding safe_name
safe_name-All [] = tt
safe_name-All (b ∷ bytes) = ((λ e. ground arith, λ e. ground arith), safe_name-All bytes)

module _ (files : Files) (delegation sequences : Keyspace) (crypto : Crypto)
    (blobs : Postcard crypto.SealedBlob) (tuples : Postcard (ℕ × ℕ × Bytes × Bytes))
    (is_spiffe_id : Bytes → Bool) where
  abbrev pub Handler : Type 0
  Handler = SecretsHandler files delegation sequences crypto blobs tuples is_spiffe_id

  -- The plaintext of the sealed secret was written under the safe name, and is kept in memory.
  pub record Delivered (random : Random) (endpoint : Option crypto.TpmEndpoint)
      (sealed : ProtoSealedSecret) (spiffe_id : Bytes) (h u : Handler) : Type 0 where
    pub plaintext : Bytes
    pub opened : Handler
    pub before : files.Disk
    pub unsealed :
        unseal files delegation sequences crypto blobs tuples is_spiffe_id random endpoint sealed h
        ≡ (ok plaintext, opened)
    pub valid_id : is_spiffe_id spiffe_id ≡ true
    pub written : files.write (safe_name spiffe_id) plaintext before ≡ ok u.disk
    pub kept :
        (id : Bytes)
        → lookup id u.secrets
          ≡ (if same_bytes spiffe_id id then some plaintext else lookup id h.secrets)

  abbrev pub Outcome :
      Random
      → Option crypto.TpmEndpoint
      → Result ProtoSealedSecret
      → Bytes
      → Handler
      → Result (Unit {0}) × Handler
      → Type 0
  Outcome random endpoint fetched spiffe_id h (ok u, v) =
      (sealed : ProtoSealedSecret) × (fetched ≡ ok sealed)
      × Delivered random endpoint sealed spiffe_id h v
  Outcome random endpoint fetched spiffe_id h (err e, v) = v.secrets ≡ h.secrets

  continue-secrets :
      {A B : Type 0} (h u : Handler) (r : Result A) (f : A → Exec Handler B)
      → u.secrets ≡ h.secrets
      → ((a : A) → (f a u).1.secrets ≡ h.secrets)
      → (continue r f u).1.secrets ≡ h.secrets
  continue-secrets h u (ok a) f e rest = rest a
  continue-secrets h u (err e') f e rest = e

  unseal-secrets :
      (random : Random) (endpoint : Option crypto.TpmEndpoint) (sealed : ProtoSealedSecret)
      (h : Handler)
      → (unseal files delegation sequences crypto blobs tuples is_spiffe_id random endpoint sealed
          h).1.secrets
        ≡ h.secrets
  unfolding unseal
  unseal-secrets random endpoint sealed h =
      let open_with : Bytes → Exec Handler Bytes = λ key_bytes.
        in_sequences files delegation sequences crypto blobs tuples is_spiffe_id
          (deliver_secret sequences crypto.unseal sealed key_bytes) in
      let (r, s) =
        load_sealing_secret delegation crypto blobs tuples random endpoint h.delegation_space in
      continue-secrets h (record h { delegation_space = s }) r
        (λ found.
          lift (sealing_key files delegation sequences crypto blobs tuples is_spiffe_id found)
          >>= open_with)
        refl
        λ found.
          continue-secrets h (record h { delegation_space = s })
            (sealing_key files delegation sequences crypto blobs tuples is_spiffe_id found)
            open_with refl λ key_bytes. refl

  -- The outcome of the delivery to disk.
  abbrev OnDisk : Bytes → Bytes → Handler → Result (Unit {0}) × Handler → Type 0
  OnDisk spiffe_id plaintext h (ok u, v) =
      (before : files.Disk) × (is_spiffe_id spiffe_id ≡ true)
      × (files.write (safe_name spiffe_id) plaintext before ≡ ok v.disk)
      × (v.secrets ≡ h.secrets)
  OnDisk spiffe_id plaintext h (err e, v) = v.secrets ≡ h.secrets

  write-OnDisk :
      (spiffe_id plaintext : Bytes) (h u : Handler) (r : Result files.Disk)
      → is_spiffe_id spiffe_id ≡ true
      → u.secrets ≡ h.secrets
      → files.write (safe_name spiffe_id) plaintext u.disk ≡ r
      → let (w, s) = written u.disk r in OnDisk spiffe_id plaintext h (w, record u { disk = s })
  write-OnDisk spiffe_id plaintext h u (ok t) v e q = (u.disk, v, q, e)
  write-OnDisk spiffe_id plaintext h u (err e') v e q = e

  dir-OnDisk :
      (spiffe_id plaintext : Bytes) (h : Handler) (r : Result files.Disk)
      → is_spiffe_id spiffe_id ≡ true
      → let (w, s) = written h.disk r in
        OnDisk spiffe_id plaintext h (
          continue w
            (λ u.
              on_disk files delegation sequences crypto blobs tuples is_spiffe_id
                (writes (files.write (safe_name spiffe_id) plaintext)))
            (record h { disk = s }))
  dir-OnDisk spiffe_id plaintext h (ok t) v =
      write-OnDisk spiffe_id plaintext h (record h { disk = t })
        (files.write (safe_name spiffe_id) plaintext t) v refl refl
  dir-OnDisk spiffe_id plaintext h (err e') v = refl

  deliver-OnDisk :
      (spiffe_id plaintext : Bytes) (h : Handler)
      → OnDisk spiffe_id plaintext h (
          deliver files delegation sequences crypto blobs tuples is_spiffe_id spiffe_id plaintext h)
  unfolding deliver
  deliver-OnDisk spiffe_id plaintext h = elim (Bool-cases (is_spiffe_id spiffe_id)) [
    | inr malformed ↦ rw malformed refl
    | inl valid ↦
        rw valid (dir-OnDisk spiffe_id plaintext h (files.create_secrets_dir h.disk) valid)
  ]

  delivered-Outcome :
      (random : Random) (endpoint : Option crypto.TpmEndpoint) (sealed : ProtoSealedSecret)
      (spiffe_id plaintext : Bytes) (h u : Handler) (run : Result (Unit {0}) × Handler)
      → unseal files delegation sequences crypto blobs tuples is_spiffe_id random endpoint sealed h
        ≡ (ok plaintext, u)
      → u.secrets ≡ h.secrets
      → OnDisk spiffe_id plaintext u run
      → Outcome random endpoint (ok sealed) spiffe_id h (
          continue run.0
            (λ done.
              remember files delegation sequences crypto blobs tuples is_spiffe_id spiffe_id
                plaintext)
            run.1)
  delivered-Outcome random endpoint sealed spiffe_id plaintext h u (err e, v) q same d = d ∙ same
  delivered-Outcome random endpoint sealed spiffe_id plaintext h u (ok done, v) q same
        (before, valid, wrote, kept) =
      (
        sealed,
        refl,
        record {
          plaintext = plaintext;
          opened = u;
          before = before;
          unsealed = q;
          valid_id = valid;
          written = wrote;
          kept = λ id. ground (arith, lookup-insert spiffe_id id plaintext v.secrets, kept, same);
        },
      )

  unsealed-Outcome :
      (random : Random) (endpoint : Option crypto.TpmEndpoint) (sealed : ProtoSealedSecret)
      (spiffe_id : Bytes) (h u : Handler) (r : Result Bytes)
      → unseal files delegation sequences crypto blobs tuples is_spiffe_id random endpoint sealed h
        ≡ (r, u)
      → u.secrets ≡ h.secrets
      → Outcome random endpoint (ok sealed) spiffe_id h (
          continue r
            (λ plaintext.
              deliver files delegation sequences crypto blobs tuples is_spiffe_id spiffe_id
                plaintext
              >> remember files delegation sequences crypto blobs tuples is_spiffe_id spiffe_id
                  plaintext)
            u)
  unsealed-Outcome random endpoint sealed spiffe_id h u (err e) q same = same
  unsealed-Outcome random endpoint sealed spiffe_id h u (ok plaintext) q same =
      delivered-Outcome random endpoint sealed spiffe_id plaintext h u
        (deliver files delegation sequences crypto blobs tuples is_spiffe_id spiffe_id plaintext u)
        q same (deliver-OnDisk spiffe_id plaintext u)

  -- A rotation that succeeds has fetched a sealed secret, and what it unsealed is what it wrote to disk, under
  -- the safe name of a well-formed SPIFFE ID, and what it keeps in memory for that ID; other secrets stay.
  -- One that fails anywhere leaves the secrets in memory as they were.
  pub handle_rotation-Outcome :
      (random : Random) (endpoint : Option crypto.TpmEndpoint) (fetched : Result ProtoSealedSecret)
      (spiffe_id : Bytes) (h : Handler)
      → Outcome random endpoint fetched spiffe_id h (
          handle_rotation files delegation sequences crypto blobs tuples is_spiffe_id random
            endpoint fetched spiffe_id h)
  unfolding handle_rotation
  handle_rotation-Outcome random endpoint (err e) spiffe_id h = refl
  handle_rotation-Outcome random endpoint (ok sealed) spiffe_id h =
      let run =
        unseal files delegation sequences crypto blobs tuples is_spiffe_id random endpoint sealed
          h in
      unsealed-Outcome random endpoint sealed spiffe_id h run.1 run.0 refl
        (unseal-secrets random endpoint sealed h)
