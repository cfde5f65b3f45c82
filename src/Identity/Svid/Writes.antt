-- ===== src/Identity/Svid/Writes.antt =====
-- The writes of `store` in src/identity/svid.rs, and the entries that they leave.
use fleetos_agent.Prelude.{ℕ, Option, some, List, [], ◌∷◌, ◌≡◌, ◌≢◌, ap, arith, Bytes, inl, inr}
use fleetos_agent.Prelude.Words.{to_le_bytes}
use fleetos_agent.Errors.{AgentError, ok, err}
use fleetos_agent.Exec.{writes-ok, writes-err}
use fleetos_agent.Storage.{Keyspace}
use fleetos_agent.Identity.Svid.{
  Postcard, SvidState, key_cert_chain, key_version, key_generation, key_installed, persist,
}

key_version_ne_cert_chain : key_version ≢ key_cert_chain
key_version_ne_cert_chain = ground arith

key_generation_ne_cert_chain : key_generation ≢ key_cert_chain
key_generation_ne_cert_chain = ground arith

key_installed_ne_cert_chain : key_installed ≢ key_cert_chain
key_installed_ne_cert_chain = ground arith

key_generation_ne_version : key_generation ≢ key_version
key_generation_ne_version = ground arith

key_installed_ne_version : key_installed ≢ key_version
key_installed_ne_version = ground arith

key_installed_ne_generation : key_installed ≢ key_generation
key_installed_ne_generation = ground arith

chain_ne_installed : key_cert_chain ≢ key_installed
chain_ne_installed = ground arith

version_ne_installed : key_version ≢ key_installed
version_ne_installed = ground arith

generation_ne_installed : key_generation ≢ key_installed
generation_ne_installed = ground arith

module _ (storage : Keyspace) (postcard : Postcard (List Bytes)) where
  open storage use {Space}

  -- What a successful `persist` has written.
  pub record Written (cert_bytes : Bytes) (version generation : ℕ) (s t : Space) : Type 0 where
    pub s1 : Space
    pub s2 : Space
    pub s3 : Space
    pub chain_written : storage.insert s key_cert_chain cert_bytes ≡ ok s1
    pub version_written : storage.insert s1 key_version (to_le_bytes 8 version) ≡ ok s2
    pub generation_written : storage.insert s2 key_generation (to_le_bytes 8 generation) ≡ ok s3
    pub installed_written : storage.insert s3 key_installed (1 ∷ []) ≡ ok t

  pub persist-Written :
      (bytes : Bytes) (chain : List Bytes) (version generation : ℕ) (s t : Space) (st : SvidState)
      → persist storage postcard bytes chain version generation s ≡ (ok st, t)
      → Written bytes version generation s t
        × (record { cert_chain_der = chain; svid_version = version; generation = generation } ≡ st)
  unfolding persist
  persist-Written bytes chain version generation s t st e =
      let (s1, w1, r1) = writes-ok (λ u. storage.insert u key_cert_chain bytes) _ s t st e in
      let (s2, w2, r2) =
        writes-ok (λ u. storage.insert u key_version (to_le_bytes 8 version)) _ s1 t st r1 in
      let (s3, w3, r3) =
        writes-ok (λ u. storage.insert u key_generation (to_le_bytes 8 generation)) _ s2 t st r2 in
      let (s4, w4, r4) = writes-ok (λ u. storage.insert u key_installed (1 ∷ [])) _ s3 t st r3 in
      (
        record {
          s1 = s1;
          s2 = s2;
          s3 = s3;
          chain_written = w1;
          version_written = w2;
          generation_written = w3;
          installed_written = ground arith;
        },
        ground arith,
      )

  -- A `persist` that fails has not touched the flag.
  pub persist-err :
      (bytes : Bytes) (chain : List Bytes) (version generation : ℕ) (s t : Space) (e : AgentError)
      → persist storage postcard bytes chain version generation s ≡ (err e, t)
      → storage.get t key_installed ≡ storage.get s key_installed
  unfolding persist
  persist-err bytes chain version generation s t e h =
      elim (writes-err (λ u. storage.insert u key_cert_chain bytes) _ s t e h) [
        | inl same ↦ ap (λ u. storage.get u key_installed) same
        | inr (s1, w1, r1) ↦
            let k1 = storage.get-insert_ne _ _ _ _ _ chain_ne_installed w1 in
            elim (writes-err (λ u. storage.insert u key_version (to_le_bytes 8 version)) _ s1 t e
              r1) [
                | inl same ↦ cc
                | inr (s2, w2, r2) ↦
                    let k2 = storage.get-insert_ne _ _ _ _ _ version_ne_installed w2 in
                    elim (writes-err
                      (λ u. storage.insert u key_generation (to_le_bytes 8 generation)) _ s2 t e
                      r2) [
                        | inl same ↦ cc
                        | inr (s3, w3, r3) ↦
                            let k3 = storage.get-insert_ne _ _ _ _ _ generation_ne_installed w3 in
                            elim (writes-err (λ u. storage.insert u key_installed (1 ∷ [])) _ s3 t e
                              r3) [ inl same ↦ cc | inr (s4, w4, r4) ↦ ground arith ]
                      ]
              ]
      ]

  -- What a state holds after the four writes.
  pub record Holds (bytes : Bytes) (version generation : ℕ) (t : Space) : Type 0 where
    pub chain_held :
        (found : Option Bytes) → storage.get t key_cert_chain ≡ ok found → found ≡ some bytes
    pub version_held :
        (found : Option Bytes)
        → storage.get t key_version ≡ ok found
        → found ≡ some (to_le_bytes 8 version)
    pub generation_held :
        (found : Option Bytes)
        → storage.get t key_generation ≡ ok found
        → found ≡ some (to_le_bytes 8 generation)
    pub installed_held :
        (found : Option Bytes) → storage.get t key_installed ≡ ok found → found ≡ some (1 ∷ [])

  pub Written-Holds :
      (bytes : Bytes) (version generation : ℕ) (s t : Space)
      → Written bytes version generation s t
      → Holds bytes version generation t
  Written-Holds bytes version generation s t w =
      let c2 = storage.get-insert_ne _ _ _ _ _ key_version_ne_cert_chain w.version_written in
      let c3 = storage.get-insert_ne _ _ _ _ _ key_generation_ne_cert_chain w.generation_written in
      let c4 = storage.get-insert_ne _ _ _ _ _ key_installed_ne_cert_chain w.installed_written in
      let v3 = storage.get-insert_ne _ _ _ _ _ key_generation_ne_version w.generation_written in
      let v4 = storage.get-insert_ne _ _ _ _ _ key_installed_ne_version w.installed_written in
      let g4 = storage.get-insert_ne _ _ _ _ _ key_installed_ne_generation w.installed_written in
      record {
        chain_held = λ found e. storage.get-insert_self _ _ _ _ found w.chain_written cc;
        version_held = λ found e. storage.get-insert_self _ _ _ _ found w.version_written cc;
        generation_held = λ found e. storage.get-insert_self _ _ _ _ found w.generation_written cc;
        installed_held = λ found e. storage.get-insert_self _ _ _ _ found w.installed_written e;
      }
