-- ===== src/Identity/Svid/Install.antt =====
-- `store`, `load` and `clear` of src/identity/svid.rs against each other.
use fleetos_agent.Prelude.{
  ℕ, ◌+◌, ◌%◌, ◌^◌, ◌<◌, false, none, List, [], ◌∷◌, ◌≡◌, sym, ap, ◌∙◌, arith, Bytes, inl, inr,
}
use fleetos_agent.Prelude.Words.{length-to_le_bytes, from_le_bytes-to_le_bytes}
use fleetos_agent.Errors.{AgentError, ok, err, is_err, Result-cases}
use fleetos_agent.Storage.{Keyspace}
use fleetos_agent.Identity.Svid.{
  Postcard, SvidState, key_cert_chain, key_version, key_generation, key_installed, default_state,
  store, clear,
}
use fleetos_agent.Identity.Svid.Load.{load, load_installed}
use fleetos_agent.Identity.Svid.Writes.{Holds, persist-Written, persist-err, Written-Holds}

module _ (storage : Keyspace) (postcard : Postcard (List Bytes)) where
  open storage use {Space}

  -- Every read succeeds.
  unfoldable pub Readable : Space → Type 0
  Readable t = (key : Bytes) → is_err (storage.get t key) ≡ false

  Holds-load :
      (chain : List Bytes) (bytes : Bytes) (version generation : ℕ) (t : Space)
      → version < 2 ^ 64
      → generation < 2 ^ 64
      → postcard.to_allocvec chain ≡ ok bytes
      → Holds storage postcard bytes version generation t
      → Readable t
      → load storage postcard t
        ≡ ok (record { cert_chain_der = chain; svid_version = version; generation = generation })
  unfolding load load_installed Readable
  Holds-load chain bytes version generation t hv hg encoded h r =
      elim (Result-cases (storage.get t key_installed)) [
        | inr (e1, q1) ↦ ground (arith, r key_installed)
        | inl (i, q1) ↦ elim (Result-cases (storage.get t key_cert_chain)) [
          | inr (e2, q2) ↦ ground (arith, r key_cert_chain)
          | inl (c, q2) ↦ elim (Result-cases (storage.get t key_version)) [
            | inr (e3, q3) ↦ ground (arith, r key_version)
            | inl (v, q3) ↦ elim (Result-cases (storage.get t key_generation)) [
              | inr (e4, q4) ↦ ground (arith, r key_generation)
              | inl (g, q4) ↦
                  let hi = h.installed_held i q1 in
                  let hc = h.chain_held c q2 in
                  let hv' = h.version_held v q3 in
                  let hg' = h.generation_held g q4 in
                  let d = postcard.from_bytes-to_allocvec chain bytes encoded in
                  ground (
                    arith,
                    length-to_le_bytes 8 version,
                    length-to_le_bytes 8 generation,
                    from_le_bytes-to_le_bytes 8 version hv,
                    from_le_bytes-to_le_bytes 8 generation hg,
                  )
            ]
          ]
        ]
      ]

  -- What `store` persists is what `load` returns: after a successful `store` of a 64-bit version, where storage can be
  -- read, `load` gives exactly the state that `store` returned, which is the given chain and version
  -- with the generation after the given one.
  pub store_then_load :
      (chain : List Bytes) (version generation : ℕ) (s t : Space) (st : SvidState)
      → version < 2 ^ 64
      → store storage postcard chain version generation s ≡ (ok st, t)
      → Readable t
      → (load storage postcard t ≡ ok st)
        × (st.cert_chain_der ≡ chain)
        × (st.svid_version ≡ version)
        × (st.generation ≡ (generation + 1) % 2 ^ 64)
  unfolding store
  store_then_load chain version generation s t st hv e r =
      elim (Result-cases (postcard.to_allocvec chain)) [
        | inr (e', q) ↦ ground arith
        | inl (bytes, q) ↦
            let (w, result) =
              persist-Written storage postcard bytes chain version ((generation + 1) % 2 ^ 64) s t
                st (ground arith) in
            let h =
              Written-Holds storage postcard bytes version ((generation + 1) % 2 ^ 64) s t w in
            let l =
              Holds-load chain bytes version ((generation + 1) % 2 ^ 64) t hv (omega arith) q h r in
            (
              l ∙ ap ok result,
              sym (ap (λ st. st.cert_chain_der) result),
              sym (ap (λ st. st.svid_version) result),
              sym (ap (λ st. st.generation) result),
            )
      ]

  -- Storage says that no SVID is installed.
  unfoldable pub IsEmpty : Space → Type 0
  IsEmpty s = storage.get s key_installed ≡ ok none

  -- A first installation that fails part of the way leaves no SVID behind: where none was installed,
  -- after a failed `store`, whatever was written before the failure, `load` still reports none.
  pub failed_install_is_none :
      (chain : List Bytes) (version generation : ℕ) (s t : Space) (e : AgentError)
      → IsEmpty s
      → store storage postcard chain version generation s ≡ (err e, t)
      → load storage postcard t ≡ ok default_state
  unfolding store load IsEmpty
  failed_install_is_none chain version generation s t e empty h =
      elim (Result-cases (postcard.to_allocvec chain)) [
        | inr (e', q) ↦ ground arith
        | inl (bytes, q) ↦
            let kept =
              persist-err storage postcard bytes chain version ((generation + 1) % 2 ^ 64) s t e
                (ground arith) in
            ground arith
      ]

  -- After a successful `clear`, where storage can be read, `load` reports no SVID, whatever was
  -- installed.
  pub clear_then_load :
      (s t : Space)
      → clear storage postcard s ≡ (ok tt, t)
      → Readable t
      → load storage postcard t ≡ ok default_state
  unfolding clear load Readable
  clear_then_load s t h r = elim (Result-cases (storage.insert s key_installed (0 ∷ []))) [
    | inr (e, q) ↦ ground arith
    | inl (u, q) ↦ elim (Result-cases (storage.get t key_installed)) [
      | inr (e, g) ↦ ground (arith, r key_installed)
      | inl (found, g) ↦
          let there = storage.get-insert_self s t key_installed (0 ∷ []) found (ground arith) g in
          ground arith
    ]
  ]
