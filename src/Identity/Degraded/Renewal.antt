-- ===== src/Identity/Degraded/Renewal.antt =====
-- Renewals with the keys of src/identity/degraded.rs, and when the keys are refreshed.
use fleetos_agent.Prelude.{
  ℕ, ◌-◌, ◌*◌, ◌≤◌, ◌<◌, true, false, Option, some, List, [], ◌∷◌, Bytes, ◌≡◌, ◌↔◌, refl, ap, ◌∙◌,
  arith, inl, inr, ltb→lt, Bool-cases, Option-cases,
}
use fleetos_agent.Errors.{Result, ok, is_err, Result-cases}
use fleetos_agent.Core.{Core}
use fleetos_agent.Collections.Key.{Key}
use fleetos_agent.Collections.HashMap.{lookup, Unique}
use fleetos_agent.Identity.Degraded.{
  DelegatedSigningKey, DelegatedKeyEntry, DelegatedKeyManager, Signer, is_valid, valid_entry,
  get_key, renew_svid_locally, prune_expired, DelegatedKeyRequest, DelegatedKeyResponse,
  request_and_install, refresh_at, has_valid_key, should_refresh, refresh_all, refresh_tick,
}
use fleetos_agent.Identity.Degraded.Filed.{Filed, lookup-own, lookup-prune_expired}

module _ (core : Core) where
  open core use {SpiffeId}

  instance abbrev target : Key SpiffeId
  target = core.spiffe_key

  -- A certificate that a key of the node signed: the key is filed under the target and scoped to it,
  -- has not expired, and is the one that signed.
  pub record Renewal (sign : Signer core) (id : SpiffeId) (csr_der : Bytes) (validity now : ℕ)
      (keys : DelegatedKeyManager core) (cert : Bytes) : Type 0 where
    pub entry : DelegatedKeyEntry core
    pub found : lookup id keys ≡ some entry
    pub scoped : entry.key.target_svid_id ≡ id
    pub unexpired : now < entry.key.expires_at_unix
    pub signed : sign entry.key csr_der validity now ≡ some cert

  renew-from :
      (sign : Signer core) (id : SpiffeId) (csr_der cert : Bytes) (validity now : ℕ)
      (keys : DelegatedKeyManager core)
      → Filed core keys
      → renew_svid_locally core sign id csr_der validity now keys ≡ ok cert
      → Renewal sign id csr_der validity now keys cert
  unfolding renew_svid_locally get_key
  renew-from sign id csr_der cert validity now keys filed e = elim (Option-cases (lookup id keys)) [
    | inl missing ↦ absurd (ground arith)
    | inr (entry, found) ↦ elim (Bool-cases (is_valid core now entry)) [
      | inr expired ↦ absurd (ground arith)
      | inl valid ↦ elim (Option-cases (sign entry.key csr_der validity now)) [
        | inl refused ↦ absurd (ground arith)
        | inr (made, signed) ↦ record {
          entry = entry;
          found = found;
          scoped = lookup-own core id entry keys filed.own found;
          unexpired = ltb→lt now entry.key.expires_at_unix valid;
          signed = ground arith;
        }
      ]
    ]
  ]

  renew-to :
      (sign : Signer core) (id : SpiffeId) (csr_der cert : Bytes) (validity now : ℕ)
      (keys : DelegatedKeyManager core)
      → Renewal sign id csr_der validity now keys cert
      → renew_svid_locally core sign id csr_der validity now keys ≡ ok cert
  unfolding renew_svid_locally get_key
  renew-to sign id csr_der cert validity now keys r =
      let valid : is_valid core now r.entry ≡ true = ground (arith, r.unexpired) in
      rw (r.found, valid, r.signed) refl

  -- With keys filed under their targets, a renewal yields a certificate exactly where the
  -- node holds an unexpired key for that target and scoped to it, and signing with that key yields
  -- the certificate.
  pub renew_exact :
      (sign : Signer core) (id : SpiffeId) (csr_der cert : Bytes) (validity now : ℕ)
      (keys : DelegatedKeyManager core)
      → Filed core keys
      → (renew_svid_locally core sign id csr_der validity now keys ≡ ok cert)
        ↔ Renewal sign id csr_der validity now keys cert
  renew_exact sign id csr_der cert validity now keys filed = (
    renew-from sign id csr_der cert validity now keys filed,
    renew-to sign id csr_der cert validity now keys,
  )

  -- A key that is held and was not due for a refresh at one tick is still valid at the next, when the next comes
  -- within a quarter of the key's lifetime: no key runs out between two ticks unseen.
  pub due_before_expiry :
      (id : SpiffeId) (tick next : ℕ) (entry : DelegatedKeyEntry core)
      (keys : DelegatedKeyManager core)
      → lookup id keys ≡ some entry
      → should_refresh core id tick keys ≡ false
      → 4 * (next - tick) ≤ entry.key.expires_at_unix - entry.key.issued_at_unix
      → entry.key.issued_at_unix ≤ entry.key.expires_at_unix
      → has_valid_key core id next keys ≡ true
  unfolding should_refresh has_valid_key
  due_before_expiry id tick next entry keys found not_due near ordered =
      let early : tick < refresh_at core entry.key = ground arith in
      let valid : next < entry.key.expires_at_unix = omega (arith, early, near, ordered) in
      rw found (ground (arith, valid))

  module _ (from_bytes : Bytes → Option (DelegatedSigningKey core))
      (answer : DelegatedKeyRequest core → Result (DelegatedKeyResponse core))
      (node_svid_id : SpiffeId) (ttl_secs : ℕ) where
    refresh_all-refused :
        (due : List (SpiffeId × Option ℕ)) (keys : DelegatedKeyManager core)
        → ((r : DelegatedKeyRequest core) → is_err (answer r) ≡ true)
        → refresh_all core from_bytes answer node_svid_id ttl_secs due keys ≡ keys
    unfolding refresh_all request_and_install
    refresh_all-refused [] keys refused = refl
    refresh_all-refused ((id, ordinal) ∷ due) keys refused =
        let request : DelegatedKeyRequest core = record {
          node_svid = node_svid_id;
          target_spiffe_id = id;
          target_ordinal = ordinal;
          requested_ttl_secs = ttl_secs;
        } in
        elim (Result-cases (answer request)) [
          | inl (response, q) ↦ absurd (ground (arith, refused request))
          | inr (e, q) ↦ rw q (refresh_all-refused due keys refused)
        ]

    -- Where no target has two keys and the control plane refuses every request, a tick of the refresh loop drops the keys that
    -- have expired and keeps every other key as it was.
    pub refused_refresh_keeps :
        (id : SpiffeId) (now : ℕ) (keys : DelegatedKeyManager core)
        → Unique keys
        → ((r : DelegatedKeyRequest core) → is_err (answer r) ≡ true)
        → lookup id (refresh_tick core from_bytes answer node_svid_id ttl_secs now keys)
          ≡ valid_entry core now (lookup id keys)
    unfolding refresh_tick
    refused_refresh_keeps id now keys unique refused =
        ap (lookup id) (refresh_all-refused _ (prune_expired core now keys) refused)
        ∙ lookup-prune_expired core id now keys unique
