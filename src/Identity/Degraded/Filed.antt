-- ===== src/Identity/Degraded/Filed.antt =====
-- How the keys of src/identity/degraded.rs are filed.
use fleetos_agent.Prelude.{
  ℕ, Option, none, some, List, [], ◌∷◌, Bytes, ◌≡◌, refl, arith, inl, inr, All, Bool-cases,
}
use fleetos_agent.Errors.{Result, Result-cases}
use fleetos_agent.Core.{Core}
use fleetos_agent.Collections.Key.{Key}
use fleetos_agent.Collections.HashMap.{lookup, insert, Unique, insert-Unique}
use fleetos_agent.Identity.Degraded.{
  DelegatedSigningKey, DelegatedKeyEntry, DelegatedKeyManager, install_key, is_valid, valid_entry,
  prune_expired, DelegatedKeyRequest, DelegatedKeyResponse, parse_key_material, request_and_install,
  installed_or, refresh_all, refresh_tick,
}

module _ (core : Core) where
  open core use {SpiffeId}

  instance abbrev target : Key SpiffeId
  target = core.spiffe_key

  -- Every key stands under the workload that it may renew.
  abbrev pub OwnTarget : SpiffeId × DelegatedKeyEntry core → Type 0
  OwnTarget entry = entry.1.key.target_svid_id ≡ entry.0

  -- Every key stands under its own target, and no target has two.
  pub record Filed (keys : DelegatedKeyManager core) : Type 0 where
    pub own : All OwnTarget keys
    pub unique : Unique keys

  insert-own :
      (key : DelegatedSigningKey core) (delegation_id : Bytes) (keys : DelegatedKeyManager core)
      → All OwnTarget keys
      → All OwnTarget
          (insert key.target_svid_id (record { key = key; delegation_id = delegation_id }) keys)
  unfolding insert
  insert-own key delegation_id [] own = (refl, tt)
  insert-own key delegation_id ((j, w) ∷ keys) own =
      elim (Bool-cases (core.spiffe_key.same j key.target_svid_id)) [
        | inl hit ↦ rw hit (refl, own.1)
        | inr miss ↦ rw miss (own.0, insert-own key delegation_id keys own.1)
      ]

  pub install_key-Filed :
      (key : DelegatedSigningKey core) (delegation_id : Bytes) (keys : DelegatedKeyManager core)
      → Filed keys
      → Filed (install_key core key delegation_id keys)
  unfolding install_key
  install_key-Filed key delegation_id keys filed = record {
    own = insert-own key delegation_id keys filed.own;
    unique = insert-Unique key.target_svid_id _ keys filed.unique;
  }

  prune-missing :
      (id : SpiffeId) (now : ℕ) (keys : DelegatedKeyManager core)
      → lookup id keys ≡ none
      → lookup id (prune_expired core now keys) ≡ none
  unfolding lookup prune_expired
  prune-missing id now [] h = refl
  prune-missing id now ((j, e) ∷ keys) h = ground (arith, prune-missing id now keys)

  pub prune_expired-Filed :
      (now : ℕ) (keys : DelegatedKeyManager core) → Filed keys → Filed (prune_expired core now keys)
  unfolding prune_expired
  prune_expired-Filed now [] filed = filed
  prune_expired-Filed now ((j, e) ∷ keys) filed =
      let rest =
        prune_expired-Filed now keys (record { own = filed.own.1; unique = filed.unique.1 }) in
      elim (Bool-cases (is_valid core now e)) [
        | inl valid ↦ rw valid (record {
          own = (filed.own.0, rest.own);
          unique = (prune-missing j now keys filed.unique.0, rest.unique);
        })
        | inr expired ↦ rw expired rest
      ]

  -- Pruning keeps exactly the keys that are still valid.
  pub lookup-prune_expired :
      (id : SpiffeId) (now : ℕ) (keys : DelegatedKeyManager core)
      → Unique keys
      → lookup id (prune_expired core now keys) ≡ valid_entry core now (lookup id keys)
  unfolding lookup prune_expired
  lookup-prune_expired id now [] unique = refl
  lookup-prune_expired id now ((j, e) ∷ keys) unique = ground (
    arith,
    lookup-prune_expired id now keys unique.1,
    prune-missing id now keys,
    core.spiffe_key.same_iff j id,
    unique.0,
  )

  -- The entry that a lookup finds stands under the target looked up.
  pub lookup-own :
      (id : SpiffeId) (e : DelegatedKeyEntry core) (keys : DelegatedKeyManager core)
      → All OwnTarget keys
      → lookup id keys ≡ some e
      → e.key.target_svid_id ≡ id
  unfolding lookup
  lookup-own id e [] own h = absurd (ground arith)
  lookup-own id e ((j, w) ∷ keys) own h = elim (Bool-cases (core.spiffe_key.same j id)) [
    | inl hit ↦ ground (arith, core.spiffe_key.same_iff j id, own.0)
    | inr miss ↦ lookup-own id e keys own.1 (ground arith)
  ]

  module _ (from_bytes : Bytes → Option (DelegatedSigningKey core))
      (answer : DelegatedKeyRequest core → Result (DelegatedKeyResponse core))
      (node_svid_id : SpiffeId) (ttl_secs : ℕ) where
    installed-Filed :
        (target : SpiffeId) (ordinal : Option ℕ) (keys : DelegatedKeyManager core)
        → Filed keys
        → Filed (
            installed_or core from_bytes answer node_svid_id ttl_secs keys (
              request_and_install core from_bytes answer node_svid_id ttl_secs target ordinal keys))
    unfolding request_and_install
    installed-Filed target ordinal keys filed =
        elim (Result-cases (
          answer (record {
            node_svid = node_svid_id;
            target_spiffe_id = target;
            target_ordinal = ordinal;
            requested_ttl_secs = ttl_secs;
          }))) [
            | inr (e, q) ↦ rw q filed
            | inl (response, q) ↦
                elim (Result-cases (parse_key_material core from_bytes response.key_material)) [
                  | inr (e, p) ↦ rw (q, p) filed
                  | inl (key, p) ↦
                      rw (q, p) (install_key-Filed key response.delegation_id keys filed)
                ]
          ]

    refresh_all-Filed :
        (due : List (SpiffeId × Option ℕ)) (keys : DelegatedKeyManager core)
        → Filed keys
        → Filed (refresh_all core from_bytes answer node_svid_id ttl_secs due keys)
    unfolding refresh_all
    refresh_all-Filed [] keys filed = filed
    refresh_all-Filed ((target, ordinal) ∷ due) keys filed =
        refresh_all-Filed due
          (installed_or core from_bytes answer node_svid_id ttl_secs keys
            (request_and_install core from_bytes answer node_svid_id ttl_secs target ordinal keys))
          (installed-Filed target ordinal keys filed)

    -- Where keys are filed under their targets, one at most for each, a tick of the refresh loop, whatever
    -- the control plane answers, leaves every key filed under the
    -- workload that it may renew, and one key at most for a workload.
    pub refresh_tick-Filed :
        (now : ℕ) (keys : DelegatedKeyManager core)
        → Filed keys
        → Filed (refresh_tick core from_bytes answer node_svid_id ttl_secs now keys)
    unfolding refresh_tick
    refresh_tick-Filed now keys filed =
        refresh_all-Filed _ (prune_expired core now keys) (prune_expired-Filed now keys filed)
