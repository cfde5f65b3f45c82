-- ===== src/Identity/Degraded.antt =====
-- src/identity/degraded.rs: the delegated signing keys of a node, one per target workload, with which it
-- renews SVIDs when the control plane cannot be reached. Signing and the encoding of keys belong to
-- fleetos-core and postcard: they are parameters. The clock is an argument; a tick of the refresh loop
-- takes what the control plane answers to each request.
pub mod Filed
pub mod Renewal
use fleetos_agent.Prelude.{
  ℕ, ◌+◌, ◌-◌, ◌*◌, ◌/◌, Bool, true, false, Option, none, some, List, [], ◌∷◌, Bytes, map, ltb, leb,
  if◌then◌else◌,
}
use fleetos_agent.Errors.{AgentError, identity, Result, ok, err, ◌>>=◌}
use fleetos_agent.Core.{Core}
use fleetos_agent.Collections.Key.{Key}
use fleetos_agent.Collections.HashMap.{lookup, insert, remove}

abbrev pub default_delegated_key_ttl_secs : ℕ
default_delegated_key_ttl_secs = 14400

module _ (core : Core) where
  open core use {SpiffeId, WorkloadRole}

  instance abbrev pub target_key : Key SpiffeId
  target_key = core.spiffe_key

  pub record DelegatedSigningKey : Type 0 where
    pub node_id : SpiffeId
    pub target_svid_id : SpiffeId
    pub target_ordinal : Option ℕ
    pub issued_at_unix : ℕ
    pub expires_at_unix : ℕ
    pub signing_key : Bytes
    pub intermediate_cert_der : Bytes
    pub target_role : Option WorkloadRole

  pub record DelegatedKeyEntry : Type 0 where
    pub key : DelegatedSigningKey
    pub delegation_id : Bytes

  abbrev pub DelegatedKeyManager : Type 0
  DelegatedKeyManager = List (SpiffeId × DelegatedKeyEntry)

  unfoldable pub install_key :
      DelegatedSigningKey → Bytes → DelegatedKeyManager → DelegatedKeyManager
  install_key key delegation_id keys =
      insert key.target_svid_id (record { key = key; delegation_id = delegation_id }) keys

  abbrev pub delegation_ids : DelegatedKeyManager → List Bytes
  delegation_ids keys = map (λ entry. entry.1.delegation_id) keys

  abbrev pub is_valid : ℕ → DelegatedKeyEntry → Bool
  is_valid now_unix e = ltb now_unix e.key.expires_at_unix

  abbrev pub valid_entry : ℕ → Option DelegatedKeyEntry → Option DelegatedKeyEntry
  valid_entry now_unix none = none
  valid_entry now_unix (some e) = if is_valid now_unix e then some e else none

  abbrev pub has_valid_entry : ℕ → Option DelegatedKeyEntry → Bool
  has_valid_entry now_unix none = false
  has_valid_entry now_unix (some e) = is_valid now_unix e

  unfoldable pub has_valid_key : SpiffeId → ℕ → DelegatedKeyManager → Bool
  has_valid_key target_svid_id now_unix keys = has_valid_entry now_unix (lookup target_svid_id keys)

  -- The product with 0.75 is taken in 64-bit floating point, which is exact for lifetimes below 2^51 seconds.
  abbrev pub refresh_at : DelegatedSigningKey → ℕ
  refresh_at key =
      let ttl = key.expires_at_unix - key.issued_at_unix in key.issued_at_unix + ttl * 3 / 4

  abbrev pub entry_due : ℕ → Option DelegatedKeyEntry → Bool
  entry_due now_unix none = false
  entry_due now_unix (some e) = leb (refresh_at e.key) now_unix

  unfoldable pub should_refresh : SpiffeId → ℕ → DelegatedKeyManager → Bool
  should_refresh target_svid_id now_unix keys = entry_due now_unix (lookup target_svid_id keys)

  abbrev remaining : ℕ → Option DelegatedKeyEntry → ℕ
  remaining now_unix none = 0
  remaining now_unix (some e) = e.key.expires_at_unix - now_unix

  unfoldable pub remaining_ttl_secs : SpiffeId → ℕ → DelegatedKeyManager → ℕ
  remaining_ttl_secs target_svid_id now_unix keys = remaining now_unix (lookup target_svid_id keys)

  abbrev pub key_of : Option DelegatedKeyEntry → Option DelegatedSigningKey
  key_of none = none
  key_of (some e) = some e.key

  unfoldable pub get_key : SpiffeId → ℕ → DelegatedKeyManager → Option DelegatedSigningKey
  get_key target_svid_id now_unix keys = key_of (valid_entry now_unix (lookup target_svid_id keys))

  abbrev pub targets : DelegatedKeyManager → List SpiffeId
  targets keys = map (λ entry. entry.0) keys

  -- The targets that are due, of a list of targets.
  unfoldable pub due : ℕ → DelegatedKeyManager → List SpiffeId → List SpiffeId
  due now_unix keys [] = []
  due now_unix keys (id ∷ ids) =
      let rest = due now_unix keys ids in
      if should_refresh id now_unix keys then id ∷ rest else rest

  abbrev pub keys_needing_refresh : ℕ → DelegatedKeyManager → List SpiffeId
  keys_needing_refresh now_unix keys = due now_unix keys (targets keys)

  abbrev pub remove_key : SpiffeId → DelegatedKeyManager → DelegatedKeyManager
  remove_key target_svid_id keys = remove target_svid_id keys

  unfoldable pub prune_expired : ℕ → DelegatedKeyManager → DelegatedKeyManager
  prune_expired now_unix [] = []
  prune_expired now_unix ((id, e) ∷ keys) =
      let rest = prune_expired now_unix keys in if is_valid now_unix e then (id, e) ∷ rest else rest

  abbrev pub clear : DelegatedKeyManager → DelegatedKeyManager
  clear keys = []

  -- `sign_svid_delegated` of fleetos-core, with the validity in seconds.
  abbrev pub Signer : Type 0
  Signer = DelegatedSigningKey → Bytes → ℕ → ℕ → Option Bytes

  abbrev sign_with : Signer → Option DelegatedSigningKey → Bytes → ℕ → ℕ → Result Bytes
  sign_with sign none csr_der validity now_unix = err (identity "no valid delegated key for target")
  sign_with sign (some key) csr_der validity now_unix = elim (sign key csr_der validity now_unix) [
    | none ↦ err (identity "local SVID renewal failed")
    | some cert_der ↦ ok cert_der
  ]

  unfoldable pub renew_svid_locally :
      Signer → SpiffeId → Bytes → ℕ → ℕ → DelegatedKeyManager → Result Bytes
  renew_svid_locally sign target_svid_id csr_der validity now_unix keys =
      sign_with sign (get_key target_svid_id now_unix keys) csr_der validity now_unix

  -- The wire format holds the signing key in plain bytes and is otherwise the same; what postcard
  -- decodes is a parameter.
  abbrev pub parse_key_material :
      (Bytes → Option DelegatedSigningKey) → Bytes → Result DelegatedSigningKey
  parse_key_material from_bytes key_material = elim (from_bytes key_material) [
    | none ↦ err (identity "failed to parse key_material")
    | some wire ↦ ok (record {
      node_id = wire.node_id;
      target_svid_id = wire.target_svid_id;
      target_ordinal = wire.target_ordinal;
      issued_at_unix = wire.issued_at_unix;
      expires_at_unix = wire.expires_at_unix;
      signing_key = wire.signing_key;
      intermediate_cert_der = wire.intermediate_cert_der;
      target_role = wire.target_role;
    })
  ]

  pub record DelegatedKeyRequest : Type 0 where
    pub node_svid : SpiffeId
    pub target_spiffe_id : SpiffeId
    pub target_ordinal : Option ℕ
    pub requested_ttl_secs : ℕ

  pub record DelegatedKeyResponse : Type 0 where
    pub key_material : Bytes
    pub delegation_id : Bytes

  module _ (from_bytes : Bytes → Option DelegatedSigningKey)
      (answer : DelegatedKeyRequest → Result DelegatedKeyResponse) (node_svid_id : SpiffeId)
      (ttl_secs : ℕ) where
    -- `answer` is what the unary call of the client returns for a request.
    unfoldable pub request_and_install :
        SpiffeId → Option ℕ → DelegatedKeyManager → Result DelegatedKeyManager
    request_and_install target_svid_id target_ordinal keys =
        answer (record {
          node_svid = node_svid_id;
          target_spiffe_id = target_svid_id;
          target_ordinal = target_ordinal;
          requested_ttl_secs = ttl_secs;
        })
        >>= λ response. parse_key_material from_bytes response.key_material >>= λ key.
            ok (install_key key response.delegation_id keys)

    abbrev pub ordinal_of : Option DelegatedSigningKey → Option ℕ
    ordinal_of none = none
    ordinal_of (some key) = key.target_ordinal

    -- The keys that are due, with their ordinals.
    unfoldable pub needs_refresh :
        ℕ → DelegatedKeyManager → List SpiffeId → List (SpiffeId × Option ℕ)
    needs_refresh now_unix keys [] = []
    needs_refresh now_unix keys (id ∷ ids) =
        let rest = needs_refresh now_unix keys ids in
        if should_refresh id now_unix keys
        then (id, ordinal_of (get_key id now_unix keys)) ∷ rest
        else rest

    -- A request that fails leaves the keys as they are.
    abbrev pub installed_or : DelegatedKeyManager → Result DelegatedKeyManager → DelegatedKeyManager
    installed_or keys (ok after) = after
    installed_or keys (err e) = keys

    unfoldable pub refresh_all :
        List (SpiffeId × Option ℕ) → DelegatedKeyManager → DelegatedKeyManager
    refresh_all [] keys = keys
    refresh_all ((target, ordinal) ∷ rest) keys =
        refresh_all rest (installed_or keys (request_and_install target ordinal keys))

    -- One tick of `run_delegation_refresh_loop`.
    unfoldable pub refresh_tick : ℕ → DelegatedKeyManager → DelegatedKeyManager
    refresh_tick now_unix keys =
        let pruned = prune_expired now_unix keys in
        refresh_all (needs_refresh now_unix pruned (targets pruned)) pruned
