-- ===== src/Examples/Keys.antt =====
-- The keystore with a TPM, and the delegated keys with the configuration of a guest. The stand-in for the
-- TPM and the ciphers keeps what it is given.
use fleetos_agent.Prelude.{
  ℕ, ◌<◌, ◌^◌, String, none, some, List, [], ◌∷◌, Bytes, ◌≡◌, ◌↔◌, ◌⊎◌, refl, sym, inl, inr, arith,
  ltb, Bool-cases, length, if◌then◌else◌,
}
use fleetos_agent.Prelude.Words.{to_le_bytes}
use fleetos_agent.Collections.Key.{bytes_key, string_key}
use fleetos_agent.Collections.HashMap.{lookup, insert}
use fleetos_agent.Errors.{AgentError, serialization, Result, ok, err}
use fleetos_agent.Storage.{memory}
use fleetos_agent.Secret.Deliver.{CoreSealedSecret}
use fleetos_agent.Identity.Svid.{Postcard}
use fleetos_agent.Identity.Keystore.{
  Crypto, Random, store_sealed, load_sealed, envelope_seal, envelope_bytes, key_svid_private_key,
}
use fleetos_agent.Identity.Keystore.Recovers.{Recovers}
use fleetos_agent.Identity.Keystore.Master.{MasterIsPair}
use fleetos_agent.Identity.Keystore.RoundTrip.{load-store_sealed}
use fleetos_agent.Identity.Degraded.{
  DelegatedSigningKey, DelegatedKeyManager, Signer, renew_svid_locally, has_valid_key, get_key,
  refresh_tick, DelegatedKeyRequest, DelegatedKeyResponse, valid_entry,
}
use fleetos_agent.Identity.Degraded.Filed.{Filed, refresh_tick-Filed}
use fleetos_agent.Identity.Degraded.Renewal.{Renewal, renew_exact, refused_refresh_keeps}
use fleetos_agent.Attest.ConfigPush.{
  Keygen, WorkloadConfigBuilder, WorkloadConfig, WorkloadContext, build, svid_for,
}
use fleetos_agent.Attest.ConfigPush.Svid.{Closed, Signed, svid_fails-Closed}
use fleetos_agent.Examples.Sync.{core}

pub opened_same :
    (plaintext found blob : Bytes)
    → some plaintext ≡ some blob
    → some blob ≡ some found
    → found ≡ plaintext
opened_same plaintext found blob e f = ground arith

pub sealed_same :
    (public plaintext : Bytes) (version sequence : ℕ) (sealed : CoreSealedSecret)
    → some (record {
      sealed_for_svid_version = version;
      sequence = sequence;
      ephemeral_pubkey = public;
      ciphertext = plaintext;
    })
      ≡ some sealed
    → some sealed.ciphertext ≡ some plaintext
sealed_same public plaintext version sequence sealed e = ground arith

abbrev pub crypto : Crypto
crypto = record {
  TpmEndpoint = Unit;
  SealedBlob = Bytes;
  seal_to_pcr = λ endpoint plaintext pcrs. some plaintext;
  unseal_pcr = λ endpoint blob. some blob;
  unseal_pcr-seal_to_pcr =
      λ endpoint plaintext found pcrs blob e f. opened_same plaintext found blob e f;
  encrypt = λ key nonce msg aad. some msg;
  decrypt = λ key nonce ciphertext aad. some ciphertext;
  decrypt-encrypt = λ key nonce msg aad ciphertext e. sym e;
  IsPair = λ priv public. (length priv ≡ 32) × (length public ≡ 32);
  IsPair-length = λ priv public h. h;
  seal = λ public plaintext version sequence. some (record {
    sealed_for_svid_version = version;
    sequence = sequence;
    ephemeral_pubkey = public;
    ciphertext = plaintext;
  });
  unseal = λ priv sealed. some sealed.ciphertext;
  unseal-seal = λ priv public plaintext version sequence sealed h e.
      sealed_same public plaintext version sequence sealed e;
}

abbrev pub short_bytes : Bytes → Result Bytes
short_bytes blob = if ltb (length blob) (2 ^ 32) then ok blob else err (serialization "too long")

short_bytes-same : (a bytes : Bytes) → short_bytes a ≡ ok bytes → a ≡ bytes
short_bytes-same a bytes e = elim (Bool-cases (ltb (length a) (2 ^ 32))) [
  | inl small ↦ ground arith
  | inr large ↦ absurd (ground arith)
]

short_bytes-length : (a bytes : Bytes) → short_bytes a ≡ ok bytes → length bytes < 2 ^ 32
short_bytes-length a bytes e = elim (Bool-cases (ltb (length a) (2 ^ 32))) [
  | inl small ↦ ground (arith, short_bytes-same a bytes e)
  | inr large ↦ absurd (ground arith)
]

pub decoded_same : (a bytes : Bytes) → short_bytes a ≡ ok bytes → ok bytes ≡ ok a
decoded_same a bytes e = ground (arith, short_bytes-same a bytes e)

pub none_encoded :
    {A : Type 0} (x y : Result A) (e : AgentError) (bytes : Bytes) → err e ≡ ok bytes → x ≡ y
none_encoded x y e bytes h = absurd (ground arith)

abbrev pub blobs : Postcard Bytes
blobs = record {
  to_allocvec = short_bytes;
  from_bytes = λ bytes. ok bytes;
  from_bytes-to_allocvec = decoded_same;
}

-- No software sealing is asked for here.
abbrev pub tuples : Postcard (ℕ × ℕ × Bytes × Bytes)
tuples = record {
  to_allocvec = λ t. err (serialization "unused");
  from_bytes = λ bytes. err (serialization "unused");
  from_bytes-to_allocvec = λ a bytes e. none_encoded _ _ _ bytes e;
}

abbrev pub random : Random
random = record {
  dek = to_le_bytes 32 9;
  nonce = to_le_bytes 12 8;
  keypair = (to_le_bytes 32 1, to_le_bytes 32 2);
}

-- A private key of 70 bytes is sealed in an envelope.
abbrev plaintext : Bytes
plaintext = to_le_bytes 70 5

abbrev after_store : List (Bytes × Bytes)
after_store =
    (store_sealed memory crypto blobs tuples random (some tt) key_svid_private_key plaintext []).1

empty-MasterIsPair : MasterIsPair memory crypto blobs tuples []
unfolding MasterIsPair lookup
empty-MasterIsPair = λ found pair e f. absurd (ground arith)

load-store_sealed_example :
    Recovers
      (some plaintext)
      (load_sealed memory crypto blobs tuples random (some tt) key_svid_private_key after_store)
unfolding store_sealed envelope_seal envelope_bytes to_le_bytes insert
load-store_sealed_example =
    load-store_sealed memory crypto blobs tuples random random (some tt) key_svid_private_key
      plaintext [] after_store short_bytes-length refl (refl, refl) empty-MasterIsPair
      (λ e. absurd (ground arith)) refl

-- A delegated key of the workload "db", issued at 100 for 400 seconds.
abbrev db_key : DelegatedSigningKey core
db_key = record {
  node_id = "node";
  target_svid_id = "db";
  target_ordinal = none;
  issued_at_unix = 100;
  expires_at_unix = 500;
  signing_key = 1 ∷ [];
  intermediate_cert_der = [];
  target_role = none;
}

abbrev keys : DelegatedKeyManager core
keys = ("db", record { key = db_key; delegation_id = 3 ∷ [] }) ∷ []

keys-Filed : Filed core keys
unfolding lookup
keys-Filed = record { own = (refl, tt); unique = (refl, tt) }

abbrev sign : Signer core
sign key csr_der validity now = some csr_der

renew_exact_example :
    (renew_svid_locally core sign "db" (6 ∷ []) 60 200 keys ≡ ok (6 ∷ []))
    ↔ Renewal core sign "db" (6 ∷ []) 60 200 keys (6 ∷ [])
renew_exact_example = renew_exact core sign "db" (6 ∷ []) (6 ∷ []) 60 200 keys keys-Filed

abbrev refuse : DelegatedKeyRequest core → Result (DelegatedKeyResponse core)
refuse request = err (serialization "unreachable")

abbrev grant : DelegatedKeyRequest core → Result (DelegatedKeyResponse core)
grant request = ok (record { key_material = 1 ∷ []; delegation_id = 4 ∷ [] })

refresh_tick-Filed_example :
    Filed core (refresh_tick core (λ bytes. some db_key) grant "node" 400 450 keys)
refresh_tick-Filed_example =
    refresh_tick-Filed core (λ bytes. some db_key) grant "node" 400 450 keys keys-Filed

refused_refresh_keeps_example :
    lookup "db" (refresh_tick core (λ bytes. some db_key) refuse "node" 400 450 keys)
    ≡ valid_entry core 450 (lookup "db" keys)
refused_refresh_keeps_example =
    refused_refresh_keeps core (λ bytes. some db_key) refuse "node" 400 "db" 450 keys
      keys-Filed.unique (λ r. refl)

abbrev keygen : Keygen String
keygen = record {
  KeyPair = Bytes;
  serialize_der = λ keypair. keypair;
  build_csr = λ id keypair. some keypair;
}

abbrev builder : WorkloadConfigBuilder core keygen
builder = record {
  trust_domain = "td";
  dummy_ip_routes = [];
  delegated_keys = keys;
  svid_ttl_secs = 60;
}

abbrev context : WorkloadContext
context = record {
  pod_spec = record {
    pod_id = none;
    workload_id = "db";
    tenant_id = "t";
    role = "";
    ordinal = none;
    resources = none;
    volumes = [];
    volume_mounts = [];
    env = [];
    probes = none;
  };
  guest_ip = [];
  netmask = [];
  gateway = [];
}

abbrev pushed : WorkloadConfig
pushed = record {
  svid_cert_chain_der = (6 ∷ []) ∷ [];
  svid_private_key_der = 6 ∷ [];
  env_vars = [];
  volume_mounts = [];
  dummy_ip_routes = [];
  workload_binary = some "db";
  workload_args = [];
  trust_domain = "td";
  tenant_id = "t";
  service_name = "db";
  role = "";
  guest_ip = [];
  netmask = [];
  gateway = [];
}

abbrev pushed_svid : List Bytes × Bytes
pushed_svid = (pushed.svid_cert_chain_der, pushed.svid_private_key_der)

svid_fails-Closed_example :
    Closed core keygen sign (some (6 ∷ [])) 200 pushed_svid
    ⊎ Signed core keygen sign (some (6 ∷ [])) 200 builder "db" pushed_svid
unfolding build svid_for renew_svid_locally lookup has_valid_key get_key
svid_fails-Closed_example =
    svid_fails-Closed core keygen sign (some (6 ∷ [])) 200 builder context pushed keys-Filed refl
