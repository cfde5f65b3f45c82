-- ===== src/Wiring/Secrets.antt =====
-- src/wiring.rs: the handler of secrets. What the fetch returns is an argument; files belong to the
-- standard library, and a file under `/run/fleetos/secrets` is named by the bytes that follow.
use fleetos_agent.Prelude.{
  ℕ, Bool, ◌||◌, Option, none, some, List, [], ◌∷◌, Bytes, length, ◌==◌, if◌then◌else◌,
}
use fleetos_agent.Errors.{secret, Result, ok, err}
use fleetos_agent.Exec.{Exec, lift, writes, ◌>>=◌, ◌>>◌}
use fleetos_agent.Storage.{Keyspace}
use fleetos_agent.Collections.Key.{bytes_key}
use fleetos_agent.Collections.HashMap
use fleetos_agent.Identity.Svid.{Postcard}
use fleetos_agent.Identity.Keystore.{Crypto, Random, load_sealing_secret}
use fleetos_agent.Secret.Deliver.{ProtoSealedSecret, deliver_secret}

pub record Files : Type 1 where
  pub Disk : Type 0
  pub create_secrets_dir : Disk → Result Disk
  pub write : Bytes → Bytes → Disk → Result Disk

-- `/` and `:` become `_`.
abbrev pub safe_byte : ℕ → ℕ
safe_byte b = if b == 47 || b == 58 then 95 else b

unfoldable pub safe_name : Bytes → Bytes
safe_name [] = []
safe_name (b ∷ bytes) = safe_byte b ∷ safe_name bytes

module _ (files : Files) (delegation sequences : Keyspace) (crypto : Crypto)
    (blobs : Postcard crypto.SealedBlob) (tuples : Postcard (ℕ × ℕ × Bytes × Bytes))
    (is_spiffe_id : Bytes → Bool) where
  pub record SecretsHandler : Type 0 where
    pub delegation_space : delegation.Space
    pub sequence_space : sequences.Space
    pub disk : files.Disk
    pub secrets : List (Bytes × Bytes)

  abbrev pub sealing_key : Option Bytes → Result Bytes
  sealing_key none = err (secret "node sealing private key missing")
  sealing_key (some key) =
      if length key == 32 then ok key else err (secret "node sealing key must be 32 bytes (X25519)")

  abbrev pub in_delegation : {A : Type 0} → Exec delegation.Space A → Exec SecretsHandler A
  in_delegation m h = let (r, s) = m h.delegation_space in (r, record h { delegation_space = s })

  abbrev pub in_sequences : {A : Type 0} → Exec sequences.Space A → Exec SecretsHandler A
  in_sequences m h = let (r, s) = m h.sequence_space in (r, record h { sequence_space = s })

  abbrev pub on_disk : {A : Type 0} → Exec files.Disk A → Exec SecretsHandler A
  on_disk m h = let (r, s) = m h.disk in (r, record h { disk = s })

  unfoldable pub unseal :
      Random → Option crypto.TpmEndpoint → ProtoSealedSecret → Exec SecretsHandler Bytes
  unseal random endpoint sealed = do
    found ← in_delegation (load_sealing_secret delegation crypto blobs tuples random endpoint)
    key_bytes ← lift (sealing_key found)
    in_sequences (deliver_secret sequences crypto.unseal sealed key_bytes)

  -- A text that is no SPIFFE ID is refused before the disk is touched.
  abbrev pub well_formed : Bytes → Result (Unit {0})
  well_formed spiffe_id =
      if is_spiffe_id spiffe_id then ok tt else err (secret "invalid SPIFFE ID for delivery")

  unfoldable pub deliver : Bytes → Bytes → Exec SecretsHandler (Unit {0})
  deliver spiffe_id plaintext = do
    lift (well_formed spiffe_id)
    on_disk (writes files.create_secrets_dir)
    on_disk (writes (files.write (safe_name spiffe_id) plaintext))

  abbrev pub remember : Bytes → Bytes → Exec SecretsHandler (Unit {0})
  remember spiffe_id plaintext h =
      (ok tt, record h { secrets = HashMap.insert spiffe_id plaintext h.secrets })

  -- `fetched` is what `fetch_secret` of the unary calls returns.
  unfoldable pub handle_rotation :
      Random
      → Option crypto.TpmEndpoint
      → Result ProtoSealedSecret
      → Bytes
      → Exec SecretsHandler (Unit {0})
  handle_rotation random endpoint fetched spiffe_id = do
    sealed ← lift fetched
    plaintext ← unseal random endpoint sealed
    deliver spiffe_id plaintext
    remember spiffe_id plaintext
