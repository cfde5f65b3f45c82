-- ===== src/Identity/Keystore.antt =====
-- src/identity/keystore.rs: the sealed store of the agent's keys in the `delegation` keyspace. The TPM, the
-- cipher, the sealing of fleetos-core and postcard are parameters, and what is drawn at random is an
-- argument. A load may write, since it creates the software master key where there is none.
pub mod Envelope
pub mod Master
pub mod Recovers
pub mod Saved
pub mod RoundTrip
use fleetos_agent.Prelude.{
  ℕ, ◌+◌, ◌%◌, ◌^◌, Bool, Option, none, some, List, [], ◌∷◌, ◌++◌, ◌≡◌, Bytes, length, take, drop,
  ltb, ◌==◌, if◌then◌else◌,
}
use fleetos_agent.Prelude.Words.{to_le_bytes, from_le_bytes}
use fleetos_agent.Errors.{AgentError, secret, Result, ok, err}
use fleetos_agent.Exec.{Exec, pure, raise, lift, reads, writes, ◌>>=◌, ◌>>◌}
use fleetos_agent.Storage.{Keyspace}
use fleetos_agent.Identity.Svid.{Postcard}
use fleetos_agent.Secret.Deliver.{CoreSealedSecret}

-- A TPM that unseals what it has sealed yields the same bytes, or fails. Decryption with the key, the
-- nonce and the label of an encryption undoes it. Opening with the private half of a
-- pair undoes sealing with the public half; the halves have 32 bytes.
pub record Crypto : Type 1 where
  pub TpmEndpoint : Type 0
  pub SealedBlob : Type 0
  pub seal_to_pcr : TpmEndpoint → Bytes → List ℕ → Option SealedBlob
  pub unseal_pcr : TpmEndpoint → SealedBlob → Option Bytes
  pub unseal_pcr-seal_to_pcr :
      (endpoint : TpmEndpoint) (plaintext found : Bytes) (pcrs : List ℕ) (blob : SealedBlob)
      → seal_to_pcr endpoint plaintext pcrs ≡ some blob
      → unseal_pcr endpoint blob ≡ some found
      → found ≡ plaintext
  pub encrypt : Bytes → Bytes → Bytes → Bytes → Option Bytes
  pub decrypt : Bytes → Bytes → Bytes → Bytes → Option Bytes
  pub decrypt-encrypt :
      (key nonce msg aad ciphertext : Bytes)
      → encrypt key nonce msg aad ≡ some ciphertext
      → decrypt key nonce ciphertext aad ≡ some msg
  pub IsPair : Bytes → Bytes → Type 0
  pub IsPair-length :
      (priv public : Bytes) → IsPair priv public → (length priv ≡ 32) × (length public ≡ 32)
  pub seal : Bytes → Bytes → ℕ → ℕ → Option CoreSealedSecret
  pub unseal : Bytes → CoreSealedSecret → Option Bytes
  pub unseal-seal :
      (priv public plaintext : Bytes) (version sequence : ℕ) (sealed : CoreSealedSecret)
      → IsPair priv public
      → seal public plaintext version sequence ≡ some sealed
      → unseal priv sealed ≡ some plaintext

-- What one call draws at random: a data key, a nonce, and a key pair.
pub record Random : Type 0 where
  pub dek : Bytes
  pub nonce : Bytes
  pub keypair : Bytes × Bytes

abbrev pub default_seal_pcrs : List ℕ
default_seal_pcrs = 0 ∷ 7 ∷ 9 ∷ []

-- The ASCII codes of "sealing_key_blob", "svid_private_key" and "software_master_key".
abbrev pub key_sealing_key_blob : Bytes
key_sealing_key_blob =
    115 ∷ 101 ∷ 97 ∷ 108 ∷ 105 ∷ 110 ∷ 103 ∷ 95 ∷ 107 ∷ 101 ∷ 121 ∷ 95 ∷ 98 ∷ 108 ∷ 111 ∷ 98 ∷ []

abbrev pub key_svid_private_key : Bytes
key_svid_private_key =
    115 ∷ 118 ∷ 105 ∷ 100 ∷ 95 ∷ 112 ∷ 114 ∷ 105 ∷ 118 ∷ 97 ∷ 116 ∷ 101 ∷ 95 ∷ 107 ∷ 101 ∷ 121 ∷ []

abbrev pub software_master_key_label : Bytes
software_master_key_label =
    115 ∷ 111 ∷ 102 ∷ 116 ∷ 119 ∷ 97 ∷ 114 ∷ 101 ∷ 95 ∷ 109 ∷ 97 ∷ 115 ∷ 116 ∷ 101 ∷ 114 ∷ 95 ∷ 107
    ∷ 101 ∷ 121 ∷ []

abbrev pub seal_prefix_tpm : ℕ
seal_prefix_tpm = 1

abbrev pub seal_prefix_software : ℕ
seal_prefix_software = 2

abbrev pub seal_prefix_tpm_envelope : ℕ
seal_prefix_tpm_envelope = 3

abbrev pub tpm_seal_max_bytes : ℕ
tpm_seal_max_bytes = 64

abbrev pub required : {A : Type 0} → AgentError → Option A → Result A
required e none = err e
required e (some a) = ok a

-- The length, the sealed data key, the nonce and the ciphertext of an envelope.
unfoldable pub envelope_bytes : Bytes → Bytes → Bytes → Bytes
envelope_bytes sealed_blob_bytes nonce ciphertext =
    to_le_bytes 4 (length sealed_blob_bytes % 2 ^ 32)
    ++ (sealed_blob_bytes ++ (nonce ++ ciphertext))

pub record EnvelopeParts : Type 0 where
  pub sealed_blob_bytes : Bytes
  pub nonce : Bytes
  pub ciphertext : Bytes

abbrev pub split_envelope : Bytes → ℕ → Result EnvelopeParts
split_envelope raw blob_len =
    if ltb (length raw) (4 + blob_len + 12)
    then err (secret "envelope blob truncated")
    else ok (record {
      sealed_blob_bytes = take blob_len (drop 4 raw);
      nonce = take 12 (drop (4 + blob_len) raw);
      ciphertext = drop (4 + blob_len + 12) raw;
    })

unfoldable pub parse_envelope : Bytes → Result EnvelopeParts
parse_envelope raw =
    if ltb (length raw) 4
    then err (secret "envelope blob too short")
    else split_envelope raw (from_le_bytes (take 4 raw))

-- The cipher refuses a key that has not 32 bytes.
abbrev pub cipher_key : Bytes → Result Bytes
cipher_key dek = if length dek == 32 then ok dek else err (secret "envelope cipher init failed")

-- The pair that the stored bytes hold, where they are 64.
abbrev pub stored_pair : Option Bytes → Option (Bytes × Bytes)
stored_pair none = none
stored_pair (some key_bytes) =
    if length key_bytes == 64 then some (take 32 key_bytes, drop 32 key_bytes) else none

module _ (storage : Keyspace) (crypto : Crypto) (blobs : Postcard crypto.SealedBlob)
    (tuples : Postcard (ℕ × ℕ × Bytes × Bytes)) where
  open storage use {Space}
  open crypto use {TpmEndpoint}

  abbrev pub save : Bytes → ℕ → Bytes → Exec Space (Unit {0})
  save key_label prefix bytes = writes λ s. storage.insert s key_label (prefix ∷ bytes)

  abbrev pub seal_dek : TpmEndpoint → Random → Result crypto.SealedBlob
  seal_dek endpoint random =
      required (secret "envelope DEK sealing failed")
        (crypto.seal_to_pcr endpoint random.dek default_seal_pcrs)

  abbrev pub encrypted : Random → Bytes → Bytes → Result Bytes
  encrypted random key_label plaintext =
      required (secret "envelope encryption failed")
        (crypto.encrypt random.dek random.nonce plaintext key_label)

  unfoldable pub envelope_seal : Random → TpmEndpoint → Bytes → Bytes → Exec Space (Unit {0})
  envelope_seal random endpoint key_label plaintext = do
    sealed_dek ← lift (seal_dek endpoint random)
    dek ← lift (cipher_key random.dek)
    ciphertext ← lift (encrypted random key_label plaintext)
    sealed_blob_bytes ← lift (blobs.to_allocvec sealed_dek)
    save key_label seal_prefix_tpm_envelope
        (envelope_bytes sealed_blob_bytes random.nonce ciphertext)

  unfoldable pub envelope_unseal : TpmEndpoint → Bytes → Bytes → Exec Space Bytes
  envelope_unseal endpoint key_label raw = do
    parts ← lift (parse_envelope raw)
    sealed_dek ← lift (blobs.from_bytes parts.sealed_blob_bytes)
    dek ←
        lift
          (required (secret "envelope DEK unseal failed") (crypto.unseal_pcr endpoint sealed_dek))
    key ← lift (cipher_key dek)
    lift (
        required (secret "envelope decryption failed")
          (crypto.decrypt key parts.nonce parts.ciphertext key_label))

  abbrev pub use_pair : Random → Option (Bytes × Bytes) → Exec Space (Bytes × Bytes)
  use_pair random (some pair) = pure pair
  use_pair random none =
      writes
        (λ s. storage.insert s software_master_key_label (random.keypair.0 ++ random.keypair.1))
      >> pure random.keypair

  unfoldable pub get_or_create_software_master_key : Random → Exec Space (Bytes × Bytes)
  get_or_create_software_master_key random = do
    found ← reads λ s. storage.get s software_master_key_label
    use_pair random (stored_pair found)

  abbrev pub wire : CoreSealedSecret → ℕ × ℕ × Bytes × Bytes
  wire sealed =
      (sealed.sealed_for_svid_version, sealed.sequence, sealed.ephemeral_pubkey, sealed.ciphertext)

  abbrev pub unwire : ℕ × ℕ × Bytes × Bytes → CoreSealedSecret
  unwire t = record {
    sealed_for_svid_version = t.0;
    sequence = t.1;
    ephemeral_pubkey = t.2;
    ciphertext = t.3;
  }

  unfoldable pub software_seal : Random → Bytes → Bytes → Exec Space (Unit {0})
  software_seal random key_label plaintext = do
    pair ← get_or_create_software_master_key random
    sealed ← lift (required (secret "software seal failed") (crypto.seal pair.1 plaintext 0 1))
    sealed_bytes ← lift (tuples.to_allocvec (wire sealed))
    save key_label seal_prefix_software sealed_bytes

  unfoldable pub software_unseal_from_bytes : Random → Bytes → Exec Space (Option Bytes)
  software_unseal_from_bytes random sealed_bytes = do
    pair ← get_or_create_software_master_key random
    parts ← lift (tuples.from_bytes sealed_bytes)
    plaintext ←
        lift (required (secret "software unseal failed") (crypto.unseal pair.0 (unwire parts)))
    pure (some plaintext)

  -- A failed envelope falls back to software sealing, in the state that it left.
  abbrev pub or_software :
      Random → Bytes → Bytes → Result (Unit {0}) × Space → Result (Unit {0}) × Space
  or_software random key_label plaintext (ok u, s) = (ok u, s)
  or_software random key_label plaintext (err e, s) = software_seal random key_label plaintext s

  abbrev pub direct_seal : Random → Bytes → Bytes → Option crypto.SealedBlob → Exec Space (Unit {0})
  direct_seal random key_label plaintext none = software_seal random key_label plaintext
  direct_seal random key_label plaintext (some sealed) =
      lift (blobs.to_allocvec sealed) >>= λ blob_bytes. save key_label seal_prefix_tpm blob_bytes

  unfoldable pub store_sealed : Random → Option TpmEndpoint → Bytes → Bytes → Exec Space (Unit {0})
  store_sealed random none key_label plaintext s = software_seal random key_label plaintext s
  store_sealed random (some endpoint) key_label plaintext s =
      if ltb tpm_seal_max_bytes (length plaintext)
      then or_software random key_label plaintext
          (envelope_seal random endpoint key_label plaintext s)
      else direct_seal random key_label plaintext
          (crypto.seal_to_pcr endpoint plaintext default_seal_pcrs) s

  abbrev pub direct_unseal : TpmEndpoint → Bytes → Exec Space (Option Bytes)
  direct_unseal endpoint blob_bytes = do
    sealed ← lift (blobs.from_bytes blob_bytes)
    plaintext ← lift (required (secret "TPM unseal failed") (crypto.unseal_pcr endpoint sealed))
    pure (some plaintext)

  abbrev pub load_tpm : Option TpmEndpoint → Bytes → Exec Space (Option Bytes)
  load_tpm none blob_bytes = raise (secret "cannot unseal TPM blob without a TPM endpoint")
  load_tpm (some endpoint) blob_bytes = direct_unseal endpoint blob_bytes

  abbrev pub load_envelope : Option TpmEndpoint → Bytes → Bytes → Exec Space (Option Bytes)
  load_envelope none key_label raw =
      raise (secret "cannot unseal TPM envelope blob without a TPM endpoint")
  load_envelope (some endpoint) key_label raw =
      envelope_unseal endpoint key_label raw >>= λ plaintext. pure (some plaintext)

  unfoldable pub load_prefixed :
      Random → Option TpmEndpoint → Bytes → Option Bytes → Exec Space (Option Bytes)
  load_prefixed random endpoint key_label none = pure none
  load_prefixed random endpoint key_label (some []) = pure none
  load_prefixed random endpoint key_label (some (prefix ∷ raw)) =
      if prefix == seal_prefix_tpm
      then load_tpm endpoint raw
      else if prefix == seal_prefix_tpm_envelope
      then load_envelope endpoint key_label raw
      else if prefix == seal_prefix_software
      then software_unseal_from_bytes random raw
      else raise (secret "unknown seal prefix")

  unfoldable pub load_sealed : Random → Option TpmEndpoint → Bytes → Exec Space (Option Bytes)
  load_sealed random endpoint key_label = do
    raw ← reads λ s. storage.get s key_label
    load_prefixed random endpoint key_label raw

  abbrev pub load_svid_private_key : Random → Option TpmEndpoint → Exec Space (Option Bytes)
  load_svid_private_key random endpoint = load_sealed random endpoint key_svid_private_key

  abbrev pub load_sealing_secret : Random → Option TpmEndpoint → Exec Space (Option Bytes)
  load_sealing_secret random endpoint = load_sealed random endpoint key_sealing_key_blob

  -- `generated` is the key pair that is drawn for the sealing key itself.
  unfoldable pub generate_and_store_sealing_key :
      Random → Bytes × Bytes → Option TpmEndpoint → Exec Space Bytes
  generate_and_store_sealing_key random generated endpoint =
      store_sealed random endpoint key_sealing_key_blob generated.0 >> pure generated.1
