-- ===== src/Identity/Svid.antt =====
-- src/identity/svid.rs: the node's certificate chain in the `svid` keyspace. The encoding of the chain
-- by postcard is a parameter: it may fail, and a chain that it encodes is decoded again.
pub mod Load
pub mod Writes
pub mod Install
use fleetos_agent.Prelude.{
  ℕ, ◌+◌, ◌%◌, ◌^◌, Bool, true, false, Option, none, some, List, [], ◌∷◌, ◌≡◌, Bytes, length, ◌==◌,
  if◌then◌else◌,
}
use fleetos_agent.Prelude.Words.{to_le_bytes, from_le_bytes}
use fleetos_agent.Errors.{AgentError, Result, ok, err}
use fleetos_agent.Exec.{Exec, pure, lift, writes, ◌>>=◌, ◌>>◌}
use fleetos_agent.Storage.{Keyspace}

pub record Postcard (A : Type 0) : Type 0 where
  pub to_allocvec : A → Result Bytes
  pub from_bytes : Bytes → Result A
  pub from_bytes-to_allocvec :
      (a : A) (bytes : Bytes) → to_allocvec a ≡ ok bytes → from_bytes bytes ≡ ok a

-- The ASCII codes of "cert_chain", "svid_version", "generation" and "installed".
abbrev pub key_cert_chain : Bytes
key_cert_chain = 99 ∷ 101 ∷ 114 ∷ 116 ∷ 95 ∷ 99 ∷ 104 ∷ 97 ∷ 105 ∷ 110 ∷ []

abbrev pub key_version : Bytes
key_version = 115 ∷ 118 ∷ 105 ∷ 100 ∷ 95 ∷ 118 ∷ 101 ∷ 114 ∷ 115 ∷ 105 ∷ 111 ∷ 110 ∷ []

abbrev pub key_generation : Bytes
key_generation = 103 ∷ 101 ∷ 110 ∷ 101 ∷ 114 ∷ 97 ∷ 116 ∷ 105 ∷ 111 ∷ 110 ∷ []

abbrev pub key_installed : Bytes
key_installed = 105 ∷ 110 ∷ 115 ∷ 116 ∷ 97 ∷ 108 ∷ 108 ∷ 101 ∷ 100 ∷ []

pub record SvidState : Type 0 where
  pub cert_chain_der : List Bytes
  pub svid_version : ℕ
  pub generation : ℕ

abbrev pub is_none : SvidState → Bool
is_none s = elim s.cert_chain_der [ [] ↦ true | (c ∷ cs) ↦ false ]

abbrev pub default_state : SvidState
default_state = record { cert_chain_der = []; svid_version = 0; generation = 0 }

-- The first byte is the flag.
abbrev pub is_installed : Option Bytes → Bool
is_installed none = false
is_installed (some []) = false
is_installed (some (b ∷ bytes)) = b == 1

abbrev pub ok_or : Option Bytes → AgentError → Result Bytes
ok_or none e = err e
ok_or (some bytes) e = ok bytes

-- `u64::from_le_bytes` of a slice that must have eight bytes.
abbrev pub read_u64 : Bytes → AgentError → Result ℕ
read_u64 bytes e = if length bytes == 8 then ok (from_le_bytes bytes) else err e

module _ (storage : Keyspace) (postcard : Postcard (List Bytes)) where
  open storage use {Space}

  -- The four writes, the flag last.
  unfoldable pub persist : Bytes → List Bytes → ℕ → ℕ → Exec Space SvidState
  persist cert_bytes cert_chain_der svid_version generation = do
    writes λ s. storage.insert s key_cert_chain cert_bytes
    writes λ s. storage.insert s key_version (to_le_bytes 8 svid_version)
    writes λ s. storage.insert s key_generation (to_le_bytes 8 generation)
    writes λ s. storage.insert s key_installed (1 ∷ [])
    pure (record {
      cert_chain_der = cert_chain_der;
      svid_version = svid_version;
      generation = generation;
    })

  unfoldable pub store : List Bytes → ℕ → ℕ → Exec Space SvidState
  store cert_chain_der svid_version current_generation = do
    cert_bytes ← lift (postcard.to_allocvec cert_chain_der)
    persist cert_bytes cert_chain_der svid_version ((current_generation + 1) % 2 ^ 64)

  unfoldable pub clear : Exec Space (Unit {0})
  clear = writes λ s. storage.insert s key_installed (0 ∷ [])
