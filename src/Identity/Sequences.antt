-- ===== src/Identity/Sequences.antt =====
-- src/identity/sequences.rs: the replay protection of sealed secrets. Text stands as its bytes.
pub mod Keys
pub mod Replay
pub mod Repeats
use fleetos_agent.Prelude.{
  ℕ, Bool, true, false, Option, none, some, List, [], ◌∷◌, ◌++◌, ◌≡◌, Bytes, length, take, ltb, leb,
  ◌==◌, if◌then◌else◌,
}
use fleetos_agent.Prelude.Words.{to_le_bytes, from_le_bytes}
use fleetos_agent.Errors.{Result, ok, err}
use fleetos_agent.Exec.{Exec, pure, reads, writes, ◌>>=◌, ◌>>◌}
use fleetos_agent.Storage.{Keyspace}

unfoldable pub sequence_key : Bytes → ℕ → Bytes
sequence_key target svid_version = target ++ (0 ∷ to_le_bytes 8 svid_version)

-- A stored value of fewer than eight bytes counts as no record.
unfoldable pub stored_sequence : Option Bytes → Option ℕ
stored_sequence none = none
stored_sequence (some bytes) =
    if leb 8 (length bytes) then some (from_le_bytes (take 8 bytes)) else none

abbrev pub or_zero : Option ℕ → ℕ
or_zero none = 0
or_zero (some n) = n

module _ (storage : Keyspace) where
  open storage use {Space}

  unfoldable pub check_and_record : Bytes → ℕ → ℕ → Exec Space Bool
  check_and_record target svid_version incoming_sequence =
      if incoming_sequence == 0 then pure false else do
        existing ← reads λ s. storage.get s (sequence_key target svid_version)
        if leb incoming_sequence (or_zero (stored_sequence existing)) then pure false else do
          writes λ s.
              storage.insert s (sequence_key target svid_version) (to_le_bytes 8 incoming_sequence)
          pure true

  unfoldable pub last_seen : Space → Bytes → ℕ → Result (Option ℕ)
  last_seen s target svid_version = elim (storage.get s (sequence_key target svid_version)) [
    | ok raw ↦ ok (stored_sequence raw)
    | err e ↦ err e
  ]
