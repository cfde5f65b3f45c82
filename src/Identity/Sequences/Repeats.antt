-- ===== src/Identity/Sequences/Repeats.antt =====
-- An attempt and its repetitions, in src/identity/sequences.rs.
use fleetos_agent.Prelude.{ℕ, ◌<◌, ◌≤◌, ◌≡◌, ap, inl, inr, true, false, Option, some, arith, Bytes}
use fleetos_agent.Prelude.Words.{to_le_bytes}
use fleetos_agent.Errors.{ok, Result-cases, is_ok_true}
use fleetos_agent.Storage.{Keyspace}
use fleetos_agent.Identity.Sequences.{
  sequence_key, stored_sequence, or_zero, check_and_record, last_seen,
}
use fleetos_agent.Identity.Sequences.Replay.{
  Attempt, InRange, try_attempt, check_cases, stored_sequence-to_le_bytes,
}

abbrev pub attempt_key : Attempt → Bytes
attempt_key a = sequence_key a.target a.svid_version

module _ (storage : Keyspace) where
  open storage use {Space, get, insert, get-insert_self}

  stored_after :
      (s t : Space) (a : Attempt) (raw : Option Bytes)
      → InRange a
      → insert s (attempt_key a) (to_le_bytes 8 a.sequence) ≡ ok t
      → get t (attempt_key a) ≡ ok raw
      → stored_sequence raw ≡ some a.sequence
  stored_after s t a raw fits stored p =
      rw (get-insert_self s t (attempt_key a) (to_le_bytes 8 a.sequence) raw stored p)
        (stored_sequence-to_le_bytes a.sequence fits.sequence_fits)

  seen_after :
      (s t : Space) (a : Attempt) (seen : Option ℕ)
      → InRange a
      → insert s (attempt_key a) (to_le_bytes 8 a.sequence) ≡ ok t
      → last_seen storage t a.target a.svid_version ≡ ok seen
      → seen ≡ some a.sequence
  unfolding last_seen
  seen_after s t a seen fits stored q = elim (Result-cases (get t (attempt_key a))) [
    | inl (raw, r) ↦ ground (arith, stored_after s t a raw fits stored r)
    | inr (e, r) ↦ ground arith
  ]

  -- Where the storage answers, a `u64` sequence above the record is accepted, and it is what `last_seen`
  -- then returns.
  pub check_and_record_accepts :
      (s t : Space) (a : Attempt) (found : Option Bytes) (seen : Option ℕ)
      → InRange a
      → get s (attempt_key a) ≡ ok found
      → or_zero (stored_sequence found) < a.sequence
      → insert s (attempt_key a) (to_le_bytes 8 a.sequence) ≡ ok t
      → last_seen storage t a.target a.svid_version ≡ ok seen
      → (try_attempt storage s a ≡ (ok true, t)) × (seen ≡ some a.sequence)
  unfolding check_and_record
  check_and_record_accepts s t a found seen fits p newer stored q =
      (ground arith, seen_after s t a seen fits stored q)

  -- Once an attempt has been recorded, an attempt for the same pair that is not newer is refused,
  -- and changes nothing.
  pub repeat_refused :
      (s t : Space) (a : Attempt) (sequence : ℕ)
      → InRange a
      → insert s (attempt_key a) (to_le_bytes 8 a.sequence) ≡ ok t
      → sequence ≤ a.sequence
      → (is_ok_true (check_and_record storage a.target a.svid_version sequence t).0 ≡ false)
        × ((check_and_record storage a.target a.svid_version sequence t).1 ≡ t)
  repeat_refused s t a sequence fits stored h =
      elim (check_cases storage t (record a { sequence = sequence })) [
        | inl refused ↦ refused
        | inr (found, p, newer, _, _) ↦
            absurd (omega (arith, ap or_zero (stored_after s t a found fits stored p)))
      ]
