-- ===== src/Identity/Sequences/Replay.antt =====
-- A history of attempts to deliver secrets, in src/identity/sequences.rs.
use fleetos_agent.Prelude.{
  ℕ, ◌<◌, ◌^◌, ◌≡◌, ◌≢◌, sym, ◌∙◌, ◌⊎◌, inl, inr, ◌&&◌, Bool, true, false, Option, some, List, [],
  ◌∷◌, arith, Bytes, take_all, All, leb, ◌==◌, if◌then◌else◌, Bool-cases,
}
use fleetos_agent.Prelude.Words.{to_le_bytes, length-to_le_bytes, from_le_bytes-to_le_bytes}
use fleetos_agent.Errors.{Result, ok, Result-cases, is_ok_true}
use fleetos_agent.Storage.{Keyspace}
use fleetos_agent.Collections.Key.{same_bytes, same_bytes_iff}
use fleetos_agent.Identity.Sequences.{sequence_key, stored_sequence, or_zero, check_and_record}
use fleetos_agent.Identity.Sequences.Keys.{sequence_key-target, sequence_key-version}

pub record Attempt : Type 0 where
  pub target : Bytes
  pub svid_version : ℕ
  pub sequence : ℕ

-- The two numbers of an attempt are `u64`s.
pub record InRange (a : Attempt) : Type 0 where
  pub version_fits : a.svid_version < 256 ^ 8
  pub sequence_fits : a.sequence < 256 ^ 8

abbrev pub Rising : ℕ → List ℕ → Type 0
Rising n [] = Unit
Rising n (m ∷ ms) = (n < m) × Rising m ms

abbrev pub names_pair : Bytes → ℕ → Attempt → Bool
names_pair target version a = same_bytes a.target target && a.svid_version == version

-- The sequences of the attempts for one pair, in order.
pub sequences_for : Bytes → ℕ → List Attempt → List ℕ
sequences_for target version [] = []
sequences_for target version (a ∷ later) =
    if names_pair target version a
    then a.sequence ∷ sequences_for target version later
    else sequences_for target version later

pub stored_sequence-to_le_bytes :
    (n : ℕ) → n < 256 ^ 8 → stored_sequence (some (to_le_bytes 8 n)) ≡ some n
unfolding stored_sequence
stored_sequence-to_le_bytes n h =
    ground
      (arith, length-to_le_bytes 8 n, from_le_bytes-to_le_bytes 8 n, take_all 8 (to_le_bytes 8 n))

named_key :
    (target : Bytes) (version : ℕ) (a : Attempt)
    → names_pair target version a ≡ true
    → sequence_key a.target a.svid_version ≡ sequence_key target version
named_key target version a h = ground (arith, same_bytes_iff a.target target)

module _ (storage : Keyspace) where
  open storage use {Space, get, insert, get-insert_self, get-insert_ne}

  abbrev pub try_attempt : Space → Attempt → Result Bool × Space
  try_attempt s a = check_and_record storage a.target a.svid_version a.sequence s

  -- The attempts that a history lets through, oldest first.
  pub accepted : Space → List Attempt → List Attempt
  accepted s [] = []
  accepted s (a ∷ later) =
      let rest = accepted (try_attempt s a).1 later in
      if is_ok_true (try_attempt s a).0 then a ∷ rest else rest

  -- Where the record of a pair can be read, it is `n`.
  abbrev pub Holds : Space → Bytes → ℕ → ℕ → Type 0
  Holds s target version n =
      (found : Option Bytes)
      → get s (sequence_key target version) ≡ ok found
      → or_zero (stored_sequence found) ≡ n

  -- An accepted attempt was strictly newer than the record and is now the record; any other leaves
  -- the storage as it was.
  abbrev pub Outcome : Space → Attempt → Result Bool × Space → Type 0
  Outcome s a (r, t) =
      ((is_ok_true r ≡ false) × (t ≡ s))
      ⊎ ((found : Option Bytes) × (get s (sequence_key a.target a.svid_version) ≡ ok found)
          × (or_zero (stored_sequence found) < a.sequence)
          × (insert s (sequence_key a.target a.svid_version) (to_le_bytes 8 a.sequence) ≡ ok t)
          × (is_ok_true r ≡ true))

  pub check_cases : (s : Space) (a : Attempt) → Outcome s a (try_attempt s a)
  unfolding check_and_record
  check_cases s a = elim (Result-cases (get s (sequence_key a.target a.svid_version))) [
    | inr (e, p) ↦ ground arith
    | inl (found, p) ↦
        elim (Result-cases
          (insert s (sequence_key a.target a.svid_version) (to_le_bytes 8 a.sequence))) [
            | inr (e, q) ↦ ground arith
            | inl (t, q) ↦ elim (Bool-cases (leb a.sequence (or_zero (stored_sequence found)))) [
              | inl old ↦ ground arith
              | inr new ↦ inr (found, p, ground arith, ground arith, ground arith)
            ]
          ]
  ]

  -- After an accepted attempt the record of its pair is its sequence.
  accepted-Holds :
      (s t : Space) (a : Attempt) (target : Bytes) (version : ℕ)
      → InRange a
      → names_pair target version a ≡ true
      → insert s (sequence_key a.target a.svid_version) (to_le_bytes 8 a.sequence) ≡ ok t
      → Holds t target version a.sequence
  accepted-Holds s t a target version fits named e found p =
      rw
        (get-insert_self s t (sequence_key target version) (to_le_bytes 8 a.sequence) found
          (rw (← named_key target version a named) e) p)
        (rw (stored_sequence-to_le_bytes a.sequence fits.sequence_fits))

  -- It changes the record of no other pair.
  other-Holds :
      (s t : Space) (a : Attempt) (target : Bytes) (version n : ℕ)
      → InRange a
      → version < 256 ^ 8
      → names_pair target version a ≡ false
      → insert s (sequence_key a.target a.svid_version) (to_le_bytes 8 a.sequence) ≡ ok t
      → Holds s target version n
      → Holds t target version n
  other-Holds s t a target version n fits v named e h found p = h found (
      sym (
        get-insert_ne s t (sequence_key a.target a.svid_version) (sequence_key target version)
          (to_le_bytes 8 a.sequence) different e)
      ∙ p)
    where
      different : sequence_key a.target a.svid_version ≢ sequence_key target version
      different q = ground (
        arith,
        same_bytes_iff a.target target,
        sequence_key-target a.target target a.svid_version version q,
        sequence_key-version a.target target a.svid_version version q fits.version_fits v,
      )

  -- Whatever is delivered, in whatever order and with whatever failures of the storage: of the
  -- attempts with `u64` numbers, those that are let through for one (target, version) pair have
  -- strictly rising sequences, all of them above the number recorded at the start.
  pub accepted-Rising :
      (s : Space) (target : Bytes) (version n : ℕ) (attempts : List Attempt)
      → version < 256 ^ 8
      → All InRange attempts
      → Holds s target version n
      → Rising n (sequences_for target version (accepted s attempts))
  unfolding accepted sequences_for
  accepted-Rising s target version n [] v fits h = tt
  accepted-Rising s target version n (a ∷ later) v fits h = elim (check_cases s a) [
    | inl (refused, same) ↦ rw (refused, same) (accepted-Rising s target version n later v fits.1 h)
    | inr (found, p, newer, stored, accept) ↦
        rw accept (elim (Bool-cases (names_pair target version a)) [
          | inl named ↦ rw named (
            rw (h found (rw (← named_key target version a named) p)) at newer,
            accepted-Rising (try_attempt s a).1 target version a.sequence later v fits.1
                (accepted-Holds s (try_attempt s a).1 a target version fits.0 named stored),
          )
          | inr other ↦ rw other (
              accepted-Rising (try_attempt s a).1 target version n later v fits.1
                (other-Holds s (try_attempt s a).1 a target version n fits.0 v other stored h))
        ])
  ]
