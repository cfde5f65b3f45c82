-- ===== src/Identity/Sequences/Keys.antt =====
-- The storage keys of src/identity/sequences.rs.
use fleetos_agent.Prelude.{
  ℕ, ◌<◌, ◌^◌, ◌≡◌, sym, ap, ◌∙◌, ◌∷◌, ◌++◌, arith, Bytes, length, take, drop, take-append,
  drop-append, length-append,
}
use fleetos_agent.Prelude.Words.{to_le_bytes, length-to_le_bytes, to_le_bytes-injective}
use fleetos_agent.Identity.Sequences.{sequence_key}

module _ (target other : Bytes) (m n : ℕ) (e : sequence_key target m ≡ sequence_key other n) where
  same_length : length target ≡ length other
  unfolding sequence_key
  same_length = omega (
    arith,
    ap length e,
    length-append target (0 ∷ to_le_bytes 8 m),
    length-append other (0 ∷ to_le_bytes 8 n),
    length-to_le_bytes 8 m,
    length-to_le_bytes 8 n,
  )

  pub sequence_key-target : target ≡ other
  unfolding sequence_key
  sequence_key-target =
      sym (take-append target (0 ∷ to_le_bytes 8 m))
      ∙ ap (take (length target)) e
      ∙ rw same_length (take-append other (0 ∷ to_le_bytes 8 n))

  drop_other : drop (length target) (other ++ (0 ∷ to_le_bytes 8 n)) ≡ 0 ∷ to_le_bytes 8 n
  drop_other = rw same_length (drop-append other (0 ∷ to_le_bytes 8 n))

  same_suffix : to_le_bytes 8 m ≡ to_le_bytes 8 n
  unfolding sequence_key
  same_suffix =
      ap (drop 1)
        (sym (drop-append target (0 ∷ to_le_bytes 8 m)) ∙ ap (drop (length target)) e ∙ drop_other)

  pub sequence_key-version : m < 256 ^ 8 → n < 256 ^ 8 → m ≡ n
  sequence_key-version hm hn = to_le_bytes-injective 8 m n hm hn same_suffix
