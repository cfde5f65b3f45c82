-- ===== src/Identity/Keystore/Envelope.antt =====
-- The layout of the envelopes of src/identity/keystore.rs.
use fleetos_agent.Prelude.{
  ℕ, zero, suc, ◌+◌, ◌%◌, ◌^◌, ◌<◌, List, [], ◌∷◌, ◌++◌, ◌≡◌, refl, subst, ap, false, ◌∙◌, Bytes,
  length, take, drop, arith, ltb, length-append, take-append,
}
use fleetos_agent.Prelude.Words.{
  to_le_bytes, from_le_bytes, length-to_le_bytes, from_le_bytes-to_le_bytes,
}
use fleetos_agent.Errors.{ok}
use fleetos_agent.Identity.Keystore.{envelope_bytes, split_envelope, parse_envelope}

module _ {A : Type 0} where
  take-append_of : (n : ℕ) (xs ys : List A) → length xs ≡ n → take n (xs ++ ys) ≡ xs
  take-append_of n xs ys e = subst (λ n. take n (xs ++ ys) ≡ xs) e (take-append xs ys)

  drop-append_add : (n m : ℕ) (xs ys : List A) → n ≡ length xs + m → drop n (xs ++ ys) ≡ drop m ys
  drop-append_add n m [] ys e = let same : n ≡ m = omega (arith, e) in ap (λ k. drop k ys) same
  drop-append_add zero m (x ∷ xs) ys e = absurd (omega (arith, e))
  drop-append_add (suc n) m (x ∷ xs) ys e = drop-append_add n m xs ys (omega (arith, e))

module _ (head blob nonce ciphertext : Bytes) (h : length head ≡ 4) (n : length nonce ≡ 12) where
  abbrev rest : Bytes
  rest = blob ++ (nonce ++ ciphertext)

  blob_part : take (length blob) (drop 4 (head ++ rest)) ≡ blob
  blob_part =
      ap (take (length blob)) (drop-append_add 4 0 head rest (omega (arith, h)))
      ∙ take-append blob (nonce ++ ciphertext)

  tail_part : (m : ℕ) → drop (4 + length blob + m) (head ++ rest) ≡ drop m (nonce ++ ciphertext)
  tail_part m =
      drop-append_add (4 + length blob + m) (length blob + m) head rest (omega (arith, h))
      ∙ drop-append_add (length blob + m) m blob (nonce ++ ciphertext) (omega arith)

  nonce_part : take 12 (drop (4 + length blob) (head ++ rest)) ≡ nonce
  nonce_part =
      let plus : 4 + length blob ≡ 4 + length blob + 0 = omega arith in
      ap (λ k. take 12 (drop k (head ++ rest))) plus
      ∙ ap (take 12) (tail_part 0)
      ∙ take-append_of 12 nonce ciphertext n

  ciphertext_part : drop (4 + length blob + 12) (head ++ rest) ≡ ciphertext
  ciphertext_part = tail_part 12 ∙ drop-append_add 12 0 nonce ciphertext (omega (arith, n))

  long_enough : ltb (length (head ++ rest)) (4 + length blob + 12) ≡ false
  long_enough = ground (
    arith,
    length-append head rest,
    length-append blob (nonce ++ ciphertext),
    length-append nonce ciphertext,
    h,
    n,
  )

  split_envelope-append :
      split_envelope (head ++ rest) (length blob)
      ≡ ok (record { sealed_blob_bytes = blob; nonce = nonce; ciphertext = ciphertext })
  split_envelope-append = rw (long_enough, blob_part, nonce_part, ciphertext_part) refl

  parse-append :
      from_le_bytes head ≡ length blob
      → parse_envelope (head ++ rest)
        ≡ ok (record { sealed_blob_bytes = blob; nonce = nonce; ciphertext = ciphertext })
  unfolding parse_envelope
  parse-append e =
      let long : ltb (length (head ++ rest)) 4 ≡ false = ground (arith, long_enough) in
      rw (long, take-append_of 4 head rest h, e) split_envelope-append

-- An envelope is read back as its three parts, whatever they hold, where the sealed key is shorter
-- than 2^32 bytes and the nonce has twelve.
pub parse_envelope-envelope_bytes :
    (blob nonce ciphertext : Bytes)
    → length blob < 2 ^ 32
    → length nonce ≡ 12
    → parse_envelope (envelope_bytes blob nonce ciphertext)
      ≡ ok (record { sealed_blob_bytes = blob; nonce = nonce; ciphertext = ciphertext })
unfolding envelope_bytes
parse_envelope-envelope_bytes blob nonce ciphertext small n =
    let fits : length blob % 2 ^ 32 ≡ length blob = omega (arith, small) in
    parse-append (to_le_bytes 4 (length blob % 2 ^ 32)) blob nonce ciphertext
      (length-to_le_bytes 4 (length blob % 2 ^ 32)) n
      (from_le_bytes-to_le_bytes 4 (length blob % 2 ^ 32) (omega arith) ∙ fits)
