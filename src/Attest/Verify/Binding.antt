-- ===== src/Attest/Verify/Binding.antt =====
-- The search of a nonce in a quote (src/vsock_attest/verify.rs) against the parts of the quote.
use fleetos_agent.Prelude.{
  ℕ, zero, suc, ◌<◌, true, [], ◌∷◌, ◌++◌, ◌≡◌, ◌↔◌, inl, inr, refl, ap, sym, ◌∙◌, arith, Bytes,
  length, take, drop, Bool-cases, length-append, take-append,
}
use fleetos_agent.Collections.Key.{same_bytes, same_bytes_iff}
use fleetos_agent.Attest.Verify.{any_window}

-- A part of `raw`, between what is before it and what is after it.
pub record Contains (raw part : Bytes) : Type 0 where
  pub before : Bytes
  pub after : Bytes
  pub split : raw ≡ before ++ (part ++ after)

take-drop : (n : ℕ) (xs : Bytes) → take n xs ++ drop n xs ≡ xs
take-drop zero xs = refl
take-drop (suc n) [] = refl
take-drop (suc n) (x ∷ xs) = ap (◌∷◌ x) (take-drop n xs)

any_window-finds : (n : ℕ) (nonce raw : Bytes) → any_window n nonce raw ≡ true → Contains raw nonce
unfolding any_window
any_window-finds n nonce [] h = ground arith
any_window-finds n nonce (b ∷ raw) h = elim (Bool-cases (same_bytes (take n (b ∷ raw)) nonce)) [
  | inl here ↦ record {
    before = [];
    after = drop n (b ∷ raw);
    split =
        sym (take-drop n (b ∷ raw))
        ∙ ap (λ t. t ++ drop n (b ∷ raw)) ((same_bytes_iff (take n (b ∷ raw)) nonce).0 here);
  }
  | inr later ↦
      let c = any_window-finds n nonce raw (ground arith) in
      record { before = b ∷ c.before; after = c.after; split = ap (◌∷◌ b) c.split }
]

any_window_complete :
    (nonce before after : Bytes)
    → 0 < length nonce
    → any_window (length nonce) nonce (before ++ (nonce ++ after)) ≡ true
unfolding any_window
any_window_complete [] before after h = absurd (omega arith)
any_window_complete (x ∷ nonce) [] after h = ground (
  arith,
  length-append nonce after,
  take-append nonce after,
  (same_bytes_iff (x ∷ nonce) (x ∷ nonce)).1 refl,
)
any_window_complete (x ∷ nonce) (b ∷ before) after h = ground (
  arith,
  length-append before ((x ∷ nonce) ++ after),
  length-append nonce after,
  any_window_complete (x ∷ nonce) before after h,
)

-- The nonce check accepts exactly the quotes that hold the nonce as consecutive bytes, at any place.
pub any_window_iff :
    (nonce raw : Bytes)
    → 0 < length nonce
    → (any_window (length nonce) nonce raw ≡ true) ↔ Contains raw nonce
any_window_iff nonce raw h = (
  any_window-finds (length nonce) nonce raw,
  λ c. rw c.split (any_window_complete nonce c.before c.after h),
)
