-- ===== src/Collections/Key.antt =====
-- Types with a decidable equality, as the keys of sets and maps are.
use text.Mathlib.Text.{◌==◌ as str_eq}
use text.Mathlib.TextEquality.{eq_iff}
use fleetos_agent.Prelude.{
  ℕ, String, ◌≡◌, refl, ◌↔◌, Bool, true, false, ◌&&◌, [], ◌∷◌, arith, ◌==◌, ==_iff, Bytes,
}

pub record Key {ℓ} (A : Type ℓ) : Type ℓ where
  pub same : A → A → Bool
  pub same_iff : (a b : A) → (same a b ≡ true) ↔ (a ≡ b)

instance abbrev pub nat_key : Key ℕ
nat_key = record { same = ◌==◌; same_iff = ==_iff }

instance abbrev pub string_key : Key String
string_key = record { same = str_eq; same_iff = eq_iff }

abbrev pub same_bytes : Bytes → Bytes → Bool
same_bytes [] [] = true
same_bytes [] (y ∷ ys) = false
same_bytes (x ∷ xs) [] = false
same_bytes (x ∷ xs) (y ∷ ys) = x == y && same_bytes xs ys

pub same_bytes_iff : (a b : Bytes) → (same_bytes a b ≡ true) ↔ (a ≡ b)
same_bytes_iff [] [] = (λ _. refl, λ _. refl)
same_bytes_iff [] (y ∷ ys) = (λ h. cc, λ h. cc)
same_bytes_iff (x ∷ xs) [] = (λ h. cc, λ h. cc)
same_bytes_iff (x ∷ xs) (y ∷ ys) =
    (λ h. ground (arith, same_bytes_iff xs ys), λ h. ground (arith, same_bytes_iff xs ys))

instance abbrev pub bytes_key : Key Bytes
bytes_key = record { same = same_bytes; same_iff = same_bytes_iff }

module _ {ℓ} {A : Type ℓ} ⦃k : Key A⦄ where
  pub same_refl : (a : A) → k.same a a ≡ true
  same_refl a = (k.same_iff a a).1 refl
