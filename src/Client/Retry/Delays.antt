-- ===== src/Client/Retry/Delays.antt =====
-- The delays that src/client/retry.rs computes.
use fleetos_agent.Prelude.{
  ℕ, zero, suc, ◌*◌, ◌%◌, ◌^◌, ◌≤◌, ◌<◌, Bool, true, ◌&&◌, ◌≡◌, refl, arith, leb, ltb, ◌==◌,
  if◌then◌else◌, leb→le, ltb→lt, Bool-cases, inl, inr, ==_iff,
}
use native.Mathlib.Nat.{pow-suc}
use fleetos_agent.Client.Retry.{backoff_ms, min_delay}

-- A test that holds of all numbers below a bound.
unfoldable pub all_below : (ℕ → Bool) → ℕ → Bool
all_below test zero = true
all_below test (suc n) = test n && all_below test n

pub all_below-test : (test : ℕ → Bool) (n k : ℕ) → all_below test n ≡ true → k < n → test k ≡ true
unfolding all_below
all_below-test test zero k h lt = absurd (omega arith)
all_below-test test (suc n) k h lt = elim (Bool-cases (k == n)) [
  | inl last ↦ ground (arith, (==_iff k n).0 last)
  | inr before ↦ all_below-test test n k (ground arith) (ground arith)
]

below_62 : all_below (λ n. backoff_ms n == min_delay (100 * 2 ^ n)) 62 ≡ true
unfolding all_below backoff_ms
below_62 = refl

pow_64 : (m : ℕ) → 64 ≤ m → 2 ^ m % 2 ^ 64 ≡ 0
pow_64 zero h = absurd (omega arith)
pow_64 (suc m) h = elim (Bool-cases (m == 63)) [
  | inl last ↦ rw ((==_iff m 63).0 last) refl
  | inr later ↦ omega (arith, pow_64 m (ground arith), pow-suc 2 m)
]

backoff_ms-small : (n : ℕ) → n < 62 → backoff_ms n ≡ min_delay (100 * 2 ^ n)
backoff_ms-small n small =
    (==_iff (backoff_ms n) (min_delay (100 * 2 ^ n))).0 (all_below-test _ 62 n below_62 small)

backoff_ms-large : (n : ℕ) → n < 2 ^ 32 → 62 ≤ n → backoff_ms n ≡ 0
unfolding backoff_ms
backoff_ms-large n h large = elim (Bool-cases (leb 64 n)) [
  | inl much ↦ ground (arith, pow_64 n (leb→le 64 n much))
  | inr few ↦ elim (Bool-cases (n == 62)) [
    | inl is_62 ↦ rw ((==_iff n 62).0 is_62) refl
    | inr is_63 ↦ let e : n ≡ 63 = ground arith in rw e refl
  ]
]

-- The backoff doubles from 100 milliseconds up to the maximum of 5000 as the comment says, for fewer
-- than 62 failures; from 62 failures on, up to 2^32, the 64-bit product is zero and so is the delay.
pub backoff_ms_exact :
    (n : ℕ) → n < 2 ^ 32 → backoff_ms n ≡ (if ltb n 62 then min_delay (100 * 2 ^ n) else 0)
backoff_ms_exact n h = elim (Bool-cases (ltb n 62)) [
  | inl small ↦ rw small (backoff_ms-small n (ltb→lt n 62 small))
  | inr large ↦ rw large (backoff_ms-large n h (ground arith))
]
