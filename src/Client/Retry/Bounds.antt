-- ===== src/Client/Retry/Bounds.antt =====
-- The hops and the delays of the actions that src/client/retry.rs chooses.
use fleetos_agent.Prelude.{
  ℕ, ◌≤◌, true, Option, none, some, ◌≡◌, inl, inr, refl, arith, ltb, leb, leb→le, Bool-cases, Bytes,
}
use fleetos_agent.Client.Retry.{
  Status, Code, unavailable, other, RetryAction, retry_same_target, redirect_and_retry, give_up,
  classify_error, classify_code, leader_of, backoff_ms,
}
use fleetos_agent.Client.Retry.Delays.{all_below, all_below-test}

below_6 : all_below (λ n. leb (backoff_ms n) 3200) 6 ≡ true
unfolding all_below backoff_ms
below_6 = refl

backoff_ms-first : (n : ℕ) → n ≤ 5 → backoff_ms n ≤ 3200
backoff_ms-first n h = leb→le (backoff_ms n) 3200 (all_below-test _ 6 n below_6 (omega arith))

-- The hops that an action allows.
abbrev pub Within : RetryAction → ℕ → Type 0
Within (retry_same_target delay) hops = (hops ≤ 5) × (delay ≤ 3200)
Within (redirect_and_retry target delay) hops = (hops ≤ 5) × (delay ≡ 0)
Within (give_up reason) hops = Unit

classify_code-Within :
    (code : Code) (leader : Option Bytes) (hops : ℕ)
    → hops ≤ 5
    → Within (classify_code code leader hops) hops
unfolding classify_code
classify_code-Within unavailable none hops h = (h, backoff_ms-first hops h)
classify_code-Within unavailable (some leader) hops h = (h, refl)
classify_code-Within (other n) leader hops h = tt

pub classify_error-Within : (status : Status) (hops : ℕ) → Within (classify_error status hops) hops
unfolding classify_error
classify_error-Within status hops = elim (Bool-cases (ltb 5 hops)) [
  | inl over ↦ rw over tt
  | inr under ↦
      rw under
        (classify_code-Within status.code (leader_of status.leader_dc_address) hops (ground arith))
]
