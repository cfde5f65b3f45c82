-- ===== src/Workloads/Probes/Runner.antt =====
-- A probe of src/workloads/probes/mod.rs through a history of outcomes.
use fleetos_agent.Prelude.{
  ℕ, suc, ◌^◌, ◌≤◌, ◌<◌, Bool, true, false, ◌≡◌, refl, arith, if◌then◌else◌, List, [], ◌∷◌, leb,
  length,
}
use fleetos_agent.Workloads.Probes.{
  Probe, ProbePhase, initial_delay, probing, succeeded, failed, ProbeRunner, new_runner, probe,
  max_one,
}

-- A probe run once for each outcome, newest first, at any instants.
unfoldable pub run : List (ℕ × Bool) → ProbeRunner → ProbeRunner
run [] r = r
run ((now, outcome) ∷ earlier) r = probe now outcome (run earlier r)

-- How many of the newest outcomes are alike.
unfoldable pub streak : Bool → List (ℕ × Bool) → ℕ
streak wanted [] = 0
streak true ((now, true) ∷ earlier) = suc (streak true earlier)
streak true ((now, false) ∷ earlier) = 0
streak false ((now, true) ∷ earlier) = 0
streak false ((now, false) ∷ earlier) = suc (streak false earlier)

streak-le : (wanted : Bool) (outcomes : List (ℕ × Bool)) → streak wanted outcomes ≤ length outcomes
unfolding streak
streak-le true [] = omega arith
streak-le false [] = omega arith
streak-le true ((now, true) ∷ earlier) = omega (arith, streak-le true earlier)
streak-le true ((now, false) ∷ earlier) = omega arith
streak-le false ((now, true) ∷ earlier) = omega arith
streak-le false ((now, false) ∷ earlier) = omega (arith, streak-le false earlier)

-- The phase that a history of outcomes gives.
abbrev pub phase_after : ProbeRunner → List (ℕ × Bool) → ProbePhase
phase_after r [] = initial_delay
phase_after r ((now, true) ∷ earlier) =
    if leb r.success_threshold (streak true ((now, true) ∷ earlier)) then succeeded else probing
phase_after r ((now, false) ∷ earlier) =
    if leb r.failure_threshold (streak false ((now, false) ∷ earlier)) then failed else probing

pub record Follows (p : Probe) (start : ℕ) (outcomes : List (ℕ × Bool)) : Type 0 where
  pub successes : (run outcomes (new_runner p start)).consecutive_successes ≡ streak true outcomes
  pub failures : (run outcomes (new_runner p start)).consecutive_failures ≡ streak false outcomes
  pub thresholds :
      ((run outcomes (new_runner p start)).success_threshold ≡ max_one p.success_threshold)
      × ((run outcomes (new_runner p start)).failure_threshold ≡ max_one p.failure_threshold)
  pub phase : (run outcomes (new_runner p start)).phase ≡ phase_after (new_runner p start) outcomes

-- After any history of fewer than 2^32 probes: the counters are the lengths of the newest runs of
-- successes and of failures, the thresholds are at least one and as configured, and the phase is the
-- one that the newest run determines.
pub run-Follows :
    (p : Probe) (start : ℕ) (outcomes : List (ℕ × Bool))
    → length outcomes < 2 ^ 32
    → Follows p start outcomes
unfolding run streak new_runner probe
run-Follows p start [] h = record {
  successes = refl;
  failures = refl;
  thresholds = (refl, refl);
  phase = refl;
}
run-Follows p start ((now, true) ∷ earlier) h =
    let f = run-Follows p start earlier (omega arith) in
    let short = streak-le true earlier in
    record {
      successes = ground arith;
      failures = ground arith;
      thresholds = ground arith;
      phase = ground arith;
    }
run-Follows p start ((now, false) ∷ earlier) h =
    let f = run-Follows p start earlier (omega arith) in
    let short = streak-le false earlier in
    record {
      successes = ground arith;
      failures = ground arith;
      thresholds = ground arith;
      phase = ground arith;
    }
