-- ===== src/Workloads/Probes/Startup.antt =====
-- The startup gate and the thresholds of src/workloads/probes/mod.rs.
use fleetos_agent.Prelude.{
  ℕ, ◌^◌, ◌<◌, Bool, true, false, ◌≡◌, arith, ◌⊎◌, inl, inr, not, Bool-cases, List, [], ◌∷◌, some,
  length,
}
use fleetos_agent.Workloads.Probes.{
  Probe, ProbeRunner, new_runner, is_due, probe, is_passing, is_failing, is_live_passing,
  is_ready_passing, ProbeSetRunner, Outcomes, passes, startup_done, run_probes, run_gated,
  run_optional,
}
use fleetos_agent.Workloads.Probes.Runner.{run, streak, run-Follows}

-- After any history of fewer than 2^32 probes, a probe is failing exactly when it is not live, and
-- passing exactly when it is ready: `is_failing` and `is_passing` honour the thresholds, as
-- `is_live_passing` and `is_ready_passing` do.
pub thresholds_agree :
    (p : Probe) (start : ℕ) (outcomes : List (ℕ × Bool))
    → length outcomes < 2 ^ 32
    → let r = run outcomes (new_runner p start) in
      (is_failing r ≡ not (is_live_passing r)) × (is_passing r ≡ is_ready_passing r)
unfolding run streak new_runner probe
thresholds_agree p start [] h = let f = run-Follows p start [] h in (ground arith, ground arith)
thresholds_agree p start ((now, true) ∷ earlier) h =
    let f = run-Follows p start ((now, true) ∷ earlier) h in (ground arith, ground arith)
thresholds_agree p start ((now, false) ∷ earlier) h =
    let f = run-Follows p start ((now, false) ∷ earlier) h in (ground arith, ground arith)

-- While the startup probe has not passed, liveness and readiness are not run and count as passing;
-- once it has, the result is what their own runners give.
pub startup_gates :
    (now : ℕ) (o : Outcomes) (s : ProbeSetRunner)
    → let (s', result) = run_probes now o s in
      (s'.startup ≡ run_optional now o.startup s.startup)
      × (((startup_done s' ≡ false)
            × (result ≡ (true, true))
            × (s'.liveness ≡ s.liveness)
            × (s'.readiness ≡ s.readiness))
          ⊎ ((startup_done s' ≡ true)
              × (result
                  ≡ (passes is_live_passing s'.liveness, passes is_ready_passing s'.readiness))
              × (s'.liveness ≡ run_optional now o.liveness s.liveness)
              × (s'.readiness ≡ run_optional now o.readiness s.readiness)))
unfolding run_probes startup_done run_gated is_due probe
startup_gates now o s =
    elim (Bool-cases (startup_done (record s { startup = run_optional now o.startup s.startup }))) [
      | inl done ↦ ground arith
      | inr waiting ↦ ground arith
    ]

-- Success at startup does not last: where the startup probe is due and its check fails, then whatever
-- it was before, it counts as not done, and the tick reports live and ready without running or
-- consulting the other two probes.
pub startup_regresses :
    (now : ℕ) (o : Outcomes) (s : ProbeSetRunner) (r : ProbeRunner)
    → s.startup ≡ some r
    → is_due now r ≡ true
    → o.startup ≡ false
    → (startup_done (run_probes now o s).0 ≡ false)
      × ((run_probes now o s).1 ≡ (true, true))
      × ((run_probes now o s).0.liveness ≡ s.liveness)
unfolding run_probes startup_done run_gated is_due probe
startup_regresses now o s r e due down = ground arith
