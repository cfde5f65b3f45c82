-- ===== src/Workloads/ProbeLoop/Events.antt =====
-- The starts and the reported failures of src/workloads/probe_loop.rs.
use fleetos_agent.Prelude.{
  ℕ, suc, ◌≤◌, true, false, ◌≡◌, refl, arith, inl, inr, if◌then◌else◌, Bool-cases, List, [], ◌∷◌,
  All,
}
use fleetos_agent.Workloads.Pods.{Pod, booting, running, is_ready}
use fleetos_agent.Workloads.ProbeLoop.{
  ProbeTickResult, ProbeLoopConfig, Emits, process_pod, process_all,
}

-- The gate of Ruling D is passed by: a booting pod for which policy is not enforced runs after a
-- result with all probes passing, and is not ready.
pub gate_bypassed :
    (config : ProbeLoopConfig) (r : ProbeTickResult) (p : Pod)
    → p.state ≡ booting
    → p.policy_enforced ≡ false
    → r.all_probes_passing ≡ true
    → ((process_pod config r p).0.state ≡ running) × (is_ready (process_pod config r p).0 ≡ false)
unfolding process_pod is_ready
gate_bypassed config r p s e a = ground arith

-- The number of failures that are reported.
pub reports : List Emits → ℕ
reports [] = 0
reports (e ∷ es) = if e.emit_probe_failed then suc (reports es) else reports es

-- A result of a failure that is no liveness failure.
abbrev pub FailsReadiness : ProbeTickResult → Type 0
FailsReadiness r = (r.probe_failed ≡ true) × (r.live ≡ true)

quiet_episode :
    (config : ProbeLoopConfig) (rs : List ProbeTickResult) (p : Pod)
    → p.probe_failure_reported ≡ true
    → All FailsReadiness rs
    → reports (process_all config rs p).1 ≡ 0
unfolding process_all process_pod reports
quiet_episode config [] p h fails = refl
quiet_episode config (r ∷ rs) p h fails =
    ground (arith, quiet_episode config rs (process_pod config r p).0, fails.1)

-- In an unbroken run of readiness failures, however long, a failure is reported once at most, and not
-- at all if it was reported before the run.
pub reports_once :
    (config : ProbeLoopConfig) (rs : List ProbeTickResult) (p : Pod)
    → All FailsReadiness rs
    → reports (process_all config rs p).1 ≤ (if p.probe_failure_reported then 0 else 1)
unfolding process_all process_pod reports
reports_once config [] p fails = ground arith
reports_once config (r ∷ rs) p fails = elim (Bool-cases p.probe_failure_reported) [
  | inl told ↦ ground (arith, quiet_episode config (r ∷ rs) p told fails)
  | inr untold ↦ ground (
    arith,
    quiet_episode config rs (process_pod config r p).0,
    reports_once config rs (process_pod config r p).0 fails.1,
  )
]
