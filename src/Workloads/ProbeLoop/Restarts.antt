-- ===== src/Workloads/ProbeLoop/Restarts.antt =====
-- The restarts of src/workloads/probe_loop.rs.
use fleetos_agent.Prelude.{◌^◌, ◌≤◌, ◌<◌, arith, List, [], ◌∷◌}
use fleetos_agent.Workloads.Pods.{Pod}
use fleetos_agent.Workloads.ProbeLoop.{ProbeTickResult, ProbeLoopConfig, process_pod, process_all}

-- One result raises the restart counter by at most one, and never past the limit of attempts.
process_pod-restarts :
    (config : ProbeLoopConfig) (r : ProbeTickResult) (p : Pod)
    → config.max_restart_attempts < 2 ^ 32
    → p.restart_count ≤ config.max_restart_attempts
    → (p.restart_count ≤ (process_pod config r p).0.restart_count)
      × ((process_pod config r p).0.restart_count ≤ config.max_restart_attempts)
unfolding process_pod
process_pod-restarts config r p fits h = ground arith

-- Whatever the probes report, the restart counter of a pod that is within the limit, where that is
-- below 2^32, never falls and never passes the limit of
-- attempts, so that its `u32` does not overflow.
pub restarts_bounded :
    (config : ProbeLoopConfig) (rs : List ProbeTickResult) (p : Pod)
    → config.max_restart_attempts < 2 ^ 32
    → p.restart_count ≤ config.max_restart_attempts
    → (p.restart_count ≤ (process_all config rs p).0.restart_count)
      × ((process_all config rs p).0.restart_count ≤ config.max_restart_attempts)
unfolding process_all
restarts_bounded config [] p fits h = (omega arith, h)
restarts_bounded config (r ∷ rs) p fits h =
    let (rises, within) = process_pod-restarts config r p fits h in
    let (later, bound) = restarts_bounded config rs (process_pod config r p).0 fits within in
    (omega arith, bound)
