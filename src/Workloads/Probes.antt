-- ===== src/Workloads/Probes.antt =====
-- src/workloads/probes/mod.rs and src/workloads/probe_manager.rs: the probe state machine, the three
-- probes of a pod, and the runners of the node. Instants are numbers of seconds, given as arguments;
-- the outcome of the check that a probe makes is an argument too.
pub mod Runner
pub mod Startup
use fleetos_agent.Prelude.{
  ℕ, ◌+◌, ◌-◌, ◌%◌, ◌^◌, String, Bool, true, false, not, ◌&&◌, ◌||◌, Option, none, some, List, [],
  ◌∷◌, ltb, leb, if◌then◌else◌,
}
use fleetos_agent.Collections.Key.{string_key}
use fleetos_agent.Collections.HashMap
use fleetos_agent.Workloads.ProbeLoop.{ProbeTickResult}

pub data ProbeKind : Type 0 where
  exec : List String → ProbeKind
  http_get : String → ℕ → ProbeKind
  tcp_socket : ℕ → ProbeKind

pub data ProbePhase : Type 0 where
  initial_delay probing succeeded failed : ProbePhase

-- The probe of the wire format.
pub record Probe : Type 0 where
  pub check : Option ProbeKind
  pub initial_delay_seconds : ℕ
  pub period_seconds : ℕ
  pub timeout_seconds : ℕ
  pub success_threshold : ℕ
  pub failure_threshold : ℕ

-- A probe without a check connects to port 0.
abbrev pub kind_of : Option ProbeKind → ProbeKind
kind_of none = tcp_socket 0
kind_of (some kind) = kind

pub record ProbeRunner : Type 0 where
  pub kind : ProbeKind
  pub phase : ProbePhase
  pub initial_delay_secs : ℕ
  pub period_secs : ℕ
  pub timeout_secs : ℕ
  pub success_threshold : ℕ
  pub failure_threshold : ℕ
  pub consecutive_successes : ℕ
  pub consecutive_failures : ℕ
  pub started_at : ℕ
  pub last_probe_at : Option ℕ

abbrev pub max_one : ℕ → ℕ
max_one n = if ltb n 1 then 1 else n

unfoldable pub new_runner : Probe → ℕ → ProbeRunner
new_runner probe now = record {
  kind = kind_of probe.check;
  phase = initial_delay;
  initial_delay_secs = probe.initial_delay_seconds;
  period_secs = probe.period_seconds;
  timeout_secs = probe.timeout_seconds;
  success_threshold = max_one probe.success_threshold;
  failure_threshold = max_one probe.failure_threshold;
  consecutive_successes = 0;
  consecutive_failures = 0;
  started_at = now;
  last_probe_at = none;
}

unfoldable pub is_due : ℕ → ProbeRunner → Bool
is_due now r =
    if ltb (now - r.started_at) r.initial_delay_secs
    then false
    else elim r.last_probe_at [ none ↦ true | some last ↦ leb r.period_secs (now - last) ]

-- `+= 1` on a `u32`, which wraps in a release build.
abbrev pub bump : ℕ → ℕ
bump n = (n + 1) % 2 ^ 32

abbrev pub succeed : ℕ → ProbeRunner → ProbeRunner
succeed now r = record r {
  last_probe_at = some now;
  consecutive_successes = bump r.consecutive_successes;
  consecutive_failures = 0;
  phase = if leb r.success_threshold (bump r.consecutive_successes) then succeeded else probing;
}

abbrev pub fail : ℕ → ProbeRunner → ProbeRunner
fail now r = record r {
  last_probe_at = some now;
  consecutive_failures = bump r.consecutive_failures;
  consecutive_successes = 0;
  phase = if leb r.failure_threshold (bump r.consecutive_failures) then failed else probing;
}

-- The new runner; the phase that the method returns is its phase.
unfoldable pub probe : ℕ → Bool → ProbeRunner → ProbeRunner
probe now true r = succeed now r
probe now false r = fail now r

abbrev pub is_succeeded : ProbePhase → Bool
is_succeeded succeeded = true
is_succeeded _ = false

abbrev pub is_failed : ProbePhase → Bool
is_failed failed = true
is_failed _ = false

abbrev pub is_passing : ProbeRunner → Bool
is_passing r = is_succeeded r.phase

abbrev pub is_failing : ProbeRunner → Bool
is_failing r = is_failed r.phase

abbrev pub is_live_passing : ProbeRunner → Bool
is_live_passing r = ltb r.consecutive_failures r.failure_threshold

abbrev pub is_ready_passing : ProbeRunner → Bool
is_ready_passing r = leb r.success_threshold r.consecutive_successes

pub record ProbeSet : Type 0 where
  pub startup : Option Probe
  pub liveness : Option Probe
  pub readiness : Option Probe

pub record ProbeSetRunner : Type 0 where
  pub startup : Option ProbeRunner
  pub liveness : Option ProbeRunner
  pub readiness : Option ProbeRunner

abbrev pub new_optional : Option Probe → ℕ → Option ProbeRunner
new_optional none now = none
new_optional (some p) now = some (new_runner p now)

unfoldable pub new_set : Option ProbeSet → ℕ → ProbeSetRunner
unfolding new_runner
new_set none now = record { startup = none; liveness = none; readiness = none }
new_set (some p) now = record {
  startup = new_optional p.startup now;
  liveness = new_optional p.liveness now;
  readiness = new_optional p.readiness now;
}

-- The outcomes of the checks of one tick, for each probe that is run.
pub record Outcomes : Type 0 where
  pub startup : Bool
  pub liveness : Bool
  pub readiness : Bool

abbrev pub if_due : ℕ → Bool → ProbeRunner → ProbeRunner
if_due now outcome r = if is_due now r then probe now outcome r else r

abbrev pub run_optional : ℕ → Bool → Option ProbeRunner → Option ProbeRunner
run_optional now outcome none = none
run_optional now outcome (some r) = some (if_due now outcome r)

-- A probe that is not configured counts as passing.
abbrev pub passes : (ProbeRunner → Bool) → Option ProbeRunner → Bool
passes test none = true
passes test (some r) = test r

unfoldable pub startup_done : ProbeSetRunner → Bool
startup_done s = passes is_passing s.startup

unfoldable pub run_gated : ℕ → Outcomes → ProbeSetRunner → ProbeSetRunner × (Bool × Bool)
unfolding is_due probe
run_gated now o s =
    let liveness = run_optional now o.liveness s.liveness in
    let readiness = run_optional now o.readiness s.readiness in
    (
      record s { liveness = liveness; readiness = readiness },
      (passes is_live_passing liveness, passes is_ready_passing readiness),
    )

-- The runners after the due probes have run, and (liveness_passing, readiness_passing).
unfoldable pub run_probes : ℕ → Outcomes → ProbeSetRunner → ProbeSetRunner × (Bool × Bool)
unfolding is_due probe run_gated startup_done
run_probes now o s =
    let s' = record s { startup = run_optional now o.startup s.startup } in
    if not (startup_done s') then (s', (true, true)) else run_gated now o s'

unfoldable pub all_passing : ProbeSetRunner → Bool
unfolding startup_done
all_passing s =
    startup_done s && passes is_live_passing s.liveness && passes is_ready_passing s.readiness

-- The runners of the node, by pod.
abbrev pub ProbeManager : Type 0
ProbeManager = List (String × ProbeSetRunner)

abbrev pub register_pod : String → ProbeSetRunner → ProbeManager → ProbeManager
register_pod pod_id runner runners = HashMap.insert pod_id runner runners

abbrev pub unregister_pod : String → ProbeManager → ProbeManager
unregister_pod pod_id runners = HashMap.remove pod_id runners

abbrev pub tick_result : String → ProbeSetRunner × (Bool × Bool) → ProbeTickResult
tick_result pod_id (runner, (live, ready)) = record {
  pod_id = pod_id;
  live = live;
  ready = ready;
  all_probes_passing = all_passing runner;
  probe_failed = not live || not ready;
}

-- One tick over all pods, with the outcomes of each pod's checks.
unfoldable pub tick : ℕ → (String → Outcomes) → ProbeManager → ProbeManager × List ProbeTickResult
unfolding run_probes all_passing
tick now outcomes [] = ([], [])
tick now outcomes ((pod_id, runner) ∷ runners) =
    let ran = run_probes now (outcomes pod_id) runner in
    let rest = tick now outcomes runners in
    ((pod_id, ran.0) ∷ rest.0, tick_result pod_id ran ∷ rest.1)

unfoldable pub is_pod_ready : String → ProbeManager → Bool
is_pod_ready pod_id runners = elim (HashMap.lookup pod_id runners) [
  | none ↦ true
  | some runner ↦ all_passing runner
]
