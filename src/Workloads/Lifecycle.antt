-- ===== src/Workloads/Lifecycle.antt =====
-- src/workloads/lifecycle.rs: the restart policy of a pod, and the state after an event.
use fleetos_agent.Prelude.{
  ℕ, zero, suc, ◌+◌, ◌%◌, ◌^◌, ◌<◌, Bool, true, false, ◌&&◌, ◌≡◌, arith, leb, if◌then◌else◌,
}
use fleetos_agent.Workloads.Pods.{
  PodState, booting, running, terminating, stopped, RestartPolicy, always, on_failure, never,
}

pub record PodLifecycle : Type 0 where
  pub restart_policy : RestartPolicy
  pub restart_count : ℕ
  pub max_restarts : ℕ
  pub grace_period_secs : ℕ

unfoldable pub new_lifecycle : RestartPolicy → ℕ → PodLifecycle
new_lifecycle policy grace_period_secs = record {
  restart_policy = policy;
  restart_count = 0;
  max_restarts = 3;
  grace_period_secs = grace_period_secs;
}

abbrev pub can_restart_under : RestartPolicy → Bool
can_restart_under always = true
can_restart_under on_failure = true
can_restart_under never = false

-- The counter is a `u32`, which wraps in a release build.
unfoldable pub record_restart : PodLifecycle → PodLifecycle × Bool
record_restart l =
    let count = (l.restart_count + 1) % 2 ^ 32 in
    (
      record l { restart_count = count },
      leb count l.max_restarts && can_restart_under l.restart_policy,
    )

pub record TerminationPlan : Type 0 where
  pub grace_period_secs : ℕ
  pub force_after_grace : Bool

abbrev pub new_plan : ℕ → TerminationPlan
new_plan grace = record { grace_period_secs = grace; force_after_grace = true }

abbrev pub default_plan : TerminationPlan
default_plan = new_plan 30

unfoldable pub next_state : PodState → Bool → PodLifecycle → PodState × PodLifecycle
unfolding record_restart
next_state running true l =
    let (l', again) = record_restart l in (if again then booting else stopped, l')
next_state terminating failed l = (stopped, l)
next_state other failed l = (other, l)

-- A pod that fails again and again, each time after it has come up: whether the last of `n + 1`
-- failures restarts it.
unfoldable pub failures : ℕ → PodLifecycle → PodState × PodLifecycle
unfolding next_state
failures zero l = next_state running true l
failures (suc n) l = failures n (next_state running true l).1

failures_count :
    (n : ℕ) (l : PodLifecycle)
    → l.restart_count + n + 1 < 2 ^ 32
    → ((failures n l).0 ≡ (
        if leb (l.restart_count + n + 1) l.max_restarts && can_restart_under l.restart_policy
        then booting
        else stopped))
unfolding failures
failures_count zero l h = ground arith
failures_count (suc n) l h =
    ground (arith, failures_count n (next_state running true l).1 (ground arith))

-- A pod that may be restarted boots again after each of its first three failures, and is stopped by
-- every later one; one that may not is stopped by the first.
pub restart_budget :
    (n : ℕ) (policy : RestartPolicy) (grace : ℕ)
    → n + 1 < 2 ^ 32
    → (failures n (new_lifecycle policy grace)).0
      ≡ (if leb (n + 1) 3 && can_restart_under policy then booting else stopped)
restart_budget n policy grace h =
    unfold new_lifecycle in ground (arith, failures_count n (new_lifecycle policy grace))
