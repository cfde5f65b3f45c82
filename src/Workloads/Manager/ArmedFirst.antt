-- ===== src/Workloads/Manager/ArmedFirst.antt =====
-- The order in which src/workloads/mod.rs arms the guard and boots the machine.
use fleetos_agent.Prelude.{ℕ, Option, none, some, List, ◌≡◌, refl, sym, ◌∙◌, subst}
use fleetos_agent.Errors.{AgentError, Result, ok, err}
use fleetos_agent.Exec.{Exec, continue}
use fleetos_agent.Collections.Key.{nat_key}
use fleetos_agent.Ebpf.NetGuard.{VmNetGuardAdapter, arm}
use fleetos_agent.Workloads.Manager.{Host}
use fleetos_agent.Workloads.Manager.Boot.{boot_microvm_inner, boot_microvm, arm_option, or_undo}
use fleetos_agent.Workloads.Manager.Leaks.{Manager, Out, KeptOnErr, boot_microvm-Kept}
use fleetos_agent.Workloads.MicroVm.{allocate, validate_microvm_mounts}
use fleetos_agent.Workloads.Reconciler.{WorkloadSpec}
use fleetos_agent.Workloads.Volumes.{PreparedMount}
use fleetos_agent.Workloads.Manager.Guarded.{Ready, boot_microvm-Ready}

module _ (host : Host) where
  -- The state once a CID is taken.
  abbrev pub with_cid : Manager host → Manager host
  with_cid m = record m { cid_allocator = (allocate m.cid_allocator).1 }

  -- How a boot ends, by how the arming of the guard ends.
  abbrev pub AfterArm :
      Out host
      → WorkloadSpec
      → ℕ
      → ℕ
      → Manager host
      → Result (Unit {0}) × VmNetGuardAdapter
      → Result ℕ × Manager host
      → Type 0
  AfterArm out spec guest gateway m (err e, g) run =
      run ≡ (err e, record (with_cid m) { net_guard = some g })
  AfterArm out spec guest gateway m (ok armed, g) (ok handle, u) =
      Ready host out spec guest gateway m u handle
  AfterArm out spec guest gateway m (ok armed, g) (err e, u) = u.microvms ≡ m.microvms

  -- The same, by whether there is a guard.
  abbrev pub Guarded :
      Out host
      → WorkloadSpec
      → ℕ
      → ℕ
      → Manager host
      → Option VmNetGuardAdapter
      → Result ℕ × Manager host
      → Type 0
  Guarded out spec guest gateway m none run = (e : AgentError) × (run ≡ (err e, with_cid m))
  Guarded out spec guest gateway m (some g) run =
      AfterArm out spec guest gateway m
        (arm out.kernel (host.interface_of m.cid_allocator.next_cid) g) run

  ended-AfterArm :
      (out : Out host) (spec : WorkloadSpec) (guest gateway : ℕ) (m : Manager host)
      (g : VmNetGuardAdapter) (run : Result ℕ × Manager host)
      → ((handle : ℕ) (u : Manager host)
          → run ≡ (ok handle, u)
          → Ready host out spec guest gateway m u handle)
      → KeptOnErr host m run
      → AfterArm out spec guest gateway m (ok tt, g) run
  ended-AfterArm out spec guest gateway m g (ok handle, u) ready kept = ready handle u refl
  ended-AfterArm out spec guest gateway m g (err e, u) ready kept = kept.microvms

  armed-AfterArm :
      (out : Out host) (spec : WorkloadSpec) (guest gateway : ℕ) (m : Manager host)
      (r : Result (Unit {0})) (g : VmNetGuardAdapter) (rest : Unit {0} → Exec (Manager host) ℕ)
      → let run = continue r rest (record (with_cid m) { net_guard = some g }) in
        ((handle : ℕ) (u : Manager host)
          → run ≡ (ok handle, u)
          → Ready host out spec guest gateway m u handle)
        → KeptOnErr host m run
        → AfterArm out spec guest gateway m (r, g) run
  armed-AfterArm out spec guest gateway m (ok armed) g rest ready kept =
      ended-AfterArm out spec guest gateway m g
        (rest armed (record (with_cid m) { net_guard = some g })) ready kept
  armed-AfterArm out spec guest gateway m (err e) g rest ready kept = refl

  option-Guarded :
      (out : Out host) (spec : WorkloadSpec) (guest gateway : ℕ) (m : Manager host)
      (o : Option VmNetGuardAdapter) (rest : Unit {0} → Exec (Manager host) ℕ)
      → let armed = arm_option host out m.cid_allocator.next_cid o (with_cid m) in
        let run = continue armed.0 rest armed.1 in
        ((handle : ℕ) (u : Manager host)
          → run ≡ (ok handle, u)
          → Ready host out spec guest gateway m u handle)
        → KeptOnErr host m run
        → Guarded out spec guest gateway m o run
  option-Guarded out spec guest gateway m none rest ready kept = (_, refl)
  option-Guarded out spec guest gateway m (some g) rest ready kept =
      let (r, g') = arm out.kernel (host.interface_of m.cid_allocator.next_cid) g in
      armed-AfterArm out spec guest gateway m r g' rest ready kept

  -- A machine boots only after its guard has been armed, for the interface of the CID that the allocator gives
  -- next. With mounts that a machine may have: without a guard the boot fails, and where arming fails it
  -- fails with that error, and in both cases nothing was done but to take the CID and what the
  -- arming did. Where arming succeeds, the boot succeeds with the machine kept under the CID and the guard
  -- armed, and where there is an attestation server it has the boot's measurement and the context
  -- with the machine's addresses for the CID; or it fails and no machine is kept.
  pub boot_microvm-Guarded :
      (out : Out host) (spec : WorkloadSpec) (mounts : List (PreparedMount host.fs))
      (guest gateway : ℕ) (m : Manager host)
      → validate_microvm_mounts mounts ≡ ok tt
      → Guarded out spec guest gateway m m.net_guard
          (boot_microvm host out spec mounts guest gateway m)
  unfolding boot_microvm allocate
  boot_microvm-Guarded out spec mounts guest gateway m valid =
      let cid = m.cid_allocator.next_cid in
      let rest : Unit {0} → Exec (Manager host) ℕ = λ armed v.
        or_undo host out cid (boot_microvm_inner host out spec mounts cid guest gateway v) in
      let armed = arm_option host out cid m.net_guard (with_cid m) in
      let same : continue armed.0 rest armed.1 ≡ boot_microvm host out spec mounts guest gateway m =
        rw valid refl in
      subst (Guarded out spec guest gateway m m.net_guard) same (
        option-Guarded out spec guest gateway m m.net_guard rest
          (λ handle u e.
            boot_microvm-Ready host out spec mounts guest gateway handle m u (sym same ∙ e))
          (subst (KeptOnErr host m) (sym same)
            (boot_microvm-Kept host out spec mounts guest gateway m)))
