-- ===== src/Workloads/Manager/Guarded.antt =====
-- The machines that src/workloads/mod.rs boots.
use fleetos_agent.Prelude.{
  ℕ, String, Option, none, some, List, ◌≡◌, refl, sym, ap, ◌∙◌, subst, arith, inl, inr,
}
use fleetos_agent.Errors.{workload, Result, ok, Result-cases}
use fleetos_agent.Exec.{Exec, lift, pure, writes, bind-ok, lift-ok, writes-ok, ◌>>=◌, ◌>>◌}
use fleetos_agent.Collections.Key.{nat_key}
use fleetos_agent.Collections.HashMap.{lookup, insert, lookup-insert}
use fleetos_agent.Attest.Verify.{BootMeasurement}
use fleetos_agent.Attest.ConfigPush.{WorkloadContext}
use fleetos_agent.Attest.Handshake.{
  VsockAttestServer, register_boot_measurement, register_workload_context,
}
use fleetos_agent.Ebpf.NetGuard.{VmNetGuardAdapter, arm}
use fleetos_agent.Ebpf.NetGuard.Gate.{Armed, arm-Armed}
use fleetos_agent.Workloads.Manager.{Host}
use fleetos_agent.Workloads.Manager.Boot.{
  boot_microvm_inner, booted, boot_microvm, boot_with_cid, allocate_cid, arm_guard, arm_option,
  or_undo, context_for, registered,
}
use fleetos_agent.Workloads.Manager.Leaks.{Manager, Out}
use fleetos_agent.Workloads.Messages.{PodSpec}
use fleetos_agent.Workloads.MicroVm.{
  boot, allocate, validate_microvm_mounts, required_pod_spec, vm_config,
}
use fleetos_agent.Workloads.Reconciler.{WorkloadSpec}
use fleetos_agent.Workloads.Volumes.{PreparedMount}

module _ (host : Host) where
  -- Where there is an attestation server, it stays and has these for a guest.
  abbrev pub Attestable :
      ℕ
      → BootMeasurement
      → WorkloadContext
      → Option (VsockAttestServer WorkloadContext)
      → Option (VsockAttestServer WorkloadContext)
      → Type 0
  Attestable cid measurement context none none = Unit
  Attestable cid measurement context (some before) (some after) =
      (lookup cid after.boot_measurements ≡ some measurement)
      × (lookup cid after.workload_contexts ≡ some context)
  Attestable cid measurement context _ _ = ⊥

  -- A machine that runs behind an armed guard and can be attested.
  pub record Ready (out : Out host) (spec : WorkloadSpec) (guest gateway : ℕ) (m u : Manager host)
      (cid : ℕ) : Type 0 where
    pub cid_is : cid ≡ m.cid_allocator.next_cid
    pub before : VmNetGuardAdapter
    pub after : VmNetGuardAdapter
    pub guard_before : m.net_guard ≡ some before
    pub guard_after : u.net_guard ≡ some after
    pub armed : Armed (host.interface_of cid) before after
    pub vm : host.hypervisor.Vm
    pub stored : lookup cid u.microvms ≡ some vm
    pub measurement : BootMeasurement
    pub measured : out.boot_measurement ≡ ok measurement
    pub attestable :
        Attestable cid measurement (context_for host spec guest gateway) m.attestation u.attestation

  boot-cid :
      (spec : WorkloadSpec) (cid handle : ℕ) (mounts : List (PreparedMount host.fs))
      (rootfs tap : String) (gateway : ℕ) (vm vm' : host.hypervisor.Vm)
      → boot host.fs host.hypervisor spec cid mounts rootfs tap gateway vm ≡ (ok handle, vm')
      → handle ≡ cid
  unfolding boot
  boot-cid spec cid handle mounts rootfs tap gateway vm vm' e =
      let create : PodSpec → host.hypervisor.Vm → Result host.hypervisor.Vm =
        λ ps. host.hypervisor.create_vm (vm_config spec ps cid rootfs tap gateway) in
      let run : PodSpec → Exec host.hypervisor.Vm ℕ =
        λ ps. writes (create ps) >> (writes host.hypervisor.boot_vm >> pure cid) in
      let (u, valid, rest) =
        lift-ok (validate_microvm_mounts mounts)
          (λ u.
            lift (required_pod_spec spec.pod_spec (workload "microvm boot requires full PodSpec"))
            >>= run)
          vm vm' handle e in
      let (ps, given, rest2) =
        lift-ok (required_pod_spec spec.pod_spec (workload "microvm boot requires full PodSpec"))
          run vm vm' handle rest in
      let (vm2, created, rest3) =
        writes-ok (create ps) (writes host.hypervisor.boot_vm >> pure cid) vm vm' handle rest2 in
      let (vm3, started, rest4) =
        writes-ok host.hypervisor.boot_vm (pure cid) vm2 vm' handle rest3 in
      ground arith

  registered-Attestable :
      (cid : ℕ) (measurement : BootMeasurement) (context : WorkloadContext)
      (o : Option (VsockAttestServer WorkloadContext))
      → Attestable cid measurement context o (registered host cid measurement context o)
  unfolding register_boot_measurement register_workload_context
  registered-Attestable cid measurement context none = tt
  registered-Attestable cid measurement context (some server) = (
    ground (arith, lookup-insert cid cid measurement server.boot_measurements),
    ground (arith, lookup-insert cid cid context server.workload_contexts),
  )

  -- The part of a machine that is behind its guard.
  record Running (out : Out host) (spec : WorkloadSpec) (guest gateway : ℕ) (m u : Manager host)
      (cid handle : ℕ) : Type 0 where
    handle_is : handle ≡ cid
    guard_same : u.net_guard ≡ m.net_guard
    vm : host.hypervisor.Vm
    stored : lookup cid u.microvms ≡ some vm
    measurement : BootMeasurement
    measured : out.boot_measurement ≡ ok measurement
    attestable :
        Attestable cid measurement (context_for host spec guest gateway) m.attestation u.attestation

  inner-Running :
      (out : Out host) (spec : WorkloadSpec) (mounts : List (PreparedMount host.fs))
      (cid guest gateway handle : ℕ) (m u : Manager host)
      → boot_microvm_inner host out spec mounts cid guest gateway m ≡ (ok handle, u)
      → Running out spec guest gateway m u cid handle
  unfolding boot_microvm_inner
  inner-Running out spec mounts cid guest gateway handle m u e =
      let context = context_for host spec guest gateway in
      let with_context : BootMeasurement → Manager host = λ measurement. record m {
        attestation = registered host cid measurement context m.attestation;
      } in
      let vm_run : String → Result ℕ × host.hypervisor.Vm = λ rootfs.
        boot host.fs host.hypervisor spec cid mounts rootfs (host.interface_of cid) gateway
          out.vm in
      let finish : String → BootMeasurement → Exec (Manager host) ℕ = λ rootfs measurement v.
        booted host cid
          (record v { attestation = registered host cid measurement context v.attestation })
          (vm_run rootfs) in
      let (rootfs, q, rest) =
        lift-ok out.oci_to_erofs (λ rootfs. lift out.boot_measurement >>= finish rootfs) m u handle
          e in
      let (measurement, p, rest2) = lift-ok out.boot_measurement (finish rootfs) m u handle rest in
      elim (Result-cases (vm_run rootfs).0) [
        | inr (e', failed) ↦ absurd (ground arith)
        | inl (h, ran) ↦
            let same : h ≡ handle = ground arith in
            let is_u : record (with_context measurement) {
              microvms = insert cid (vm_run rootfs).1 m.microvms;
            }
                ≡ u =
              ground arith in
            subst (λ v. Running out spec guest gateway m v cid handle) is_u
              (record {
                handle_is =
                    sym same
                    ∙ boot-cid spec cid h mounts rootfs (host.interface_of cid) gateway out.vm
                        (vm_run rootfs).1 (ap (λ r. (r, (vm_run rootfs).1)) ran);
                guard_same = refl;
                vm = (vm_run rootfs).1;
                stored = ground (arith, lookup-insert cid cid (vm_run rootfs).1 m.microvms);
                measurement = measurement;
                measured = p;
                attestable = registered-Attestable cid measurement context m.attestation;
              })
      ]

  arm_option-Armed :
      (out : Out host) (cid : ℕ) (o : Option VmNetGuardAdapter) (m u : Manager host)
      → arm_option host out cid o m ≡ (ok tt, u)
      → (before : VmNetGuardAdapter) × (after : VmNetGuardAdapter) × (o ≡ some before)
        × (u.net_guard ≡ some after)
        × Armed (host.interface_of cid) before after
        × (u.attestation ≡ m.attestation)
  arm_option-Armed out cid none m u e = absurd (ground arith)
  arm_option-Armed out cid (some g) m u e =
      let (r, g') = arm out.kernel (host.interface_of cid) g in
      let done : arm out.kernel (host.interface_of cid) g ≡ (ok tt, g') = ground arith in
      (
        g,
        g',
        refl,
        ground arith,
        arm-Armed out.kernel (host.interface_of cid) g g' done,
        ground arith,
      )

  with_cid-Ready :
      (out : Out host) (spec : WorkloadSpec) (mounts : List (PreparedMount host.fs))
      (guest gateway handle : ℕ) (m u : Manager host)
      → let (cid, a) = allocate m.cid_allocator in
        boot_with_cid host out spec mounts guest gateway cid (record m { cid_allocator = a })
          ≡ (ok handle, u)
        → Ready out spec guest gateway m u handle
  unfolding allocate
  with_cid-Ready out spec mounts guest gateway handle m u e =
      let (cid, a) = allocate m.cid_allocator in
      let w : Manager host = record m { cid_allocator = a } in
      let (armed, x, guarded, rest) =
        bind-ok (arm_guard host out cid)
          (λ armed v.
            or_undo host out cid (boot_microvm_inner host out spec mounts cid guest gateway v))
          w u handle e in
      let (before, after, was, now, is_armed, same_server) =
        arm_option-Armed out cid m.net_guard w x guarded in
      let (r, v) = boot_microvm_inner host out spec mounts cid guest gateway x in
      elim (Result-cases r) [
        | inr (e', failed) ↦ absurd (ground arith)
        | inl (h, ran) ↦
            let same : h ≡ handle = ground arith in
            let is_u : v ≡ u = ground arith in
            let running =
              inner-Running out spec mounts cid guest gateway h x v (ap (λ r. (r, v)) ran) in
            let at : cid ≡ handle = sym running.handle_is ∙ same in
            subst (λ n. Ready out spec guest gateway m u n) at
              (subst (λ v. Ready out spec guest gateway m v cid) is_u
                (record {
                  cid_is = refl;
                  before = before;
                  after = after;
                  guard_before = was;
                  guard_after = running.guard_same ∙ now;
                  armed = is_armed;
                  vm = running.vm;
                  stored = running.stored;
                  measurement = running.measurement;
                  measured = running.measured;
                  attestable =
                      subst
                        (λ o.
                          Attestable cid running.measurement (context_for host spec guest gateway) o
                            v.attestation)
                        same_server running.attestable;
                }))
      ]

  -- The boot of a machine that succeeds.
  pub boot_microvm-Ready :
      (out : Out host) (spec : WorkloadSpec) (mounts : List (PreparedMount host.fs))
      (guest gateway handle : ℕ) (m u : Manager host)
      → boot_microvm host out spec mounts guest gateway m ≡ (ok handle, u)
      → Ready out spec guest gateway m u handle
  unfolding boot_microvm
  boot_microvm-Ready out spec mounts guest gateway handle m u e =
      let (valid, q, rest) =
        lift-ok (validate_microvm_mounts mounts)
          (λ valid. allocate_cid host >>= boot_with_cid host out spec mounts guest gateway) m u
          handle e in
      with_cid-Ready out spec mounts guest gateway handle m u rest
