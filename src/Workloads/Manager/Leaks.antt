-- ===== src/Workloads/Manager/Leaks.antt =====
-- What a boot of src/workloads/mod.rs by a runtime leaves behind when it fails.
use fleetos_agent.Prelude.{ℕ, String, Option, none, some, List, ◌≡◌, refl, ◌∙◌}
use fleetos_agent.Errors.{workload, Result, ok, err}
use fleetos_agent.Exec.{Exec, lift, continue, ◌>>=◌, ◌>>◌}
use fleetos_agent.Collections.Key.{nat_key, string_key}
use fleetos_agent.Attest.Verify.{BootMeasurement}
use fleetos_agent.Ebpf.NetGuard.{VmNetGuardAdapter}
use fleetos_agent.Workloads.Manager.{Host, WorkloadManager, Outside, or_workload_id}
use fleetos_agent.Workloads.Manager.Boot.{
  create_netns, configured, boot_in_netns, boot_containerd, or_destroy, context_for, registered,
  arm_option, boot_with_cid, boot_microvm_inner, booted, boot_microvm, allocate_cid, arm_guard,
  or_undo, boot_runtime,
}
use fleetos_agent.Workloads.Messages.{PodSpec}
use fleetos_agent.Workloads.MicroVm.{boot, allocate, validate_microvm_mounts, required_pod_spec}
use fleetos_agent.Workloads.Pods.{RuntimeKind, containerd, cloud_hypervisor}
use fleetos_agent.Workloads.Reconciler.{WorkloadSpec}
use fleetos_agent.Workloads.Volumes.{PreparedMount}

module _ (host : Host) where
  abbrev pub Manager : Type 0
  Manager = WorkloadManager host

  abbrev pub Out : Type 0
  Out = Outside host

  -- The records of pods, machines and addresses and the registry of sources are those of before.
  pub record Kept (m u : Manager) : Type 0 where
    pub pods : u.pods ≡ m.pods
    pub source_ips : u.pod_source_ips ≡ m.pod_source_ips
    pub microvms : u.microvms ≡ m.microvms
    pub probes : u.probes ≡ m.probes
    pub allocator : u.ip_allocator ≡ m.ip_allocator
    pub sources : u.src_identity ≡ m.src_identity

  Kept-trans : (m u v : Manager) → Kept m u → Kept u v → Kept m v
  Kept-trans m u v h k = record {
    pods = k.pods ∙ h.pods;
    source_ips = k.source_ips ∙ h.source_ips;
    microvms = k.microvms ∙ h.microvms;
    probes = k.probes ∙ h.probes;
    allocator = k.allocator ∙ h.allocator;
    sources = k.sources ∙ h.sources;
  }

  abbrev unchanged : (m : Manager) → Kept m m
  unchanged m = record {
    pods = refl;
    source_ips = refl;
    microvms = refl;
    probes = refl;
    allocator = refl;
    sources = refl;
  }

  -- A failed run has kept them.
  abbrev pub KeptOnErr : {A : Type 0} → Manager → Result A × Manager → Type 0
  KeptOnErr m (ok a, u) = Unit
  KeptOnErr m (err e, u) = Kept m u

  KeptOnErr-trans :
      {A : Type 0} (m u : Manager) (run : Result A × Manager)
      → Kept m u
      → KeptOnErr u run
      → KeptOnErr m run
  KeptOnErr-trans m u (ok a, v) h k = tt
  KeptOnErr-trans m u (err e, v) h k = Kept-trans m u v h k

  or_destroy-Kept :
      (out : Out) (pod_id : String) (r : Result ℕ) (m u : Manager)
      → Kept m u
      → KeptOnErr m (or_destroy host out pod_id r u)
  or_destroy-Kept out pod_id (ok pid) m u h = tt
  or_destroy-Kept out pod_id (err e) m u h = record {
    pods = h.pods;
    source_ips = h.source_ips;
    microvms = h.microvms;
    probes = h.probes;
    allocator = h.allocator;
    sources = h.sources;
  }

  lift-Kept :
      {A B : Type 0} (m : Manager) (r : Result A) (f : A → Exec Manager B)
      → ((a : A) → KeptOnErr m (f a m))
      → KeptOnErr m ((lift r >>= f) m)
  lift-Kept m (ok a) f rest = rest a
  lift-Kept m (err e) f rest = unchanged m

  boot_containerd-Kept :
      (out : Out) (spec : WorkloadSpec) (m : Manager)
      → KeptOnErr m (boot_containerd host out spec m)
  unfolding boot_containerd
  boot_containerd-Kept out spec m =
      let start : PodSpec → Exec Manager ℕ =
        λ pod_spec. boot_in_netns host out (or_workload_id pod_spec.pod_id spec.workload_id) in
      lift-Kept m
        (required_pod_spec spec.pod_spec (workload "containerd boot requires full PodSpec"))
        (λ pod_spec. lift out.create_netns >> start pod_spec)
        λ pod_spec.
          lift-Kept m out.create_netns (λ made. start pod_spec)
            λ made.
              or_destroy-Kept out (or_workload_id pod_spec.pod_id spec.workload_id)
                (configured host out out.configure_netns) m
                (create_netns host out (or_workload_id pod_spec.pod_id spec.workload_id) m)
                (record {
                  pods = refl;
                  source_ips = refl;
                  microvms = refl;
                  probes = refl;
                  allocator = refl;
                  sources = refl;
                })

  or_undo-Kept :
      (out : Out) (cid : ℕ) (m : Manager) (run : Result ℕ × Manager)
      → KeptOnErr m run
      → KeptOnErr m (or_undo host out cid run)
  or_undo-Kept out cid m (ok handle, u) h = tt
  or_undo-Kept out cid m (err e, u) h = record {
    pods = h.pods;
    source_ips = h.source_ips;
    microvms = h.microvms;
    probes = h.probes;
    allocator = h.allocator;
    sources = h.sources;
  }

  booted-Kept :
      (cid : ℕ) (m u : Manager) (run : Result ℕ × host.hypervisor.Vm)
      → Kept m u
      → KeptOnErr m (booted host cid u run)
  booted-Kept cid m u (ok handle, vm) h = tt
  booted-Kept cid m u (err e, vm) h = h

  inner-Kept :
      (out : Out) (spec : WorkloadSpec) (mounts : List (PreparedMount host.fs))
      (cid guest gateway : ℕ) (m : Manager)
      → KeptOnErr m (boot_microvm_inner host out spec mounts cid guest gateway m)
  unfolding boot_microvm_inner
  inner-Kept out spec mounts cid guest gateway m =
      let finish : String → BootMeasurement → Exec Manager ℕ = λ rootfs measurement u.
        booted host cid
          (record u {
            attestation =
                registered host cid measurement (context_for host spec guest gateway) u.attestation;
          })
          (boot host.fs host.hypervisor spec cid mounts rootfs (host.interface_of cid) gateway
            out.vm) in
      lift-Kept m out.oci_to_erofs (λ rootfs. lift out.boot_measurement >>= finish rootfs)
        λ rootfs. lift-Kept m out.boot_measurement (finish rootfs) λ measurement.
          booted-Kept cid m _
            (boot host.fs host.hypervisor spec cid mounts rootfs (host.interface_of cid) gateway
              out.vm)
            (record {
              pods = refl;
              source_ips = refl;
              microvms = refl;
              probes = refl;
              allocator = refl;
              sources = refl;
            })

  then_boot-Kept :
      (out : Out) (spec : WorkloadSpec) (mounts : List (PreparedMount host.fs))
      (cid guest gateway : ℕ) (m u : Manager) (r : Result (Unit {0}))
      → Kept m u
      → KeptOnErr m (
          continue r
            (λ armed v.
              or_undo host out cid (boot_microvm_inner host out spec mounts cid guest gateway v))
            u)
  then_boot-Kept out spec mounts cid guest gateway m u (ok armed) h = KeptOnErr-trans m u _ h (
      or_undo-Kept out cid u (boot_microvm_inner host out spec mounts cid guest gateway u)
        (inner-Kept out spec mounts cid guest gateway u))
  then_boot-Kept out spec mounts cid guest gateway m u (err e) h = h

  arm_option-Kept :
      (out : Out) (cid : ℕ) (o : Option VmNetGuardAdapter) (m : Manager)
      → Kept m (arm_option host out cid o m).1
  arm_option-Kept out cid none m = unchanged m
  arm_option-Kept out cid (some g) m = record {
    pods = refl;
    source_ips = refl;
    microvms = refl;
    probes = refl;
    allocator = refl;
    sources = refl;
  }

  boot_with_cid-Kept :
      (out : Out) (spec : WorkloadSpec) (mounts : List (PreparedMount host.fs))
      (guest gateway cid : ℕ) (m : Manager)
      → KeptOnErr m (boot_with_cid host out spec mounts guest gateway cid m)
  boot_with_cid-Kept out spec mounts guest gateway cid m =
      let armed = arm_guard host out cid m in
      then_boot-Kept out spec mounts cid guest gateway m armed.1 armed.0
        (arm_option-Kept out cid m.net_guard m)

  pub boot_microvm-Kept :
      (out : Out) (spec : WorkloadSpec) (mounts : List (PreparedMount host.fs)) (guest gateway : ℕ)
      (m : Manager)
      → KeptOnErr m (boot_microvm host out spec mounts guest gateway m)
  unfolding boot_microvm
  boot_microvm-Kept out spec mounts guest gateway m =
      lift-Kept m (validate_microvm_mounts mounts)
        (λ valid. allocate_cid host >>= boot_with_cid host out spec mounts guest gateway)
        λ valid.
          let (cid, a) = allocate m.cid_allocator in
          KeptOnErr-trans m (record m { cid_allocator = a }) _
            (record {
              pods = refl;
              source_ips = refl;
              microvms = refl;
              probes = refl;
              allocator = refl;
              sources = refl;
            })
            (boot_with_cid-Kept out spec mounts guest gateway cid (record m { cid_allocator = a }))

  pub boot_runtime-Kept :
      (runtime : RuntimeKind) (out : Out) (spec : WorkloadSpec)
      (mounts : List (PreparedMount host.fs)) (wl gw : ℕ) (m : Manager)
      → KeptOnErr m (boot_runtime host runtime out spec mounts wl gw m)
  unfolding boot_runtime
  boot_runtime-Kept containerd out spec mounts wl gw m = boot_containerd-Kept out spec m
  boot_runtime-Kept cloud_hypervisor out spec mounts wl gw m =
      boot_microvm-Kept out spec mounts wl gw m
