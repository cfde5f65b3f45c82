-- ===== src/Workloads/Manager/Failed.antt =====
-- The boots of src/workloads/mod.rs that fail.
use fleetos_agent.Prelude.{
  ℕ, String, Option, none, some, List, Bytes, ◌≡◌, refl, ap, ◌∙◌, inl, subst, arith,
}
use fleetos_agent.Errors.{AgentError, workload, Result, ok, err}
use fleetos_agent.Exec.{Exec, reads, continue, ◌>>=◌, ◌>>◌}
use fleetos_agent.Collections.Key.{nat_key, string_key}
use fleetos_agent.Collections.HashMap.{lookup}
use fleetos_agent.Workloads.IpAllocator.{NodeIpAllocator, allocate_microvm_pair}
use fleetos_agent.Workloads.IpAllocator.Invariant.{IsValid}
use fleetos_agent.Workloads.IpAllocator.Pairs.{PairAllocated, pair_safe}
use fleetos_agent.Workloads.IpAllocator.Release.{HasNone, release_undoes_pair}
use fleetos_agent.Workloads.Manager.{
  Host, change, or_workload_id, register_in, workload_fingerprint, mounts_of, request_key,
}
use fleetos_agent.Workloads.Manager.Boot.{boot_addressed, boot_pod}
use fleetos_agent.Workloads.Manager.Leaks.{Manager, Out, Kept}
use fleetos_agent.Workloads.Messages.{PodSpec}
use fleetos_agent.Workloads.MicroVm.{required_pod_spec}
use fleetos_agent.Workloads.Reconciler.{WorkloadSpec}
use fleetos_agent.Workloads.Volumes.{PreparedMount}
use fleetos_agent.Workloads.Manager.Undone.{
  SameOwners, Forgotten, Whole, WholeOnErr, launch, register_in-Whole,
}

module _ (host : Host) where
  -- The allocation, by what it yields.
  allocated-Whole :
      (out : Out host) (pod_id : String) (spec : WorkloadSpec) (pod_spec : PodSpec)
      (mounts : List (PreparedMount host.fs)) (fp : Bytes) (m : Manager host) (r : Result (ℕ × ℕ))
      (b : NodeIpAllocator)
      → IsValid m.ip_allocator
      → HasNone m.ip_allocator pod_id
      → allocate_microvm_pair pod_id m.ip_allocator ≡ (r, b)
      → WholeOnErr host m (
          continue r
            (λ pair u.
              let registered = register_in host pod_id pair.1 fp u.src_identity u in
              continue registered.0
                (launch host out pod_id spec pod_spec mounts fp pair.0 pair.1)
                registered.1)
            (record m { ip_allocator = b }))
  allocated-Whole out pod_id spec pod_spec mounts fp m (err e) b v fresh q =
      let failed =
        subst (PairAllocated m.ip_allocator pod_id) q (pair_safe m.ip_allocator pod_id v) in
      record {
        pods = refl;
        source_ips = refl;
        microvms = refl;
        probes = refl;
        sources = λ ip. inl refl;
        owners = λ o. ap (λ a. lookup o a.allocated) failed.0;
      }
  allocated-Whole out pod_id spec pod_spec mounts fp m (ok (gw, wl)) b v fresh q =
      register_in-Whole host out pod_id spec pod_spec mounts fp gw wl m
        (record m { ip_allocator = b }) m.src_identity refl
        (record {
          next = (pod_id, gw, b, q);
          registry = refl;
          pods = refl;
          source_ips = refl;
          microvms = refl;
          probes = refl;
          given_back = (release_undoes_pair m.ip_allocator b pod_id gw wl v fresh q).0;
        })

  boot_addressed-Whole :
      (out : Out host) (pod_id : String) (spec : WorkloadSpec) (pod_spec : PodSpec)
      (mounts : List (PreparedMount host.fs)) (fp : Bytes) (m : Manager host)
      → IsValid m.ip_allocator
      → HasNone m.ip_allocator pod_id
      → WholeOnErr host m (boot_addressed host out pod_id spec pod_spec mounts fp m)
  unfolding boot_addressed
  boot_addressed-Whole out pod_id spec pod_spec mounts fp m v fresh =
      let (r, b) = allocate_microvm_pair pod_id m.ip_allocator in
      allocated-Whole out pod_id spec pod_spec mounts fp m r b v fresh refl

  lift-Whole :
      {A : Type 0} (m u : Manager host) (r : Result A) (f : A → Exec (Manager host) ℕ)
      → Whole host m u
      → ((a : A) → r ≡ ok a → WholeOnErr host m (f a u))
      → WholeOnErr host m (continue r f u)
  lift-Whole m u (ok a) f h rest = rest a refl
  lift-Whole m u (err e) f h rest = h

  Whole-same :
      (m u : Manager host) (run : Result ℕ × Manager host)
      → Kept host m u
      → WholeOnErr host u run
      → WholeOnErr host m run
  Whole-same m u (ok handle, v) k h = tt
  Whole-same m u (err e, v) k h = record {
    pods = h.pods ∙ k.pods;
    source_ips = h.source_ips ∙ k.source_ips;
    microvms = h.microvms ∙ k.microvms;
    probes = h.probes ∙ k.probes;
    owners = subst (λ a. SameOwners a v.ip_allocator) k.allocator h.owners;
    sources =
        subst (λ a. Forgotten host a m.src_identity v.src_identity) k.allocator
          (subst (λ o. Forgotten host u.ip_allocator o v.src_identity) k.sources h.sources);
  }

  untouched : (m : Manager host) → Whole host m m
  untouched m = record {
    pods = refl;
    source_ips = refl;
    microvms = refl;
    probes = refl;
    owners = λ o. refl;
    sources = λ ip. inl refl;
  }

  required_pod_spec-ok :
      (o : Option PodSpec) (e : AgentError) (ps : PodSpec)
      → required_pod_spec o e ≡ ok ps
      → o ≡ some ps
  required_pod_spec-ok none e ps h = absurd (ground arith)
  required_pod_spec-ok (some p) e ps h = ground arith

  -- The boot of a pod, from a valid allocator in which the pod holds no address, when it fails, whatever failed:
  -- the records of pods, of machines, of source addresses and of probes are those of before, every
  -- address has the owner that it had, and every address has the source in the kernel's registry that it had,
  -- except that the one address that was to be given has none, unless the kernel refuses to remove it.
  -- Scratch directories, counters and CIDs are not given back.
  pub failed_boot_is_undone :
      (out : Out host) (spec : WorkloadSpec) (m : Manager host)
      → IsValid m.ip_allocator
      → ((pod_spec : PodSpec)
          → spec.pod_spec ≡ some pod_spec
          → HasNone m.ip_allocator (or_workload_id pod_spec.pod_id spec.workload_id))
      → WholeOnErr host m (boot_pod host out spec m)
  unfolding boot_pod
  failed_boot_is_undone out spec m v fresh =
      let addressed : PodSpec → List (PreparedMount host.fs) → Bytes → Exec (Manager host) ℕ =
        λ ps mounts fp.
          change host (request_key host out spec ps)
          >> boot_addressed host out (or_workload_id ps.pod_id spec.workload_id) spec ps mounts
              fp in
      let identified : PodSpec → List (PreparedMount host.fs) → Exec (Manager host) ℕ = λ ps mounts.
        reads
          (λ u. workload_fingerprint host u.trust_domain ps.tenant_id spec.workload_id spec.role)
        >>= addressed ps mounts in
      lift-Whole m m (required_pod_spec spec.pod_spec (workload "boot requires full PodSpec"))
        (λ ps. mounts_of host (or_workload_id ps.pod_id spec.workload_id) ps >>= identified ps)
        (untouched m)
        λ ps e.
          let given = required_pod_spec-ok spec.pod_spec _ ps e in
          let (prepared, u) = mounts_of host (or_workload_id ps.pod_id spec.workload_id) ps m in
          lift-Whole m u prepared (identified ps)
            (record {
              pods = refl;
              source_ips = refl;
              microvms = refl;
              probes = refl;
              owners = λ o. refl;
              sources = λ ip. inl refl;
            })
            λ mounts e2.
              lift-Whole m u
                (workload_fingerprint host u.trust_domain ps.tenant_id spec.workload_id spec.role)
                (addressed ps mounts)
                (record {
                  pods = refl;
                  source_ips = refl;
                  microvms = refl;
                  probes = refl;
                  owners = λ o. refl;
                  sources = λ ip. inl refl;
                })
                λ fp e3.
                  Whole-same m (request_key host out spec ps u) _
                    (record {
                      pods = refl;
                      source_ips = refl;
                      microvms = refl;
                      probes = refl;
                      allocator = refl;
                      sources = refl;
                    })
                    (boot_addressed-Whole out (or_workload_id ps.pod_id spec.workload_id) spec ps
                      mounts fp (request_key host out spec ps u) v (fresh ps given))
