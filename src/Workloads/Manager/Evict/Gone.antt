-- ===== src/Workloads/Manager/Evict/Gone.antt =====
-- How the evictions of src/workloads/mod.rs end.
use fleetos_agent.Prelude.{
  ℕ, String, false, Option, none, some, ◌≡◌, refl, sym, ap, ◌∙◌, subst, arith, inl, inr,
  Option-cases, Bool-cases,
}
use fleetos_agent.Errors.{Result, ok, err}
use fleetos_agent.Exec.{continue}
use fleetos_agent.Collections.Key.{nat_key, string_key}
use fleetos_agent.Collections.HashMap.{lookup, remove, lookup-insert, lookup-remove}
use fleetos_agent.Workloads.IpAllocator.{NodeIpAllocator, release_microvm_pair}
use fleetos_agent.Workloads.IpAllocator.Invariant.{IsValid}
use fleetos_agent.Workloads.IpAllocator.Release.{HasNone, owns_pair, release_safe}
use fleetos_agent.Workloads.Manager.{Host, WorkloadManager}
use fleetos_agent.Workloads.Manager.Evict.{
  Away, begin, after_stop, stop_machine, stop_runtime, give_back, forget_address, remove_record,
  finish_eviction, evict_known, evict_found, found_pod, evict_pod, unwrap_or_zero,
}
use fleetos_agent.Workloads.MicroVm.{stop}
use fleetos_agent.Workloads.Pods.{Pod, RuntimeKind, containerd, cloud_hypervisor, begin_eviction}
use fleetos_agent.Workloads.Volumes.{teardown_pod_scratch}
use fleetos_agent.Workloads.Volumes.Closed.{teardown_removes}
use text.Mathlib.TextEquality.{eq_iff}

-- After a release the pod holds no address.
release-HasNone :
    (a : NodeIpAllocator) (pod_id : String)
    → IsValid a
    → HasNone (release_microvm_pair pod_id a) pod_id
release-HasNone a pod_id v = λ o.
    let owner = (release_safe a pod_id v).1.owners o in
    elim (Option-cases (lookup o a.allocated)) [
      | inl q ↦ ground (arith, owner, q)
      | inr (pid, q) ↦ elim (Bool-cases (owns_pair pod_id pid)) [
        | inl mine ↦ ground (arith, owner, q, mine)
        | inr other ↦ ground (arith, owner, q, other)
      ]
    ]

module _ (host : Host) where
  abbrev Manager : Type 0
  Manager = WorkloadManager host

  -- What becomes of the addresses: they are given back where the pod's address was recorded, and only there.
  abbrev pub Returned : String → Option ℕ → Manager → Manager → Type 0
  Returned pod_id none m u = u.ip_allocator ≡ m.ip_allocator
  Returned pod_id (some src_ip) m u = IsValid u.ip_allocator × HasNone u.ip_allocator pod_id

  Returned-same :
      (pod_id : String) (o : Option ℕ) (m u v : Manager)
      → v.ip_allocator ≡ u.ip_allocator
      → Returned pod_id o m u
      → Returned pod_id o m v
  Returned-same pod_id none m u v e h = e ∙ h
  Returned-same pod_id (some src_ip) m u v e h = subst (λ a. IsValid a × HasNone a pod_id) (sym e) h

  -- Nothing of the pod is left.
  pub record Gone (pod_id : String) (m u : Manager) : Type 0 where
    pub no_pod : lookup pod_id u.pods ≡ none
    pub no_source_ip : lookup pod_id u.pod_source_ips ≡ none
    pub no_scratch :
        host.fs.exists u.disk (host.fs.join u.volume_config.scratch_root pod_id) ≡ false
    pub addresses : Returned pod_id (lookup pod_id m.pod_source_ips) m u

  -- The end of an eviction of a pod that was there.
  abbrev pub Ended : String → Pod → Manager → Result (Unit {0}) × Manager → Type 0
  Ended pod_id pod m (ok u, v) = Gone pod_id m v
  Ended pod_id pod m (err e, v) = lookup pod_id v.pods ≡ some (begin_eviction pod)

  -- The state after the stop.
  record Stopped (pod_id : String) (pod : Pod) (m v : Manager) : Type 0 where
    entry : lookup pod_id v.pods ≡ some (begin_eviction pod)
    source_ips : v.pod_source_ips ≡ m.pod_source_ips
    allocator : v.ip_allocator ≡ m.ip_allocator

  -- The state after the addresses were given back.
  record Forgotten (pod_id : String) (pod : Pod) (m v : Manager) : Type 0 where
    entry : lookup pod_id v.pods ≡ some (begin_eviction pod)
    no_source_ip : lookup pod_id v.pod_source_ips ≡ none
    addresses : Returned pod_id (lookup pod_id m.pod_source_ips) m v

  give_back-Forgotten :
      (away : Away host) (runtime : RuntimeKind) (pod_id : String) (pod : Pod) (m v : Manager)
      (o : Option ℕ)
      → IsValid m.ip_allocator
      → lookup pod_id m.pod_source_ips ≡ o
      → lookup pod_id v.pods ≡ some (begin_eviction pod)
      → lookup pod_id v.pod_source_ips ≡ none
      → v.ip_allocator ≡ m.ip_allocator
      → Forgotten pod_id pod m (give_back host away runtime pod_id o v)
  give_back-Forgotten away runtime pod_id pod m v none valid found e n a = record {
    entry = e;
    no_source_ip = n;
    addresses = rw found a;
  }
  give_back-Forgotten away runtime pod_id pod m v (some src_ip) valid found e n a = record {
    entry = e;
    no_source_ip = n;
    addresses =
        let valid_v : IsValid v.ip_allocator = subst IsValid (sym a) valid in
        rw found (
          (release_safe v.ip_allocator pod_id valid_v).1.valid,
          release-HasNone v.ip_allocator pod_id valid_v,
        );
  }

  forget_address-Forgotten :
      (away : Away host) (runtime : RuntimeKind) (pod_id : String) (pod : Pod) (m v : Manager)
      → IsValid m.ip_allocator
      → Stopped pod_id pod m v
      → Forgotten pod_id pod m (forget_address host away runtime pod_id v)
  forget_address-Forgotten away runtime pod_id pod m v valid s =
      give_back-Forgotten away runtime pod_id pod m
        (record v { pod_source_ips = remove pod_id v.pod_source_ips })
        (lookup pod_id v.pod_source_ips) valid (ap (lookup pod_id) (sym s.source_ips)) s.entry
        (ground (arith, lookup-remove pod_id pod_id v.pod_source_ips, eq_iff pod_id pod_id))
        s.allocator

  teardown-Ended :
      (pod_id : String) (pod : Pod) (m v : Manager) (r : Result (Unit {0})) (disk : host.fs.Disk)
      → teardown_pod_scratch host.fs v.volume_config pod_id v.disk ≡ (r, disk)
      → Forgotten pod_id pod m v
      → Ended pod_id pod m
          (continue r (λ torn u. (ok tt, remove_record host pod_id u)) (record v { disk = disk }))
  teardown-Ended pod_id pod m v (ok u) disk e f = record {
    no_pod = ground (arith, lookup-remove pod_id pod_id v.pods, eq_iff pod_id pod_id);
    no_source_ip = f.no_source_ip;
    no_scratch = teardown_removes host.fs v.volume_config pod_id v.disk disk e;
    addresses =
        Returned-same pod_id (lookup pod_id m.pod_source_ips) m v
          (record v { disk = disk; pods = remove pod_id v.pods }) refl f.addresses;
  }
  teardown-Ended pod_id pod m v (err e') disk e f = f.entry

  finish_eviction-Ended :
      (away : Away host) (runtime : RuntimeKind) (pod_id : String) (pod : Pod) (m v : Manager)
      → IsValid m.ip_allocator
      → Stopped pod_id pod m v
      → Ended pod_id pod m (finish_eviction host away runtime pod_id v)
  unfolding finish_eviction
  finish_eviction-Ended away runtime pod_id pod m v valid s =
      let w = forget_address host away runtime pod_id v in
      let torn = teardown_pod_scratch host.fs w.volume_config pod_id w.disk in
      teardown-Ended pod_id pod m w torn.0 torn.1 refl
        (forget_address-Forgotten away runtime pod_id pod m v valid s)

  -- The stop, and what follows it.
  abbrev StoppedRun : String → Pod → Manager → Result (Unit {0}) × Manager → Type 0
  StoppedRun pod_id pod m (r, v) = Stopped pod_id pod m v

  after_stop-Stopped :
      (away : Away host) (handle : ℕ) (r : Result (Unit {0})) (pod_id : String) (pod : Pod)
      (m v : Manager)
      → Stopped pod_id pod m v
      → StoppedRun pod_id pod m (after_stop host away handle r v)
  after_stop-Stopped away handle (err e) pod_id pod m v s = s
  after_stop-Stopped away handle (ok u) pod_id pod m v s = record {
    entry = s.entry;
    source_ips = s.source_ips;
    allocator = s.allocator;
  }

  stop_machine-Stopped :
      (away : Away host) (handle : ℕ) (o : Option host.hypervisor.Vm) (pod_id : String) (pod : Pod)
      (m v : Manager)
      → Stopped pod_id pod m v
      → StoppedRun pod_id pod m (stop_machine host away handle o v)
  stop_machine-Stopped away handle none pod_id pod m v s = record {
    entry = s.entry;
    source_ips = s.source_ips;
    allocator = s.allocator;
  }
  stop_machine-Stopped away handle (some vm) pod_id pod m v s =
      after_stop-Stopped away handle (stop host.fs host.hypervisor vm).0 pod_id pod m
        (record v { microvms = remove handle v.microvms })
        (record { entry = s.entry; source_ips = s.source_ips; allocator = s.allocator })

  stop_runtime-Stopped :
      (away : Away host) (runtime : RuntimeKind) (handle : ℕ) (pod_id : String) (pod : Pod)
      (m v : Manager)
      → Stopped pod_id pod m v
      → StoppedRun pod_id pod m (stop_runtime host away runtime handle v)
  stop_runtime-Stopped away containerd handle pod_id pod m v s = s
  stop_runtime-Stopped away cloud_hypervisor handle pod_id pod m v s =
      stop_machine-Stopped away handle (lookup handle v.microvms) pod_id pod m v s

  then_finish-Ended :
      (away : Away host) (pod_id : String) (pod : Pod) (m v : Manager) (r : Result (Unit {0}))
      → IsValid m.ip_allocator
      → Stopped pod_id pod m v
      → Ended pod_id pod m (continue r (λ stopped. finish_eviction host away pod.runtime pod_id) v)
  then_finish-Ended away pod_id pod m v (ok u) valid s =
      finish_eviction-Ended away pod.runtime pod_id pod m v valid s
  then_finish-Ended away pod_id pod m v (err e) valid s = s.entry

  evict_known-Ended :
      (away : Away host) (pod_id : String) (pod : Pod) (m : Manager)
      → IsValid m.ip_allocator
      → Ended pod_id pod m (evict_known host away pod_id pod m)
  unfolding evict_known
  evict_known-Ended away pod_id pod m valid =
      let v = begin host pod_id pod m in
      let stopped = stop_runtime host away pod.runtime (unwrap_or_zero host pod.pid) v in
      then_finish-Ended away pod_id pod m stopped.1 stopped.0 valid (
        stop_runtime-Stopped away pod.runtime (unwrap_or_zero host pod.pid) pod_id pod m v (record {
          entry = ground (
            arith,
            lookup-insert pod_id pod_id (begin_eviction pod) m.pods,
            eq_iff pod_id pod_id,
          );
          source_ips = refl;
          allocator = refl;
        }))

  -- How an eviction may end, by whether the node has the pod.
  abbrev pub Evicted : String → Option Pod → Manager → Result (Unit {0}) × Manager → Type 0
  Evicted pod_id (some pod) m run = Ended pod_id pod m run
  Evicted pod_id none m (ok u, v) = ⊥
  Evicted pod_id none m (err e, v) = v ≡ m

  evict_found-Evicted :
      (away : Away host) (pod_id : String) (o : Option Pod) (m : Manager)
      → IsValid m.ip_allocator
      → Evicted pod_id o m (evict_found host away pod_id (found_pod host o) m)
  evict_found-Evicted away pod_id none m valid = refl
  evict_found-Evicted away pod_id (some pod) m valid = evict_known-Ended away pod_id pod m valid

  -- An eviction from a valid allocator: of a pod that the node does not have it fails and changes nothing.
  -- Of a pod that it has, when it succeeds, the pod has no record, no recorded source address and no scratch
  -- directory, and its addresses are given back where its source address had been recorded, else the
  -- allocator is unchanged. When it fails, the pod keeps its record, in the state in which its eviction began.
  pub evict_pod-Evicted :
      (away : Away host) (pod_id : String) (m : Manager)
      → IsValid m.ip_allocator
      → Evicted pod_id (lookup pod_id m.pods) m (evict_pod host away pod_id m)
  unfolding evict_pod
  evict_pod-Evicted away pod_id m valid =
      evict_found-Evicted away pod_id (lookup pod_id m.pods) m valid
