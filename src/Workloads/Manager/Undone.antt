-- ===== src/Workloads/Manager/Undone.antt =====
-- The part of a boot in src/workloads/mod.rs that follows the allocation of the addresses, where it fails.
use fleetos_agent.Prelude.{
  ℕ, String, Bool, true, false, Option, none, some, List, Bytes, ◌≡◌, sym, ◌∙◌, subst, ◌⊎◌, inl,
  inr, refl, ap, arith, Bool-cases, ◌==◌, ==_iff,
}
use fleetos_agent.Errors.{AgentError, Result-cases, Result, ok, err}
use fleetos_agent.Exec.{Exec, continue, ◌>>◌}
use fleetos_agent.Collections.Key.{nat_key, string_key}
use fleetos_agent.Collections.HashMap.{lookup}
use fleetos_agent.Workloads.IpAllocator.{
  NodeIpAllocator, allocate_microvm_pair, release_microvm_pair,
}
use fleetos_agent.Workloads.Manager.{
  Host, change, register_in, registered_in, prepopulate, unregistered, undo_registration,
}
use fleetos_agent.Workloads.Manager.Boot.{boot_runtime, settled}
use fleetos_agent.Workloads.Manager.Leaks.{Manager, Out, KeptOnErr, boot_runtime-Kept}
use fleetos_agent.Workloads.Messages.{PodSpec}
use fleetos_agent.Workloads.Reconciler.{WorkloadSpec}
use fleetos_agent.Workloads.Volumes.{PreparedMount}

-- Every offset has the owner of before.
abbrev pub SameOwners : NodeIpAllocator → NodeIpAllocator → Type 0
SameOwners a b = (o : ℕ) → lookup o b.allocated ≡ lookup o a.allocated

-- An address that the allocator gives next for the workload of a pair.
abbrev pub NextAddress : NodeIpAllocator → ℕ → Type 0
NextAddress a ip =
    (pod_id : String) × (gateway : ℕ) × (b : NodeIpAllocator) × (allocate_microvm_pair pod_id a
      ≡ (ok (gateway, ip), b))

module _ (host : Host) where
  abbrev pub Sources : Type 0
  Sources = Option host.src_identity_map.Space

  abbrev pub source_of : ℕ → Sources → Option Bytes
  source_of ip none = none
  source_of ip (some s) = host.src_identity_map.entry ip s

  abbrev pub CannotRemove : ℕ → Type 0
  CannotRemove ip =
      (s : host.src_identity_map.Space) × (e : AgentError) × (host.src_identity_map.remove ip s
        ≡ err e)

  -- Each address has the source that it had, but the one that was to be given: it has none, unless the kernel
  -- refuses to remove it.
  abbrev pub Forgotten : NodeIpAllocator → Sources → Sources → Type 0
  Forgotten a before after =
      (ip : ℕ)
      → (source_of ip after ≡ source_of ip before)
        ⊎ (NextAddress a ip × ((source_of ip after ≡ none) ⊎ CannotRemove ip))

  -- What was recorded of the pod is undone: in the records of pods, machines, source addresses and
  -- probes, in the owners of addresses, and in the registry of sources.
  pub record Whole (m u : Manager host) : Type 0 where
    pub pods : u.pods ≡ m.pods
    pub source_ips : u.pod_source_ips ≡ m.pod_source_ips
    pub microvms : u.microvms ≡ m.microvms
    pub probes : u.probes ≡ m.probes
    pub owners : SameOwners m.ip_allocator u.ip_allocator
    pub sources : Forgotten m.ip_allocator m.src_identity u.src_identity

  abbrev pub WholeOnErr : Manager host → Result ℕ × Manager host → Type 0
  WholeOnErr m (ok handle, u) = Unit
  WholeOnErr m (err e, u) = Whole m u

  -- The registry after the registration.
  abbrev pub RegisteredAs : Bool → ℕ → Bytes → Sources → Sources → Type 0
  RegisteredAs false ip fp before after = after ≡ before
  RegisteredAs true ip fp before after =
      (s : host.src_identity_map.Space) × (t : host.src_identity_map.Space) × (before ≡ some s)
      × (host.src_identity_map.insert ip fp s ≡ ok t)
      × (after ≡ some t)

  undone-Forgotten :
      (a : NodeIpAllocator) (wl : ℕ) (fp : Bytes) (s t : host.src_identity_map.Space)
      → NextAddress a wl
      → host.src_identity_map.insert wl fp s ≡ ok t
      → Forgotten a (some s) (unregistered host wl (some t))
  undone-Forgotten a wl fp s t next inserted ip =
      let registry = host.src_identity_map in
      elim (Bool-cases (wl == ip)) [
        | inr other ↦ inl (elim (Result-cases (registry.remove wl t)) [
          | inl (u, q) ↦ ground (
            arith,
            q,
            other,
            registry.entry-remove wl ip t u q,
            registry.entry-insert wl ip fp s t inserted,
          )
          | inr (e, q) ↦ ground (arith, q, other, registry.entry-insert wl ip fp s t inserted)
        ])
        | inl same ↦
            let at : wl ≡ ip = ground (arith, ==_iff wl ip) in
            inr (
              subst (NextAddress a) at next,
              elim (Result-cases (registry.remove wl t)) [
                | inl (u, q) ↦ inl (ground (arith, q, same, registry.entry-remove wl ip t u q))
                | inr (e, q) ↦ inr (subst CannotRemove at (t, e, q))
              ],
            )
      ]

  settled-Forgotten :
      (a : NodeIpAllocator) (is_registered : Bool) (wl : ℕ) (fp : Bytes) (before : Sources)
      (m : Manager host)
      → NextAddress a wl
      → RegisteredAs is_registered wl fp before m.src_identity
      → Forgotten a before (undo_registration host is_registered wl m).src_identity
  settled-Forgotten a false wl fp before m next h = λ ip. inl (ap (source_of ip) h)
  settled-Forgotten a true wl fp before m next (s, t, was, inserted, now) =
      subst (λ o. Forgotten a before (unregistered host wl o)) (sym now)
        (subst (λ o. Forgotten a o (unregistered host wl (some t))) (sym was)
          (undone-Forgotten a wl fp s t next inserted))

  -- The state in which a pair is allocated, and at most the source of its address is registered.
  pub record Paired (pod_id : String) (wl : ℕ) (fp : Bytes) (is_registered : Bool)
      (m u : Manager host) : Type 0 where
    pub pods : u.pods ≡ m.pods
    pub source_ips : u.pod_source_ips ≡ m.pod_source_ips
    pub microvms : u.microvms ≡ m.microvms
    pub probes : u.probes ≡ m.probes
    pub given_back : SameOwners m.ip_allocator (release_microvm_pair pod_id u.ip_allocator)
    pub next : NextAddress m.ip_allocator wl
    pub registry : RegisteredAs is_registered wl fp m.src_identity u.src_identity

  settled-Whole :
      (out : Out host) (pod_id : String) (spec : WorkloadSpec) (pod_spec : PodSpec) (fp : Bytes)
      (wl : ℕ) (is_registered : Bool) (m u : Manager host) (run : Result ℕ × Manager host)
      → Paired pod_id wl fp is_registered m u
      → KeptOnErr host u run
      → WholeOnErr m (settled host out pod_id spec pod_spec fp wl is_registered run)
  settled-Whole out pod_id spec pod_spec fp wl is_registered m u (ok handle, v) p k = tt
  settled-Whole out pod_id spec pod_spec fp wl true m u (err e, v) p k = record {
    sources =
        settled-Forgotten m.ip_allocator true wl fp m.src_identity v p.next
          (subst (RegisteredAs true wl fp m.src_identity) (sym k.sources) p.registry);
    pods = k.pods ∙ p.pods;
    source_ips = k.source_ips ∙ p.source_ips;
    microvms = k.microvms ∙ p.microvms;
    probes = k.probes ∙ p.probes;
    owners =
        subst (λ a. SameOwners m.ip_allocator (release_microvm_pair pod_id a)) (sym k.allocator)
          p.given_back;
  }
  settled-Whole out pod_id spec pod_spec fp wl false m u (err e, v) p k = record {
    sources =
        settled-Forgotten m.ip_allocator false wl fp m.src_identity v p.next
          (subst (RegisteredAs false wl fp m.src_identity) (sym k.sources) p.registry);
    pods = k.pods ∙ p.pods;
    source_ips = k.source_ips ∙ p.source_ips;
    microvms = k.microvms ∙ p.microvms;
    probes = k.probes ∙ p.probes;
    owners =
        subst (λ a. SameOwners m.ip_allocator (release_microvm_pair pod_id a)) (sym k.allocator)
          p.given_back;
  }

  -- The steps after the registration.
  abbrev pub launch :
      Out host
      → String
      → WorkloadSpec
      → PodSpec
      → List (PreparedMount host.fs)
      → Bytes
      → ℕ
      → ℕ
      → Bool
      → Exec (Manager host) ℕ
  launch out pod_id spec pod_spec mounts fp gw wl is_registered =
      change host (prepopulate host wl) >> λ u.
      settled host out pod_id spec pod_spec fp wl is_registered
        (boot_runtime host spec.runtime out spec mounts wl gw u)

  launch-Whole :
      (out : Out host) (pod_id : String) (spec : WorkloadSpec) (pod_spec : PodSpec)
      (mounts : List (PreparedMount host.fs)) (fp : Bytes) (gw wl : ℕ) (is_registered : Bool)
      (m u : Manager host)
      → Paired pod_id wl fp is_registered m u
      → WholeOnErr m (launch out pod_id spec pod_spec mounts fp gw wl is_registered u)
  launch-Whole out pod_id spec pod_spec mounts fp gw wl is_registered m u p =
      settled-Whole out pod_id spec pod_spec fp wl is_registered m (prepopulate host wl u) _
        (record {
          pods = p.pods;
          source_ips = p.source_ips;
          microvms = p.microvms;
          probes = p.probes;
          given_back = p.given_back;
          next = p.next;
          registry = p.registry;
        })
        (boot_runtime-Kept host spec.runtime out spec mounts wl gw (prepopulate host wl u))

  registered_in-Whole :
      (out : Out host) (pod_id : String) (spec : WorkloadSpec) (pod_spec : PodSpec)
      (mounts : List (PreparedMount host.fs)) (fp : Bytes) (gw wl : ℕ) (m u : Manager host)
      (s : host.src_identity_map.Space) (r : Result host.src_identity_map.Space)
      → u.src_identity ≡ some s
      → host.src_identity_map.insert wl fp s ≡ r
      → Paired pod_id wl fp false m u
      → let registered = registered_in host pod_id u r in
        WholeOnErr m
          (continue registered.0 (launch out pod_id spec pod_spec mounts fp gw wl) registered.1)
  registered_in-Whole out pod_id spec pod_spec mounts fp gw wl m u s (ok t) was inserted p =
      launch-Whole out pod_id spec pod_spec mounts fp gw wl true m
        (record u { src_identity = some t })
        (record {
          pods = p.pods;
          source_ips = p.source_ips;
          microvms = p.microvms;
          probes = p.probes;
          given_back = p.given_back;
          next = p.next;
          registry = (s, t, sym p.registry ∙ was, inserted, refl);
        })
  registered_in-Whole out pod_id spec pod_spec mounts fp gw wl m u s (err e) was inserted p =
      record {
        sources = λ ip. inl (ap (source_of ip) p.registry);
        pods = p.pods;
        source_ips = p.source_ips;
        microvms = p.microvms;
        probes = p.probes;
        owners = p.given_back;
      }

  pub register_in-Whole :
      (out : Out host) (pod_id : String) (spec : WorkloadSpec) (pod_spec : PodSpec)
      (mounts : List (PreparedMount host.fs)) (fp : Bytes) (gw wl : ℕ) (m u : Manager host)
      (o : Sources)
      → u.src_identity ≡ o
      → Paired pod_id wl fp false m u
      → let registered = register_in host pod_id wl fp o u in
        WholeOnErr m
          (continue registered.0 (launch out pod_id spec pod_spec mounts fp gw wl) registered.1)
  register_in-Whole out pod_id spec pod_spec mounts fp gw wl m u none was p =
      launch-Whole out pod_id spec pod_spec mounts fp gw wl false m u p
  register_in-Whole out pod_id spec pod_spec mounts fp gw wl m u (some s) was p =
      registered_in-Whole out pod_id spec pod_spec mounts fp gw wl m u s
        (host.src_identity_map.insert wl fp s) was refl p
