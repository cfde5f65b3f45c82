-- ===== src/Workloads/IpAllocator/Release.antt =====
-- The releases of the allocator of src/workloads/mod.rs.
use fleetos_agent.Prelude.{
  ℕ, ◌+◌, ◌-◌, String, Bool, true, false, ◌||◌, ◌≡◌, refl, subst, arith, inl, inr, Option-cases,
}
use fleetos_agent.Errors.{ok}
use fleetos_agent.Collections.Key.{nat_key, string_key}
use fleetos_agent.Collections.HashSet.{contains}
use fleetos_agent.Collections.HashMap.{lookup}
use fleetos_agent.Workloads.IpAllocator.{
  NodeIpAllocator, release_where, release, gateway_of, allocate_microvm_pair, release_microvm_pair,
}
use fleetos_agent.Workloads.IpAllocator.Laws.{
  keep_unless, belongs?, lookup-kept, kept-Unique, contains-freed,
}
use text.Mathlib.Text.{◌==◌ as str_eq}
use text.Mathlib.TextEquality.{eq_iff}
use fleetos_agent.Workloads.IpAllocator.Pairs.{PairAllocated, pair_safe}
use fleetos_agent.Workloads.IpAllocator.Invariant.{IsUsed, IsValid}

-- What a release by a test on the owner does.
pub record IsReleased (a a' : NodeIpAllocator) (belongs : String → Bool) : Type 0 where
  pub owners : (o : ℕ) → lookup o a'.allocated ≡ keep_unless belongs (lookup o a.allocated)
  pub frees :
      (o : ℕ) → contains o a'.free ≡ (contains o a.free || belongs? belongs (lookup o a.allocated))
  pub same_range :
      (a'.base ≡ a.base) × (a'.host_count ≡ a.host_count) × (a'.next_offset ≡ a.next_offset)
  pub valid : IsValid a'

IsUsed-where :
    (a : NodeIpAllocator) (belongs : String → Bool) (o : ℕ)
    → IsValid a
    → belongs? belongs (lookup o a.allocated) ≡ true
    → IsUsed a o
IsUsed-where a belongs o v h = elim (Option-cases (lookup o a.allocated)) [
  | inl q ↦ absurd (ground arith)
  | inr (pid, q) ↦ v.used o pid q
]

release_where-IsReleased :
    (a : NodeIpAllocator) (belongs : String → Bool)
    → IsValid a
    → IsReleased a (release_where belongs a) belongs
release_where-IsReleased a belongs v = record {
  owners = λ o. lookup-kept belongs o a.allocated v.unique;
  frees = λ o. contains-freed belongs o a.allocated a.free v.unique;
  same_range = (refl, refl, refl);
  valid = record {
    unique = kept-Unique belongs a.allocated v.unique;
    started = v.started;
    used = λ o pid e. elim (Option-cases (lookup o a.allocated)) [
      | inl q ↦ absurd (ground (arith, lookup-kept belongs o a.allocated v.unique))
      | inr (p, q) ↦ v.used o p q
    ];
    free_used = λ o e. ground (
      arith,
      contains-freed belongs o a.allocated a.free v.unique,
      v.free_used o,
      IsUsed-where a belongs o v,
    );
    disjoint = λ o e. ground (
      arith,
      contains-freed belongs o a.allocated a.free v.unique,
      lookup-kept belongs o a.allocated v.unique,
      v.disjoint o,
    );
  };
}

abbrev pub owns_pair : String → String → Bool
owns_pair pod_id pid = str_eq pid pod_id || str_eq pid (gateway_of pod_id)

-- Both releases keep every valid state valid. The offsets of the owner, and for a pair those of its
-- gateway too, become free; every other owner keeps its offsets, and every free one stays free.
pub release_safe :
    (a : NodeIpAllocator) (pod_id : String)
    → IsValid a
    → IsReleased a (release pod_id a) (λ pid. str_eq pid pod_id)
      × IsReleased a (release_microvm_pair pod_id a) (owns_pair pod_id)
unfolding release release_microvm_pair
release_safe a pod_id v = (
  release_where-IsReleased a (λ pid. str_eq pid pod_id) v,
  release_where-IsReleased a (owns_pair pod_id) v,
)

-- Nobody holds an address as this pod or as its gateway.
abbrev pub HasNone : NodeIpAllocator → String → Type 0
HasNone a pod_id = (o : ℕ) → belongs? (owns_pair pod_id) (lookup o a.allocated) ≡ false

-- A pair of a pod that held none is given back whole by the release: every offset has the owner that
-- it had before, the two offsets of the pair are free, and the state is valid.
pub release_undoes_pair :
    (a b : NodeIpAllocator) (pod_id : String) (gateway workload : ℕ)
    → IsValid a
    → HasNone a pod_id
    → allocate_microvm_pair pod_id a ≡ (ok (gateway, workload), b)
    → ((o : ℕ) → lookup o (release_microvm_pair pod_id b).allocated ≡ lookup o a.allocated)
      × (contains (gateway - a.base) (release_microvm_pair pod_id b).free ≡ true)
      × (contains (workload - a.base) (release_microvm_pair pod_id b).free ≡ true)
      × IsValid (release_microvm_pair pod_id b)
release_undoes_pair a b pod_id gateway workload v fresh e =
    undone (subst (PairAllocated a pod_id) e (pair_safe a pod_id v))
  where
    undone :
        PairAllocated a pod_id (ok (gateway, workload), b)
        → ((o : ℕ) → lookup o (release_microvm_pair pod_id b).allocated ≡ lookup o a.allocated)
          × (contains (gateway - a.base) (release_microvm_pair pod_id b).free ≡ true)
          × (contains (workload - a.base) (release_microvm_pair pod_id b).free ≡ true)
          × IsValid (release_microvm_pair pod_id b)
    undone (o, g, w, pair) =
        let r = (release_safe b pod_id pair.valid).1 in
        let at_gateway : gateway - a.base ≡ o = omega arith in
        let at_workload : workload - a.base ≡ o + 1 = omega arith in
        (
          (λ q. ground (
            arith,
            r.owners q,
            pair.owned q,
            fresh q,
            pair.gateway_was_free,
            pair.workload_was_free,
            eq_iff pod_id pod_id,
            eq_iff (gateway_of pod_id) (gateway_of pod_id),
          )),
          rw at_gateway (
              ground
                (arith, r.frees o, pair.owned o, eq_iff (gateway_of pod_id) (gateway_of pod_id))),
          rw at_workload
              (ground (arith, r.frees (o + 1), pair.owned (o + 1), eq_iff pod_id pod_id)),
          r.valid,
        )
