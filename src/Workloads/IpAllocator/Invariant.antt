-- ===== src/Workloads/IpAllocator/Invariant.antt =====
-- The invariant of the allocator of src/workloads/mod.rs.
use fleetos_agent.Prelude.{
  ℕ, ◌+◌, ◌-◌, ◌^◌, ◌≤◌, ◌<◌, String, true, false, none, some, List, [], ◌==◌, ◌≡◌, refl, subst,
  arith, inl, inr, Option-cases,
}
use fleetos_agent.Errors.{ok}
use fleetos_agent.Collections.Key.{nat_key, string_key}
use fleetos_agent.Collections.HashSet.{contains}
use fleetos_agent.Collections.HashMap
use fleetos_agent.Collections.HashMap.{lookup, Unique, lookup-insert, insert-Unique}
use fleetos_agent.Workloads.IpAllocator.{NodeIpAllocator, new, masked}

-- An offset of a host address, neither the first nor the last of the range, below the next fresh one.
abbrev pub IsUsed : NodeIpAllocator → ℕ → Type 0
IsUsed a o = (1 ≤ o) × (o < a.next_offset) × (o + 1 < a.host_count)

pub record IsValid (a : NodeIpAllocator) : Type 0 where
  pub unique : Unique a.allocated
  pub started : 1 ≤ a.next_offset
  pub used : (o : ℕ) (pid : String) → lookup o a.allocated ≡ some pid → IsUsed a o
  pub free_used : (o : ℕ) → contains o a.free ≡ true → IsUsed a o
  pub disjoint : (o : ℕ) → contains o a.free ≡ true → lookup o a.allocated ≡ none

pub fresh_unallocated :
    (a : NodeIpAllocator) (o : ℕ) → IsValid a → a.next_offset ≤ o → lookup o a.allocated ≡ none
fresh_unallocated a o v h = elim (Option-cases (lookup o a.allocated)) [
  | inl q ↦ q
  | inr (pid, q) ↦ absurd (omega (arith, v.used o pid q))
]

abbrev pub claimed : NodeIpAllocator → ℕ → String → ℕ → List ℕ → NodeIpAllocator
claimed a o pod_id next free = record a {
  next_offset = next;
  free = free;
  allocated = HashMap.insert o pod_id a.allocated;
}

-- Claiming an offset of a host address keeps the invariant, where what stays free was free and is
-- another offset.
pub claimed-IsValid :
    (a : NodeIpAllocator) (o : ℕ) (pod_id : String) (next : ℕ) (free : List ℕ)
    → IsValid a
    → 1 ≤ o
    → o < next
    → o + 1 < a.host_count
    → a.next_offset ≤ next
    → ((q : ℕ) → contains q free ≡ true → (contains q a.free ≡ true) × ((q == o) ≡ false))
    → IsValid (claimed a o pod_id next free)
claimed-IsValid a o pod_id next free v first below room grows still = record {
  unique = insert-Unique o pod_id a.allocated v.unique;
  started = omega (arith, v.started);
  used = λ q pid e. ground (arith, lookup-insert o q pod_id a.allocated, v.used q pid);
  free_used = λ q e. ground (arith, still q e, v.free_used q);
  disjoint = λ q e. ground (arith, still q e, v.disjoint q, lookup-insert o q pod_id a.allocated);
}

-- A new allocator is valid.
pub new-IsValid :
    (ip prefix : ℕ) (a : NodeIpAllocator) → ip < 2 ^ 32 → new ip prefix ≡ ok a → IsValid a
unfolding new lookup contains
new-IsValid ip prefix a fits h = subst IsValid made (record {
  unique = tt;
  started = omega arith;
  used = λ q pid e. absurd (cc e);
  free_used = λ q e. absurd (cc e);
  disjoint = λ q e. refl;
})
  where
    made :
        ◌≡◌ {A = NodeIpAllocator}
          (record {
            base = masked ip prefix;
            host_count = 2 ^ (32 - prefix);
            next_offset = 1;
            free = [];
            allocated = [];
          })
          a
    made = ground arith
