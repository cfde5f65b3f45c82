-- ===== src/Workloads/IpAllocator/Pairs.antt =====
-- The /30 pairs of src/workloads/mod.rs: a gateway and a workload address.
use fleetos_agent.Prelude.{
  ℕ, ◌+◌, ◌-◌, ◌%◌, ◌≤◌, ◌<◌, String, true, false, none, some, List, leb, ◌==◌, if◌then◌else◌, ◌≡◌,
  refl, arith, inl, inr, Bool-cases, Option-cases,
}
use fleetos_agent.Errors.{Result, ok, err}
use fleetos_agent.Collections.Key.{nat_key, string_key}
use fleetos_agent.Collections.HashSet.{contains, remove, contains-remove}
use fleetos_agent.Collections.HashMap
use fleetos_agent.Collections.HashMap.{lookup, Unique, lookup-insert, insert-Unique}
use fleetos_agent.Workloads.IpAllocator.{
  NodeIpAllocator, gateway_of, reusable, next_boundary, take_pair, fresh_pair, reused_pair,
  allocate_microvm_pair,
}
use fleetos_agent.Workloads.IpAllocator.Laws.{reusable_ok, next_boundary_ok}
use fleetos_agent.Workloads.IpAllocator.Invariant.{
  IsValid, fresh_unallocated, claimed, claimed-IsValid,
}

-- Both offsets of an aligned pair that nobody had are now the pod's, and all others are as they were.
pub record IsPair (a a' : NodeIpAllocator) (o : ℕ) (pid : String) : Type 0 where
  pub aligned : o % 4 ≡ 1
  pub hosts : (1 ≤ o) × (o + 2 < a.host_count)
  pub gateway_was_free : lookup o a.allocated ≡ none
  pub workload_was_free : lookup (o + 1) a.allocated ≡ none
  pub owned :
      (q : ℕ)
      → lookup q a'.allocated ≡ (
          if o + 1 == q
          then some pid
          else if o == q
          then some (gateway_of pid)
          else lookup q a.allocated)
  pub same_range : (a'.base ≡ a.base) × (a'.host_count ≡ a.host_count)
  pub valid : IsValid a'

claimed-IsPair :
    (a : NodeIpAllocator) (o : ℕ) (pid : String) (next : ℕ) (free : List ℕ)
    → IsValid a
    → o % 4 ≡ 1
    → o + 1 < next
    → o + 2 < a.host_count
    → a.next_offset ≤ next
    → lookup o a.allocated ≡ none
    → lookup (o + 1) a.allocated ≡ none
    → ((q : ℕ)
        → contains q free ≡ true
        → (contains q a.free ≡ true) × ((q == o) ≡ false) × ((q == o + 1) ≡ false))
    → IsPair a (record a { next_offset = next; free = free; allocated = take_pair a pid o }) o pid
claimed-IsPair a o pid next free v odd below room grows g w still = record {
  aligned = odd;
  hosts = (omega arith, room);
  gateway_was_free = g;
  workload_was_free = w;
  owned = λ q.
      rw (lookup-insert (o + 1) q pid (HashMap.insert o (gateway_of pid) a.allocated))
        (rw (lookup-insert o q (gateway_of pid) a.allocated));
  same_range = (refl, refl);
  valid =
      claimed-IsValid (claimed a o (gateway_of pid) next free) (o + 1) pid next free
        (claimed-IsValid a o (gateway_of pid) next free v (omega arith) (omega arith) (omega arith)
          grows (λ q e. ground (arith, still q e)))
        (omega arith) below (omega arith) (omega arith) (λ q e. ground (arith, still q e));
}

abbrev pub PairAllocated : NodeIpAllocator → String → Result (ℕ × ℕ) × NodeIpAllocator → Type 0
PairAllocated a pid (ok (gateway, workload), a') =
    (o : ℕ) × (gateway ≡ a.base + o) × (workload ≡ gateway + 1) × IsPair a a' o pid
PairAllocated a pid (err e, a') =
    (a' ≡ a) × (reusable a.free a.free ≡ none) × (a.host_count ≤ a.next_offset + 5)

reused-PairAllocated :
    (a : NodeIpAllocator) (pid : String) (o : ℕ)
    → IsValid a
    → reusable a.free a.free ≡ some o
    → PairAllocated a pid (reused_pair a pid o)
unfolding reused_pair
reused-PairAllocated a pid o v q =
    let (f, odd, f') = reusable_ok a.free a.free o q in
    (
      o,
      refl,
      refl,
      claimed-IsPair a o pid a.next_offset (remove (o + 1) (remove o a.free)) v odd
          (v.free_used (o + 1) f').1 (omega (arith, (v.free_used (o + 1) f').2)) (omega arith)
          (v.disjoint o f) (v.disjoint (o + 1) f')
          (λ x e.
            ground
              (arith, contains-remove (o + 1) x (remove o a.free), contains-remove o x a.free)),
    )

fresh-PairAllocated :
    (a : NodeIpAllocator) (pid : String)
    → IsValid a
    → reusable a.free a.free ≡ none
    → PairAllocated a pid (fresh_pair a pid (next_boundary 3 a.next_offset))
unfolding fresh_pair
fresh-PairAllocated a pid v q =
    fresh (next_boundary 3 a.next_offset) (next_boundary_ok a.next_offset)
  where
    fresh :
        (o : ℕ)
        → (o % 4 ≡ 1) × (a.next_offset ≤ o) × (o ≤ a.next_offset + 3)
        → PairAllocated a pid (fresh_pair a pid o)
    fresh o (odd, above, near) = elim (Bool-cases (leb (a.host_count - 1) (o + 1))) [
      | inl full ↦ rw (full, fresh_pair) (refl, q, ground arith)
      | inr room ↦
          rw (room, fresh_pair)
            (
              o,
              refl,
              omega arith,
              claimed-IsPair a o pid (o + 4) a.free v odd (omega arith) (ground arith) (omega arith)
                  (fresh_unallocated a o v above) (fresh_unallocated a (o + 1) v (omega arith))
                  (λ x e. ground (arith, v.free_used x e)),
            )
    ]

-- In every valid state `allocate_microvm_pair` hands out a gateway and the address after it, 1 and 2
-- modulo 4 in the range and both host addresses of it that nobody had, records them for the pod and
-- changes no other pod's, and the state stays valid; it fails, and changes nothing, only where no
-- freed pair can be reused and fewer than six offsets of the range are left.
pub pair_safe :
    (a : NodeIpAllocator) (pid : String)
    → IsValid a
    → PairAllocated a pid (allocate_microvm_pair pid a)
unfolding allocate_microvm_pair
pair_safe a pid v = elim (Option-cases (reusable a.free a.free)) [
  | inl q ↦ rw (q, allocate_microvm_pair) (fresh-PairAllocated a pid v q)
  | inr (o, q) ↦ rw (q, allocate_microvm_pair) (reused-PairAllocated a pid o v q)
]
