-- ===== src/Workloads/IpAllocator/Single.antt =====
-- Single addresses of the allocator of src/workloads/mod.rs.
use mathlib.Core.List.{head?}
use fleetos_agent.Prelude.{
  ℕ, ◌+◌, ◌-◌, ◌≤◌, ◌<◌, String, true, none, some, List, [], ◌∷◌, leb, ◌==◌, if◌then◌else◌, ◌≡◌,
  refl, arith, inl, inr, Bool-cases, Option-cases,
}
use fleetos_agent.Errors.{Result, ok, err}
use fleetos_agent.Collections.Key.{nat_key, string_key}
use fleetos_agent.Collections.HashSet.{contains, remove, contains-remove}
use fleetos_agent.Collections.HashMap.{lookup, lookup-insert}
use fleetos_agent.Workloads.IpAllocator.{NodeIpAllocator, fresh_offset, allocate}
use fleetos_agent.Workloads.IpAllocator.Invariant.{
  IsValid, fresh_unallocated, claimed, claimed-IsValid,
}

-- An offset of a host address that nobody had is now the pod's, and every other one is as it was.
pub record IsGranted (a a' : NodeIpAllocator) (o : ℕ) (pid : String) : Type 0 where
  pub host : (1 ≤ o) × (o + 1 < a.host_count)
  pub was_free : lookup o a.allocated ≡ none
  pub owned : (q : ℕ) → lookup q a'.allocated ≡ (if o == q then some pid else lookup q a.allocated)
  pub same_range : (a'.base ≡ a.base) × (a'.host_count ≡ a.host_count)
  pub valid : IsValid a'

claimed-IsGranted :
    (a : NodeIpAllocator) (o : ℕ) (pid : String) (next : ℕ) (free : List ℕ)
    → 1 ≤ o
    → o + 1 < a.host_count
    → lookup o a.allocated ≡ none
    → IsValid (claimed a o pid next free)
    → IsGranted a (claimed a o pid next free) o pid
claimed-IsGranted a o pid next free first room q v = record {
  host = (first, room);
  was_free = q;
  owned = λ r. lookup-insert o r pid a.allocated;
  same_range = (refl, refl);
  valid = v;
}

-- What `allocate` may return: the address of an offset that it has granted, or an error, with
-- nothing changed and no offset left.
abbrev pub Allocated : NodeIpAllocator → String → Result ℕ × NodeIpAllocator → Type 0
Allocated a pid (ok ip, a') = (o : ℕ) × (ip ≡ a.base + o) × IsGranted a a' o pid
Allocated a pid (err e, a') = (a' ≡ a) × (a.free ≡ []) × (a.host_count ≤ a.next_offset + 1)

fresh_offset-Allocated :
    (a : NodeIpAllocator) (pid : String)
    → IsValid a
    → a.free ≡ []
    → Allocated a pid (fresh_offset a pid)
unfolding fresh_offset
fresh_offset-Allocated a pid v empty = elim (Bool-cases (leb (a.host_count - 1) a.next_offset)) [
  | inl full ↦ rw full (refl, empty, ground arith)
  | inr room ↦ rw room (
    a.next_offset,
    refl,
    claimed-IsGranted a a.next_offset pid (a.next_offset + 1) a.free v.started (ground arith)
        (fresh_unallocated a a.next_offset v (omega arith))
        (claimed-IsValid a a.next_offset pid (a.next_offset + 1) a.free v v.started (omega arith)
          (ground arith) (omega arith) (λ q e. ground (arith, v.free_used q e))),
  )
]

reuse-Allocated :
    (a : NodeIpAllocator) (pid : String) (o : ℕ)
    → IsValid a
    → contains o a.free ≡ true
    → IsGranted a (claimed a o pid a.next_offset (remove o a.free)) o pid
reuse-Allocated a pid o v f =
    claimed-IsGranted a o pid a.next_offset (remove o a.free) (v.free_used o f).0
      (v.free_used o f).2 (v.disjoint o f)
      (claimed-IsValid a o pid a.next_offset (remove o a.free) v (v.free_used o f).0
        (v.free_used o f).1 (v.free_used o f).2 (omega arith)
        (λ q e. ground (arith, contains-remove o q a.free)))

head-none : (l : List ℕ) → head? l ≡ none → l ≡ []
head-none [] e = refl
head-none (x ∷ xs) e = cc e

head-contains : (l : List ℕ) (o : ℕ) → head? l ≡ some o → contains o l ≡ true
unfolding contains
head-contains [] o e = cc e
head-contains (x ∷ xs) o e = ground arith

-- In every valid state `allocate` hands out a host address that nobody had, records it for the pod
-- and changes no other pod's, and the state stays valid; it fails, and changes nothing, only where no
-- offset is free and the range is used up.
pub allocate_safe :
    (a : NodeIpAllocator) (pid : String) → IsValid a → Allocated a pid (allocate pid a)
unfolding allocate
allocate_safe a pid v = elim (Option-cases (head? a.free)) [
  | inl q ↦ rw (q, allocate) (fresh_offset-Allocated a pid v (head-none a.free q))
  | inr (o, q) ↦ rw (q, allocate) (o, refl, reuse-Allocated a pid o v (head-contains a.free o q))
]
