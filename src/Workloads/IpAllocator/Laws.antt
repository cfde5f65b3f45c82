-- ===== src/Workloads/IpAllocator/Laws.antt =====
-- The searches and the filters of the allocator of src/workloads/mod.rs.
use fleetos_agent.Prelude.{
  ℕ, ◌+◌, ◌%◌, ◌≤◌, String, Bool, true, false, ◌||◌, Option, none, some, List, [], ◌∷◌,
  if◌then◌else◌, ◌≡◌, refl, arith, inl, inr, Bool-cases, Option-cases,
}
use fleetos_agent.Collections.Key.{nat_key, string_key}
use fleetos_agent.Collections.HashSet.{contains, insert, contains-insert}
use fleetos_agent.Collections.HashMap.{lookup, Unique}
use fleetos_agent.Workloads.IpAllocator.{kept, freed, reusable, next_boundary}

abbrev pub keep_unless : (String → Bool) → Option String → Option String
keep_unless belongs none = none
keep_unless belongs (some pid) = if belongs pid then none else some pid

abbrev pub belongs? : (String → Bool) → Option String → Bool
belongs? belongs none = false
belongs? belongs (some pid) = belongs pid

module _ (belongs : String → Bool) where
  pub lookup-kept :
      (o : ℕ) (m : List (ℕ × String))
      → Unique m
      → lookup o (kept belongs m) ≡ keep_unless belongs (lookup o m)
  unfolding kept lookup
  lookup-kept o [] u = refl
  lookup-kept o ((j, pid) ∷ m) u = ground (arith, lookup-kept o m u.1)

  pub kept-Unique : (m : List (ℕ × String)) → Unique m → Unique (kept belongs m)
  unfolding kept
  kept-Unique [] u = tt
  kept-Unique ((j, pid) ∷ m) u = elim (Bool-cases (belongs pid)) [
    | inl gone ↦ rw gone (kept-Unique m u.1)
    | inr stays ↦ rw stays (ground (arith, lookup-kept j m u.1), kept-Unique m u.1)
  ]

  pub contains-freed :
      (o : ℕ) (m : List (ℕ × String)) (free : List ℕ)
      → Unique m
      → contains o (freed belongs m free) ≡ (contains o free || belongs? belongs (lookup o m))
  unfolding freed lookup
  contains-freed o [] free u = ground arith
  contains-freed o ((j, pid) ∷ m) free u = ground (
    arith,
    contains-freed o m (if belongs pid then insert j free else free) u.1,
    contains-insert j o free,
  )

-- A reusable offset is free, its successor is, and it is 1 modulo 4.
pub reusable_ok :
    (free os : List ℕ) (o : ℕ)
    → reusable free os ≡ some o
    → (contains o os ≡ true) × (o % 4 ≡ 1) × (contains (o + 1) free ≡ true)
unfolding reusable contains
reusable_ok free [] o h = ground arith
reusable_ok free (x ∷ os) o h = elim (Option-cases (reusable free os)) [
  | inl q ↦ ground arith
  | inr (p, q) ↦ ground (arith, reusable_ok free os p q)
]

-- Three rounds reach an offset that is 1 modulo 4.
pub next_boundary_ok :
    (o : ℕ) → (next_boundary 3 o % 4 ≡ 1) × (o ≤ next_boundary 3 o) × (next_boundary 3 o ≤ o + 3)
unfolding next_boundary
next_boundary_ok o = ground arith
