-- ===== src/Workloads/IpAllocator.antt =====
-- src/workloads/mod.rs: the node-local allocator of workload addresses. The set of free offsets and
-- the map of allocated ones are lists; which free offset `allocate` takes is not fixed by a law.
pub mod Laws
pub mod Invariant
pub mod Single
pub mod Pairs
pub mod Release
use mathlib.Core.List.{head?}
use Prim.Native.String.{◌++◌ as text_append}
use fleetos_agent.Prelude.{
  ℕ, zero, suc, ◌+◌, ◌-◌, ◌*◌, ◌/◌, ◌%◌, ◌^◌, String, Bool, true, false, ◌&&◌, ◌||◌, not, Option,
  none, some, List, [], ◌∷◌, ltb, leb, ◌==◌, if◌then◌else◌,
}
use fleetos_agent.Errors.{AgentError, workload, Result, ok, err}
use fleetos_agent.Exec.{Exec}
use fleetos_agent.Collections.Key.{nat_key, string_key}
use fleetos_agent.Collections.HashSet.{contains, insert, remove}
use fleetos_agent.Collections.HashMap
use text.Mathlib.Text.{◌==◌ as str_eq}

pub record NodeIpAllocator : Type 0 where
  pub base : ℕ
  pub host_count : ℕ
  pub next_offset : ℕ
  pub free : List ℕ
  pub allocated : List (ℕ × String)

-- `ip & (!0 << (32 - prefix))`: the low `32 - prefix` bits are cleared.
abbrev pub masked : ℕ → ℕ → ℕ
masked ip prefix = ip / 2 ^ (32 - prefix) * 2 ^ (32 - prefix)

-- The constructor, once `parse_cidr` has read the address and the prefix.
unfoldable pub new : ℕ → ℕ → Result NodeIpAllocator
new ip prefix =
    if not (leb 8 prefix && leb prefix 28)
    then err (workload "workload_ip_cidr prefix outside 8..=28")
    else if masked ip prefix / 2 ^ 28 == 15
    then err (workload "workload_ip_cidr overlaps the 240.0.0.0/4 dummy space")
    else ok (record {
      base = masked ip prefix;
      host_count = 2 ^ (32 - prefix);
      next_offset = 1;
      free = [];
      allocated = [];
    })

abbrev exhausted : AgentError
exhausted = workload "node workload IP space exhausted"

unfoldable pub fresh_offset : NodeIpAllocator → String → Result ℕ × NodeIpAllocator
fresh_offset a pod_id = if leb (a.host_count - 1) a.next_offset then (err exhausted, a) else (
  ok (a.base + a.next_offset),
  record a {
    next_offset = a.next_offset + 1;
    allocated = HashMap.insert a.next_offset pod_id a.allocated;
  },
)

-- A free offset first, in whatever order the set is iterated; else the next one.
unfoldable pub allocate : String → Exec NodeIpAllocator ℕ
unfolding fresh_offset
allocate pod_id a = elim (head? a.free) [
  | some o ↦ (
    ok (a.base + o),
    record a { free = remove o a.free; allocated = HashMap.insert o pod_id a.allocated },
  )
  | none ↦ fresh_offset a pod_id
]

-- `retain` with a closure that frees the offsets that it drops.
unfoldable pub kept : (String → Bool) → List (ℕ × String) → List (ℕ × String)
kept belongs [] = []
kept belongs ((o, pid) ∷ m) = if belongs pid then kept belongs m else (o, pid) ∷ kept belongs m

unfoldable pub freed : (String → Bool) → List (ℕ × String) → List ℕ → List ℕ
freed belongs [] free = free
freed belongs ((o, pid) ∷ m) free = freed belongs m (if belongs pid then insert o free else free)

abbrev pub release_where : (String → Bool) → NodeIpAllocator → NodeIpAllocator
release_where belongs a = record a {
  free = freed belongs a.allocated a.free;
  allocated = kept belongs a.allocated;
}

unfoldable pub release : String → NodeIpAllocator → NodeIpAllocator
release pod_id = release_where (λ pid. str_eq pid pod_id)

abbrev pub gateway_of : String → String
gateway_of pod_id = text_append pod_id ":gw"

abbrev pub smaller : Bool → ℕ → Option ℕ → Option ℕ
smaller false o best = best
smaller true o none = some o
smaller true o (some p) = if leb o p then some o else some p

-- The smallest offset that is 1 modulo 4 and free together with its successor: the source sorts the
-- free offsets and takes the first such one.
unfoldable pub reusable : List ℕ → List ℕ → Option ℕ
reusable free [] = none
reusable free (o ∷ os) = smaller (o % 4 == 1 && contains (o + 1) free) o (reusable free os)

-- The loop `while o % 4 != 1 { o += 1 }` makes at most three rounds.
unfoldable pub next_boundary : ℕ → ℕ → ℕ
next_boundary zero o = o
next_boundary (suc rounds) o =
    let next = next_boundary rounds (o + 1) in if o % 4 == 1 then o else next

abbrev pub take_pair : NodeIpAllocator → String → ℕ → List (ℕ × String)
take_pair a pod_id o =
    HashMap.insert (o + 1) pod_id (HashMap.insert o (gateway_of pod_id) a.allocated)

unfoldable pub fresh_pair : NodeIpAllocator → String → ℕ → Result (ℕ × ℕ) × NodeIpAllocator
fresh_pair a pod_id o = if leb (a.host_count - 1) (o + 1) then (err exhausted, a) else (
  ok (a.base + o, a.base + (o + 1)),
  record a { next_offset = o + 4; allocated = take_pair a pod_id o },
)

unfoldable pub reused_pair : NodeIpAllocator → String → ℕ → Result (ℕ × ℕ) × NodeIpAllocator
reused_pair a pod_id o = (
  ok (a.base + o, a.base + o + 1),
  record a { free = remove (o + 1) (remove o a.free); allocated = take_pair a pod_id o },
)

unfoldable pub allocate_microvm_pair : String → Exec NodeIpAllocator (ℕ × ℕ)
unfolding reusable next_boundary fresh_pair reused_pair
allocate_microvm_pair pod_id a = elim (reusable a.free a.free) [
  | some o ↦ reused_pair a pod_id o
  | none ↦ fresh_pair a pod_id (next_boundary 3 a.next_offset)
]

unfoldable pub release_microvm_pair : String → NodeIpAllocator → NodeIpAllocator
release_microvm_pair pod_id =
    release_where (λ pid. str_eq pid pod_id || str_eq pid (gateway_of pod_id))
