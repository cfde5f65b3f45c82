-- ===== src/Workloads/MicroVm/Cids.antt =====
-- The VSOCK CIDs that src/workloads/microvm.rs hands out, and what its boot needs.
use fleetos_agent.Prelude.{
  ℕ, zero, suc, ◌+◌, ◌%◌, ◌^◌, ◌≤◌, List, [], ◌∷◌, ◌≡◌, refl, arith, ltb, ap, if◌then◌else◌, ◌∙◌,
}
use fleetos_agent.Workloads.MicroVm.{VsockCidAllocator, new_allocator, allocate, allocate_many}

-- The numbers from a first one on.
pub up_from : ℕ → ℕ → List ℕ
up_from zero first = []
up_from (suc n) first = first ∷ up_from n (first + 1)

allocate_many-from :
    (n : ℕ) (a : VsockCidAllocator)
    → a.next_cid + n ≤ 2 ^ 32
    → allocate_many n a ≡ up_from n a.next_cid
unfolding allocate_many allocate up_from
allocate_many-from zero a h = refl
allocate_many-from (suc zero) a h = refl
allocate_many-from (suc (suc n)) a h =
    let next : (a.next_cid + 1) % 2 ^ 32 ≡ a.next_cid + 1 = omega (arith, h) in
    ap (λ cids. a.next_cid ∷ cids)
      (allocate_many-from (suc n) (record { next_cid = (a.next_cid + 1) % 2 ^ 32 })
          (omega (arith, h, next))
        ∙ ap (up_from (suc n)) next)

-- As long as the 32-bit counter does not overflow, the CIDs handed out from the start are consecutive,
-- so no two are equal, and they begin at the given start or, past the reserved ones, at 3.
pub cids_consecutive :
    (n start : ℕ)
    → start + n + 3 ≤ 2 ^ 32
    → allocate_many n (new_allocator start) ≡ up_from n (if ltb start 3 then 3 else start)
unfolding new_allocator
cids_consecutive n start h = allocate_many-from n (new_allocator start) (ground (arith, h))
