-- ===== src/Examples/Addresses.antt =====
-- The address allocator on 10.0.0.0/24.
use fleetos_agent.Prelude.{[], refl, arith}
use text.Mathlib.Text.{◌==◌ as str_eq}
use fleetos_agent.Collections.Key.{nat_key, string_key}
use fleetos_agent.Workloads.IpAllocator.{
  NodeIpAllocator, new, allocate, release, allocate_microvm_pair, release_microvm_pair,
}
use fleetos_agent.Workloads.IpAllocator.Invariant.{IsValid, new-IsValid}
use fleetos_agent.Workloads.IpAllocator.Single.{Allocated, allocate_safe}
use fleetos_agent.Workloads.IpAllocator.Pairs.{PairAllocated, pair_safe}
use fleetos_agent.Workloads.IpAllocator.Release.{IsReleased, owns_pair, release_safe}

abbrev pub network : NodeIpAllocator
network = record { base = 167772160; host_count = 256; next_offset = 1; free = []; allocated = [] }

pub network-IsValid : IsValid network
unfolding new
network-IsValid = new-IsValid 167772165 24 network (omega arith) refl

allocate_safe_example : Allocated network "web" (allocate "web" network)
allocate_safe_example = allocate_safe network "web" network-IsValid

pair_safe_example : PairAllocated network "vm" (allocate_microvm_pair "vm" network)
pair_safe_example = pair_safe network "vm" network-IsValid

release_safe_example :
    IsReleased network (release "web" network) (λ pid. str_eq pid "web")
    × IsReleased network (release_microvm_pair "web" network) (owns_pair "web")
release_safe_example = release_safe network "web" network-IsValid
