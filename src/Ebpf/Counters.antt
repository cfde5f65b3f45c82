-- ===== src/Ebpf/Counters.antt =====
-- src/ebpf/counters.rs: the traffic counters of the pods. A read of the kernel's map is the list of
-- what its iteration yields: an address with the counters of each CPU, or an error.
pub mod Sums
pub mod Reader
use fleetos_agent.Prelude.{
  ℕ, ◌+◌, ◌-◌, ◌/◌, ◌%◌, ◌^◌, String, Bool, true, false, Option, none, some, List, [], ◌∷◌, leb,
  ◌==◌, if◌then◌else◌,
}
use fleetos_agent.Collections.Key.{nat_key, string_key}
use fleetos_agent.Collections.HashMap
use fleetos_agent.Errors.{AgentError, Result, ok, err}

-- The counters of one CPU, and their sums: unsigned integers of 64 bits.
pub record Counters : Type 0 where
  pub tx_bytes : ℕ
  pub tx_packets : ℕ
  pub rx_bytes : ℕ
  pub rx_packets : ℕ

abbrev pub no_counters : Counters
no_counters = record { tx_bytes = 0; tx_packets = 0; rx_bytes = 0; rx_packets = 0 }

pub record CounterRates : Type 0 where
  pub tx_bytes_per_sec : ℕ
  pub tx_packets_per_sec : ℕ
  pub rx_bytes_per_sec : ℕ
  pub rx_packets_per_sec : ℕ

abbrev pub saturating_add : ℕ → ℕ → ℕ
saturating_add a b = if leb (2 ^ 64) (a + b) then 2 ^ 64 - 1 else a + b

-- The difference modulo 2^64 of two 64-bit values.
abbrev pub wrapping_sub : ℕ → ℕ → ℕ
wrapping_sub a b = (a + 2 ^ 64 - b) % 2 ^ 64

abbrev pub add_counters : Counters → Counters → Counters
add_counters a c = record {
  tx_bytes = saturating_add a.tx_bytes c.tx_bytes;
  tx_packets = saturating_add a.tx_packets c.tx_packets;
  rx_bytes = saturating_add a.rx_bytes c.rx_bytes;
  rx_packets = saturating_add a.rx_packets c.rx_packets;
}

unfoldable pub fold_counters : Counters → List Counters → Counters
fold_counters a [] = a
fold_counters a (c ∷ per_cpu) = fold_counters (add_counters a c) per_cpu

abbrev pub aggregate : List Counters → Counters
aggregate per_cpu = fold_counters no_counters per_cpu

unfoldable pub rate : Counters → Counters → ℕ → Option CounterRates
rate prev curr interval_secs =
    if interval_secs == 0
    then none
    else some (record {
      tx_bytes_per_sec = wrapping_sub curr.tx_bytes prev.tx_bytes / interval_secs;
      tx_packets_per_sec = wrapping_sub curr.tx_packets prev.tx_packets / interval_secs;
      rx_bytes_per_sec = wrapping_sub curr.rx_bytes prev.rx_bytes / interval_secs;
      rx_packets_per_sec = wrapping_sub curr.rx_packets prev.rx_packets / interval_secs;
    })

abbrev pub Aggregates : Type 0
Aggregates = List (ℕ × Counters)

abbrev pub Rates : Type 0
Rates = List (ℕ × CounterRates)

-- `rates.insert(ip_key, r)` where there is a rate.
abbrev pub insert_rate : ℕ → Option CounterRates → Rates → Rates
insert_rate ip_key none rates = rates
insert_rate ip_key (some r) rates = HashMap.insert ip_key r rates

abbrev pub rate_since : Option Counters → Counters → ℕ → Option CounterRates
rate_since none agg interval_secs = none
rate_since (some prev) agg interval_secs = rate prev agg interval_secs

-- The loop over the entries of the map, which a failed entry ends.
unfoldable pub read_entries :
    Aggregates
    → ℕ
    → List (Result (ℕ × List Counters))
    → Rates × Aggregates
    → Result (Rates × Aggregates)
read_entries previous interval_secs [] (rates, current) = ok (rates, current)
read_entries previous interval_secs (err e ∷ entries) (rates, current) = err e
read_entries previous interval_secs (ok (ip_key, per_cpu) ∷ entries) (rates, current) =
    read_entries previous interval_secs entries (
      insert_rate ip_key
          (rate_since (HashMap.lookup ip_key previous) (aggregate per_cpu) interval_secs) rates,
      HashMap.insert ip_key (aggregate per_cpu) current,
    )

abbrev pub commit : Aggregates → Result (Rates × Aggregates) → Result Rates × Aggregates
commit previous (ok (rates, current)) = (ok rates, current)
commit previous (err e) = (err e, previous)

-- The rates, and what the reader holds for the next read.
unfoldable pub read_and_compute_rates :
    ℕ → List (Result (ℕ × List Counters)) → Aggregates → Result Rates × Aggregates
unfolding read_entries
read_and_compute_rates interval_secs entries previous =
    commit previous (read_entries previous interval_secs entries ([], []))

abbrev or_zeros : Option (ℕ × ℕ) → ℕ × ℕ
or_zeros none = (0, 0)
or_zeros (some totals) = totals

-- The traffic that the containerd proxy has seen, added to the totals of the pod at 64 bits.
unfoldable pub record_containerd_traffic :
    String → ℕ → ℕ → List (String × (ℕ × ℕ)) → List (String × (ℕ × ℕ))
record_containerd_traffic pod_id tx_bytes rx_bytes accounting =
    let entry = or_zeros (HashMap.lookup pod_id accounting) in
    HashMap.insert pod_id ((entry.0 + tx_bytes) % 2 ^ 64, (entry.1 + rx_bytes) % 2 ^ 64) accounting
