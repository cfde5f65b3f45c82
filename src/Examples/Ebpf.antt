-- ===== src/Examples/Ebpf.antt =====
-- The counters of two CPUs over two reads, one counter wrapping in between.
use fleetos_agent.Prelude.{
  ℕ, ◌-◌, ◌/◌, ◌^◌, none, some, List, [], ◌∷◌, ◌≡◌, ◌⊎◌, refl, arith, ◌==◌, if◌then◌else◌,
}
use fleetos_agent.Collections.Key.{nat_key}
use fleetos_agent.Collections.HashMap
use fleetos_agent.Errors.{AgentError, Result, ok, err}
use fleetos_agent.Ebpf.Counters.{Counters, Aggregates, Rates, rate, read_and_compute_rates}
use fleetos_agent.Ebpf.Counters.Sums.{rate_exact}
use fleetos_agent.Ebpf.Counters.Reader.{latest, rate_between, read_exact}

abbrev all_four : ℕ → Counters
all_four n = record { tx_bytes = n; tx_packets = n; rx_bytes = n; rx_packets = n }

rate_exact_example : rate (all_four (2 ^ 64 - 10)) (all_four 20) 10 ≡ (
    if 10 == 0
    then none
    else some (record {
      tx_bytes_per_sec = 30 / 10;
      tx_packets_per_sec = 30 / 10;
      rx_bytes_per_sec = 30 / 10;
      rx_packets_per_sec = 30 / 10;
    }))
rate_exact_example =
    rate_exact (all_four (2 ^ 64 - 10)) (all_four 20) (all_four 30) 10
      (omega arith, omega arith, omega arith, omega arith)
      (omega arith, omega arith, omega arith, omega arith) (refl, refl, refl, refl)

abbrev reads : List (Result (ℕ × List Counters))
reads = ok (9, all_four 30 ∷ all_four 10 ∷ []) ∷ []

abbrev before : Aggregates
before = (9, all_four 20) ∷ []

read_exact_example :
    ((rates : Rates) × ((read_and_compute_rates 10 reads before).0 ≡ ok rates)
      × (HashMap.lookup 9 (read_and_compute_rates 10 reads before).1 ≡ latest none 9 reads)
      × (HashMap.lookup 9 rates
          ≡ rate_between
              (HashMap.lookup 9 before)
              (HashMap.lookup 9 (read_and_compute_rates 10 reads before).1)
              10))
    ⊎ ((e : AgentError) × ((read_and_compute_rates 10 reads before).0 ≡ err e)
        × ((read_and_compute_rates 10 reads before).1 ≡ before))
read_exact_example =
    read_exact 10 9 reads before (read_and_compute_rates 10 reads before).1
      (read_and_compute_rates 10 reads before).0 refl
