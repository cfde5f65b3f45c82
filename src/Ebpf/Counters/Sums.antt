-- ===== src/Ebpf/Counters/Sums.antt =====
-- The sums and the rates of src/ebpf/counters.rs on machine integers.
use fleetos_agent.Prelude.{
  ℕ, ◌+◌, ◌-◌, ◌/◌, ◌%◌, ◌^◌, ◌<◌, none, some, List, [], ◌∷◌, ◌≡◌, refl, arith, leb, ◌==◌,
  if◌then◌else◌,
}
use fleetos_agent.Ebpf.Counters.{
  Counters, wrapping_sub, add_counters, fold_counters, aggregate, rate, no_counters,
}

-- The sum of a field over all CPUs, without a bound.
abbrev pub total : (Counters → ℕ) → List Counters → ℕ
total field [] = 0
total field (c ∷ per_cpu) = field c + total field per_cpu

abbrev pub capped : ℕ → ℕ
capped n = if leb (2 ^ 64) n then 2 ^ 64 - 1 else n

-- Each field of a value.
abbrev pub Fields : (ℕ → ℕ → Type 0) → Counters → ((Counters → ℕ) → ℕ) → Type 0
Fields P c expected =
    P c.tx_bytes (expected (λ d. d.tx_bytes))
    × P c.tx_packets (expected (λ d. d.tx_packets))
    × P c.rx_bytes (expected (λ d. d.rx_bytes))
    × P c.rx_packets (expected (λ d. d.rx_packets))

fold_counters-Fields :
    (a : Counters) (per_cpu : List Counters)
    → Fields (λ n e. n < 2 ^ 64) a (λ field. 0)
    → Fields ◌≡◌ (fold_counters a per_cpu) (λ field. capped (field a + total field per_cpu))
unfolding fold_counters
fold_counters-Fields a [] h = ground arith
fold_counters-Fields a (c ∷ per_cpu) h =
    let ih = fold_counters-Fields (add_counters a c) per_cpu (ground arith) in ground (arith, ih)

-- An aggregate is, field by field, the sum over all CPUs where that fits in 64 bits, and the greatest
-- 64-bit number where it does not.
pub aggregate_exact :
    (per_cpu : List Counters)
    → Fields ◌≡◌ (aggregate per_cpu) (λ field. capped (total field per_cpu))
aggregate_exact per_cpu =
    let (tx, txp, rx, rxp) = fold_counters-Fields no_counters per_cpu (ground arith) in
    (ground arith, ground arith, ground arith, ground arith)

wrapping_sub-growth :
    (prev growth curr : ℕ)
    → prev < 2 ^ 64
    → growth < 2 ^ 64
    → curr ≡ (prev + growth) % 2 ^ 64
    → wrapping_sub curr prev ≡ growth
wrapping_sub-growth prev growth curr hp hg hc = omega arith

-- Where the four counters have grown by d since the previous sample, wrapping at 64 bits, the rates
-- are the growth over the interval, even if a counter has wrapped in between; an interval of zero
-- seconds gives no rates.
pub rate_exact :
    (prev curr growth : Counters) (interval_secs : ℕ)
    → Fields (λ n e. n < 2 ^ 64) prev (λ field. 0)
    → Fields (λ n e. n < 2 ^ 64) growth (λ field. 0)
    → Fields ◌≡◌ curr (λ field. (field prev + field growth) % 2 ^ 64)
    → rate prev curr interval_secs ≡ (
        if interval_secs == 0
        then none
        else some (record {
          tx_bytes_per_sec = growth.tx_bytes / interval_secs;
          tx_packets_per_sec = growth.tx_packets / interval_secs;
          rx_bytes_per_sec = growth.rx_bytes / interval_secs;
          rx_packets_per_sec = growth.rx_packets / interval_secs;
        }))
unfolding rate
rate_exact prev curr growth interval_secs hp hg hc =
    let tx = wrapping_sub-growth prev.tx_bytes growth.tx_bytes curr.tx_bytes hp.0 hg.0 hc.0 in
    let txp =
      wrapping_sub-growth prev.tx_packets growth.tx_packets curr.tx_packets hp.1 hg.1 hc.1 in
    let rx = wrapping_sub-growth prev.rx_bytes growth.rx_bytes curr.rx_bytes hp.2 hg.2 hc.2 in
    let rxp =
      wrapping_sub-growth prev.rx_packets growth.rx_packets curr.rx_packets hp.3 hg.3 hc.3 in
    rw (tx, txp, rx, rxp) refl
