-- ===== src/Ebpf/Counters/Reader.antt =====
-- The reader of src/ebpf/counters.rs from one read to the next.
use fleetos_agent.Prelude.{
  ℕ, Option, none, some, List, [], ◌∷◌, ◌≡◌, ◌⊎◌, inl, inr, refl, ap, ◌∙◌, ==_iff, arith,
  Bool-cases, Option-cases, if◌then◌else◌, ◌==◌,
}
use fleetos_agent.Collections.Key.{nat_key}
use fleetos_agent.Collections.HashMap
use fleetos_agent.Collections.HashMap.{lookup-insert}
use fleetos_agent.Errors.{AgentError, Result, ok, err, Result-cases}
use fleetos_agent.Ebpf.Counters.{
  Counters, CounterRates, Aggregates, Rates, aggregate, rate, rate_since, insert_rate, read_entries,
  read_and_compute_rates,
}

-- The last aggregate that a read gives for an address.
abbrev pub latest : Option Counters → ℕ → List (Result (ℕ × List Counters)) → Option Counters
latest found ip [] = found
latest found ip (err e ∷ entries) = latest found ip entries
latest found ip (ok (ip_key, per_cpu) ∷ entries) =
    latest (if ip_key == ip then some (aggregate per_cpu) else found) ip entries

-- The rate that is expected of a previous sample and the current one.
abbrev pub rate_between : Option Counters → Option Counters → ℕ → Option CounterRates
rate_between previous none interval_secs = none
rate_between previous (some agg) interval_secs = rate_since previous agg interval_secs

-- Whether there is a rate does not depend on the current sample.
rate_since-none :
    (previous : Option Counters) (a b : Counters) (interval_secs : ℕ)
    → rate_since previous a interval_secs ≡ none
    → rate_since previous b interval_secs ≡ none
unfolding rate
rate_since-none none a b interval_secs h = refl
rate_since-none (some prev) a b interval_secs h = ground arith

rate_between-none :
    (previous current : Option Counters) (agg : Counters) (interval_secs : ℕ)
    → rate_since previous agg interval_secs ≡ none
    → rate_between previous current interval_secs ≡ none
rate_between-none previous none agg interval_secs h = refl
rate_between-none previous (some a) agg interval_secs h =
    rate_since-none previous agg a interval_secs h

insert_rate-between :
    (previous current : Aggregates) (rates : Rates) (agg : Counters) (interval_secs ip ip_key : ℕ)
    → HashMap.lookup ip rates
      ≡ rate_between (HashMap.lookup ip previous) (HashMap.lookup ip current) interval_secs
    → HashMap.lookup ip
        (insert_rate ip_key (rate_since (HashMap.lookup ip_key previous) agg interval_secs) rates)
      ≡ rate_between
          (HashMap.lookup ip previous)
          (HashMap.lookup ip (HashMap.insert ip_key agg current))
          interval_secs
insert_rate-between previous current rates agg interval_secs ip ip_key h =
    elim (Bool-cases (ip_key == ip)) [
      | inl same ↦
          let e = (==_iff ip_key ip).0 same in
          elim (Option-cases (rate_since (HashMap.lookup ip previous) agg interval_secs)) [
            | inl no_rate ↦
                let old =
                  rate_between-none (HashMap.lookup ip previous) (HashMap.lookup ip current) agg
                    interval_secs no_rate in
                ground (arith, e, old, lookup-insert ip_key ip agg current)
            | inr (r, q) ↦
                ground
                  (arith, e, lookup-insert ip_key ip agg current, lookup-insert ip_key ip r rates)
          ]
      | inr differ ↦
          elim (Option-cases (rate_since (HashMap.lookup ip_key previous) agg interval_secs)) [
            | inl no_rate ↦ ground (arith, lookup-insert ip_key ip agg current)
            | inr (r, q) ↦
                ground (arith, lookup-insert ip_key ip agg current, lookup-insert ip_key ip r rates)
          ]
    ]

read_entries-latest :
    (previous current current' : Aggregates) (rates rates' : Rates) (interval_secs ip : ℕ)
    (entries : List (Result (ℕ × List Counters)))
    → HashMap.lookup ip rates
      ≡ rate_between (HashMap.lookup ip previous) (HashMap.lookup ip current) interval_secs
    → read_entries previous interval_secs entries (rates, current) ≡ ok (rates', current')
    → (HashMap.lookup ip current' ≡ latest (HashMap.lookup ip current) ip entries)
      × (HashMap.lookup ip rates'
          ≡ rate_between (HashMap.lookup ip previous) (HashMap.lookup ip current') interval_secs)
unfolding read_entries
read_entries-latest previous current current' rates rates' interval_secs ip [] h e = ground arith
read_entries-latest previous current current' rates rates' interval_secs ip (err x ∷ entries) h e =
    ground arith
read_entries-latest previous current current' rates rates' interval_secs ip
      (ok (ip_key, per_cpu) ∷ entries) h e =
    let rest =
      read_entries-latest previous (HashMap.insert ip_key (aggregate per_cpu) current) current'
        (insert_rate ip_key
          (rate_since (HashMap.lookup ip_key previous) (aggregate per_cpu) interval_secs) rates)
        rates' interval_secs ip entries
        (insert_rate-between previous current rates (aggregate per_cpu) interval_secs ip ip_key h)
        e in
    (
      rest.0
          ∙ ap (λ found. latest found ip entries)
              (lookup-insert ip_key ip (aggregate per_cpu) current),
      rest.1,
    )

-- A read that succeeds gives an address a rate exactly where the previous read had the address too
-- and the interval is not zero: the rate from that sample to the last one of this read, which is then
-- the sample for the next. A read that fails leaves the samples as they were.
pub read_exact :
    (interval_secs ip : ℕ) (entries : List (Result (ℕ × List Counters)))
    (previous previous' : Aggregates) (outcome : Result Rates)
    → read_and_compute_rates interval_secs entries previous ≡ (outcome, previous')
    → ((rates : Rates) × (outcome ≡ ok rates)
        × (HashMap.lookup ip previous' ≡ latest none ip entries)
        × (HashMap.lookup ip rates
            ≡ rate_between
                (HashMap.lookup ip previous)
                (HashMap.lookup ip previous')
                interval_secs))
      ⊎ ((e : AgentError) × (outcome ≡ err e) × (previous' ≡ previous))
unfolding read_and_compute_rates HashMap.lookup
read_exact interval_secs ip entries previous previous' outcome h =
    elim (Result-cases (read_entries previous interval_secs entries ([], []))) [
      | inl ((rates', current'), q) ↦
          let found =
            read_entries-latest previous [] current' [] rates' interval_secs ip entries refl q in
          inl (rates', ground arith, ground (arith, found), ground (arith, found))
      | inr (e', q) ↦ inr (e', ground arith, ground arith)
    ]
