-- ===== src/Policy/Sync/Loop.antt =====
-- The loop over the compiled entries in src/policy/sync.rs.
use mathlib.Core.List.{map-append}
use fleetos_agent.Prelude.{
  Bool, false, not, ◌&&◌, ◌||◌, Option, none, some, List, [], ◌∷◌, Bytes, map, ◌≡◌, refl, arith,
}
use fleetos_agent.Collections.Key.{bytes_key, same_bytes, same_bytes_iff}
use fleetos_agent.Collections.HashSet.{
  contains, contains-insert, contains-append, contains-insert_each, contains-remove_each,
  contains-absent_from, insert_each, remove_each, absent_from,
}
use fleetos_agent.Policy.Sync.{
  Compiler, PolicySyncState, CompiledPolicyEntry, exact, wildcard, Wanted, want, want_exact,
  want_wildcard, sync_loop,
}

module _ {K V : Type 0} (bytes : K → Bytes) where
  -- What is to be inserted is what is desired and not tracked.
  abbrev pub Collected : List Bytes → List (K × V) × List Bytes → Type 0
  Collected tracked w =
      (b : Bytes)
      → contains b (map (λ (entry : K × V). bytes entry.0) w.0)
        ≡ (contains b w.1 && not (contains b tracked))

  -- Inserting and then deleting leads to what is desired.
  pub settled :
      (tracked : List Bytes) (w : List (K × V) × List Bytes) (b : Bytes)
      → Collected tracked w
      → contains b (
          remove_each
            (absent_from w.1 tracked)
            (insert_each (map (λ (entry : K × V). bytes entry.0) w.0) tracked))
        ≡ contains b w.1
  settled tracked w b h = ground (
    arith,
    h b,
    contains-remove_each b (absent_from w.1 tracked)
        (insert_each (map (λ (entry : K × V). bytes entry.0) w.0) tracked),
    contains-insert_each b (map (λ (entry : K × V). bytes entry.0) w.0) tracked,
    contains-absent_from b w.1 tracked,
  )

module _ (c : Compiler) where
  open c use {
    ProtoRule, CoreRule, ExactEntry, WildcardEntry, ExactKey, WildcardKey, Value, to_exact_key,
    to_wildcard_key, exact_key_bytes, wildcard_key_bytes,
  }

  abbrev pub is_key {ℓ} : {K : Type ℓ} → (K → Bytes) → Option K → Bytes → Bool
  is_key bytes none b = false
  is_key bytes (some key) b = same_bytes (bytes key) b

  module _ {K : Type 0} (bytes : K → Bytes) where
    want-Collected :
        (tracked : List Bytes) (key : Option K) (v : Value) (w : Wanted c K)
        → Collected bytes tracked w
        → Collected bytes tracked (want c bytes tracked key v w)
    unfolding contains
    want-Collected tracked none v w h b = h b
    want-Collected tracked (some key) v w h b = ground (
      arith,
      h b,
      contains-insert (bytes key) b w.1,
      contains-append b (map (λ (entry : K × Value). bytes entry.0) w.0) (bytes key ∷ []),
      map-append (λ (entry : K × Value). bytes entry.0) w.0 ((key, v) ∷ []),
      same_bytes_iff (bytes key) b,
    )

    contains-want :
        (tracked : List Bytes) (key : Option K) (v : Value) (w : Wanted c K) (b : Bytes)
        → contains b (want c bytes tracked key v w).1 ≡ (contains b w.1 || is_key bytes key b)
    contains-want tracked none v w b = ground arith
    contains-want tracked (some key) v w b = ground (arith, contains-insert (bytes key) b w.1)

  unfoldable pub wants_exact : List (CompiledPolicyEntry c) → Bytes → Bool
  wants_exact [] b = false
  wants_exact (exact e ∷ es) b = is_key exact_key_bytes (to_exact_key e) b || wants_exact es b
  wants_exact (wildcard e ∷ es) b = wants_exact es b

  unfoldable pub wants_wildcard : List (CompiledPolicyEntry c) → Bytes → Bool
  wants_wildcard [] b = false
  wants_wildcard (exact e ∷ es) b = wants_wildcard es b
  wants_wildcard (wildcard e ∷ es) b =
      is_key wildcard_key_bytes (to_wildcard_key e) b || wants_wildcard es b

  pub sync_loop-exact :
      (s : PolicySyncState) (es : List (CompiledPolicyEntry c)) (x : Wanted c ExactKey)
      (w : Wanted c WildcardKey)
      → Collected exact_key_bytes s.exact_keys x
      → Collected exact_key_bytes s.exact_keys (sync_loop c s es x w).0
        × ((b : Bytes)
            → contains b (sync_loop c s es x w).0.1 ≡ (contains b x.1 || wants_exact es b))
  unfolding sync_loop wants_exact
  sync_loop-exact s [] x w h = (h, λ b. ground arith)
  sync_loop-exact s (exact e ∷ es) x w h =
      let (h', d) =
        sync_loop-exact s es (want_exact c s.exact_keys e x) w
          (want-Collected exact_key_bytes s.exact_keys (to_exact_key e) (c.exact_value e) x h) in
      (
        h',
        λ b. ground (
          arith,
          d b,
          contains-want exact_key_bytes s.exact_keys (to_exact_key e) (c.exact_value e) x b,
        ),
      )
  sync_loop-exact s (wildcard e ∷ es) x w h =
      sync_loop-exact s es x (want_wildcard c s.wildcard_keys e w) h

  pub sync_loop-wildcard :
      (s : PolicySyncState) (es : List (CompiledPolicyEntry c)) (x : Wanted c ExactKey)
      (w : Wanted c WildcardKey)
      → Collected wildcard_key_bytes s.wildcard_keys w
      → Collected wildcard_key_bytes s.wildcard_keys (sync_loop c s es x w).1
        × ((b : Bytes)
            → contains b (sync_loop c s es x w).1.1 ≡ (contains b w.1 || wants_wildcard es b))
  unfolding sync_loop wants_wildcard
  sync_loop-wildcard s [] x w h = (h, λ b. ground arith)
  sync_loop-wildcard s (wildcard e ∷ es) x w h =
      let (h', d) = sync_loop-wildcard s es x (want_wildcard c s.wildcard_keys e w) (
        want-Collected wildcard_key_bytes s.wildcard_keys (to_wildcard_key e) (c.wildcard_value e) w
          h) in
      (
        h',
        λ b. ground (
          arith,
          d b,
          contains-want wildcard_key_bytes s.wildcard_keys (to_wildcard_key e) (c.wildcard_value e)
              w b,
        ),
      )
  sync_loop-wildcard s (exact e ∷ es) x w h =
      sync_loop-wildcard s es (want_exact c s.exact_keys e x) w h

  pub start-Collected :
      {K : Type 0} (bytes : K → Bytes) (tracked : List Bytes)
      → Collected {V = Value} bytes tracked ([], [])
  unfolding contains
  start-Collected bytes tracked b = refl
