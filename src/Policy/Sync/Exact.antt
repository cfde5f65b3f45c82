-- ===== src/Policy/Sync/Exact.antt =====
-- The mutations of src/policy/sync.rs against the keys of the compiled entries.
use fleetos_agent.Prelude.{
  ℕ, String, Bool, true, false, ◌&&◌, ◌||◌, ◌≤◌, none, some, List, [], Bytes, map, ◌≡◌, refl, ◌∙◌,
  arith, leb, inl, inr, Option-cases, Bool-cases, ◌⊎◌, ◌<◌,
}
use fleetos_agent.Errors.{AgentError, policy, ok, err, Result-cases}
use fleetos_agent.Collections.Key.{bytes_key}
use fleetos_agent.Collections.HashSet.{contains, contains-absent_from}
use fleetos_agent.Policy.Sync.{
  Compiler, PolicySyncState, CompiledPolicyEntry, sync_loop, compute_sync_mutations,
  apply_mutations_to_state, CompilePolicySet, compile_and_sync, convert_rules,
}
use fleetos_agent.Policy.Sync.Loop.{
  settled, wants_exact, wants_wildcard, sync_loop-exact, sync_loop-wildcard, start-Collected,
}

guarded :
    (a b c d : Bool)
    → (a ≡ true → b ≡ true → (c ≡ false) × (d ≡ false))
    → (a && b && (c || d)) ≡ false
guarded false b c d h = refl
guarded true false c d h = refl
guarded true true c d h = let (x, y) = h refl refl in rw (x, y) refl

module _ (c : Compiler) where
  open c use {
    ProtoRule, CoreRule, ExactEntry, WildcardEntry, ExactKey, WildcardKey, Value, to_exact_key,
    to_wildcard_key, exact_key_bytes, wildcard_key_bytes,
  }

  -- Whatever was tracked before, applying the computed mutations leaves tracked exactly the keys of
  -- the compiled entries, of either kind, under the new version.
  pub policy_exact :
      (s : PolicySyncState) (es : List (CompiledPolicyEntry c)) (version : ℕ)
      → ((b : Bytes)
          → contains b
              (apply_mutations_to_state c s (compute_sync_mutations c s es) version).exact_keys
            ≡ wants_exact c es b)
        × ((b : Bytes)
            → contains b
                (apply_mutations_to_state c s (compute_sync_mutations c s es) version).wildcard_keys
              ≡ wants_wildcard c es b)
        × ((apply_mutations_to_state c s (compute_sync_mutations c s es) version).current_version
            ≡ version)
  unfolding compute_sync_mutations apply_mutations_to_state contains
  policy_exact s es version =
      let (cx, dx) =
        sync_loop-exact c s es ([], []) ([], []) (start-Collected c exact_key_bytes s.exact_keys) in
      let (cw, dw) =
        sync_loop-wildcard c s es ([], []) ([], [])
          (start-Collected c wildcard_key_bytes s.wildcard_keys) in
      (
        λ b. settled exact_key_bytes s.exact_keys _ b cx ∙ dx b,
        λ b. settled wildcard_key_bytes s.wildcard_keys _ b cw ∙ dw b,
        refl,
      )

  -- An update of the rules is discarded exactly when its version is not above the current one; a
  -- newer one ends in an error or in the mutations towards what the compiler returned for the
  -- converted rules.
  pub compile_and_sync_cases :
      (compile : CompilePolicySet c) (s : PolicySyncState) (rules : List ProtoRule) (version : ℕ)
      (domain : String)
      → ((version ≤ s.current_version)
          × (compile_and_sync c compile s rules version domain ≡ ok none))
        ⊎ ((s.current_version < version)
            × (((e : AgentError) × (compile_and_sync c compile s rules version domain ≡ err e))
                ⊎ ((core_rules : List CoreRule) × (es : List (CompiledPolicyEntry c))
                    × (convert_rules c rules ≡ ok core_rules)
                    × (compile core_rules version domain ≡ some es)
                    × (compile_and_sync c compile s rules version domain
                        ≡ ok (some (compute_sync_mutations c s es, es))))))
  unfolding compile_and_sync
  compile_and_sync_cases compile s rules version domain =
      elim (Bool-cases (leb version s.current_version)) [
        | inl old ↦ inl (ground arith, ground arith)
        | inr new ↦ elim (Result-cases (convert_rules c rules)) [
          | inr (e, q) ↦ inr (ground arith, inl (e, ground arith))
          | inl (cores, q) ↦ elim (Option-cases (compile cores version domain)) [
            | inl r ↦ inr (ground arith, inl (policy "compilation failed", ground arith))
            | inr (es, r) ↦ inr (ground arith, inr (cores, es, q, r, ground arith))
          ]
        ]
      ]

  kept_each :
      (s : PolicySyncState) (es : List (CompiledPolicyEntry c)) (b : Bytes)
      → (contains b s.exact_keys ≡ true
          → wants_exact c es b ≡ true
          → (contains b (
                map (λ entry. exact_key_bytes entry.0) (compute_sync_mutations c s es).insert_exact)
              ≡ false)
            × (contains b (compute_sync_mutations c s es).delete_exact ≡ false))
        × (contains b s.wildcard_keys ≡ true
            → wants_wildcard c es b ≡ true
            → (contains b (
                  map
                    (λ entry. wildcard_key_bytes entry.0)
                    (compute_sync_mutations c s es).insert_wildcard)
                ≡ false)
              × (contains b (compute_sync_mutations c s es).delete_wildcard ≡ false))
  unfolding compute_sync_mutations contains
  kept_each s es b =
      let (cx, dx) =
        sync_loop-exact c s es ([], []) ([], []) (start-Collected c exact_key_bytes s.exact_keys) in
      let (cw, dw) =
        sync_loop-wildcard c s es ([], []) ([], [])
          (start-Collected c wildcard_key_bytes s.wildcard_keys) in
      (
        λ tracked wanted. (
          ground (arith, cx b),
          ground (
            arith,
            dx b,
            contains-absent_from b (sync_loop c s es ([], []) ([], [])).0.1 s.exact_keys,
          ),
        ),
        λ tracked wanted. (
          ground (arith, cw b),
          ground (
            arith,
            dw b,
            contains-absent_from b (sync_loop c s es ([], []) ([], [])).1.1 s.wildcard_keys,
          ),
        ),
      )

  -- An update never rewrites a tracked key: no exact key, and no wildcard key, that is tracked and that
  -- the compiled entries still have is inserted or deleted by the mutations, whatever verdict or
  -- version the entries give it.
  pub tracked_policy_kept :
      (s : PolicySyncState) (es : List (CompiledPolicyEntry c)) (b : Bytes)
      → let m = compute_sync_mutations c s es in
        ((contains b s.exact_keys
            && wants_exact c es b
            && (contains b (map (λ entry. exact_key_bytes entry.0) m.insert_exact)
                || contains b m.delete_exact))
          ≡ false)
        × ((contains b s.wildcard_keys
              && wants_wildcard c es b
              && (contains b (map (λ entry. wildcard_key_bytes entry.0) m.insert_wildcard)
                  || contains b m.delete_wildcard))
            ≡ false)
  tracked_policy_kept s es b =
      let (x, w) = kept_each s es b in
      (
        guarded (contains b s.exact_keys) (wants_exact c es b) _ _ x,
        guarded (contains b s.wildcard_keys) (wants_wildcard c es b) _ _ w,
      )
