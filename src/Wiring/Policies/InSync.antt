-- ===== src/Wiring/Policies/InSync.antt =====
-- The kernel's policy maps after a frame of src/wiring.rs.
use fleetos_agent.Prelude.{
  ℕ, ◌<◌, String, true, Option, none, some, List, [], ◌∷◌, Bytes, map, ◌≡◌, ◌⊎◌, sym, subst, arith,
  inl, inr, leb, Bool-cases,
}
use fleetos_agent.Errors.{ok, Result-cases}
use fleetos_agent.KernelMap.{KernelMap}
use fleetos_agent.Collections.Key.{bytes_key}
use fleetos_agent.Collections.HashSet.{
  contains, insert_each, remove_each, contains-insert, contains-remove,
}
use fleetos_agent.Policy.Sync.{
  Compiler, PolicySyncState, PolicyMutations, CompilePolicySet, compile_and_sync,
  apply_mutations_to_state, CompiledPolicyEntry,
}
use fleetos_agent.Routes.Table.Kernel.{is_some}
use fleetos_agent.Wiring.Policies.{
  insert_all, remove_all, apply_to, Maps, apply_mutations_to_maps, applied, SagUpdate, sync_policy,
}

module _ (c : Compiler) (policy_exact policy_wildcard : KernelMap Bytes c.Value) where
  module _ (kernel : KernelMap Bytes c.Value) where
    -- The keys that the kernel has an entry for are those that are tracked.
    abbrev pub Tracks : List Bytes → kernel.Space → Type 0
    Tracks keys s = (b : Bytes) → contains b keys ≡ is_some (kernel.entry b s)

    insert_all-Tracks :
        {K : Type 0} (bytes : K → Bytes) (inserts : List (K × c.Value)) (keys : List Bytes)
        (s t : kernel.Space)
        → insert_all c policy_exact policy_wildcard kernel bytes inserts s ≡ ok t
        → Tracks keys s
        → Tracks (insert_each (map (λ entry. bytes entry.0) inserts) keys) t
    unfolding insert_all insert_each
    insert_all-Tracks bytes [] keys s t e h = subst (Tracks keys) (ground arith) h
    insert_all-Tracks bytes ((key, value) ∷ rest) keys s t e h =
        elim (Result-cases (kernel.insert (bytes key) value s)) [
          | inr (e', q) ↦ absurd (ground arith)
          | inl (u, q) ↦ insert_all-Tracks bytes rest _ u t (ground arith) (λ b. ground (
            arith,
            h b,
            contains-insert (bytes key) b keys,
            kernel.entry-insert (bytes key) b value s u q,
          ))
        ]

    remove_all-Tracks :
        (deletes keys : List Bytes) (s t : kernel.Space)
        → remove_all c policy_exact policy_wildcard kernel deletes s ≡ ok t
        → Tracks keys s
        → Tracks (remove_each deletes keys) t
    unfolding remove_all remove_each
    remove_all-Tracks [] keys s t e h = subst (Tracks keys) (ground arith) h
    remove_all-Tracks (key ∷ rest) keys s t e h = elim (Result-cases (kernel.remove key s)) [
      | inr (e', q) ↦ absurd (ground arith)
      | inl (u, q) ↦
          remove_all-Tracks rest _ u t (ground arith)
            (λ b. ground (arith, h b, contains-remove key b keys, kernel.entry-remove key b s u q))
    ]

    apply_to-Tracks :
        {K : Type 0} (bytes : K → Bytes) (inserts : List (K × c.Value)) (deletes keys : List Bytes)
        (s t : kernel.Space)
        → apply_to c policy_exact policy_wildcard kernel bytes inserts deletes s ≡ ok t
        → Tracks keys s
        → Tracks (remove_each deletes (insert_each (map (λ entry. bytes entry.0) inserts) keys)) t
    apply_to-Tracks bytes inserts deletes keys s t e h =
        elim (Result-cases (insert_all c policy_exact policy_wildcard kernel bytes inserts s)) [
          | inr (e', q) ↦ absurd (ground arith)
          | inl (u, q) ↦
              remove_all-Tracks deletes _ u t (ground arith)
                (insert_all-Tracks bytes inserts keys s u q h)
        ]

  -- Both maps have entries for the tracked keys.
  pub record InSync (s : PolicySyncState) (m : Maps c policy_exact policy_wildcard) : Type 0 where
    pub exact : Tracks policy_exact s.exact_keys m.exact
    pub wildcard : Tracks policy_wildcard s.wildcard_keys m.wildcard

  apply-InSync :
      (s : PolicySyncState) (ms : PolicyMutations c) (version : ℕ)
      (m m' : Maps c policy_exact policy_wildcard)
      → apply_mutations_to_maps c policy_exact policy_wildcard ms m ≡ ok m'
      → InSync s m
      → InSync (apply_mutations_to_state c s ms version) m'
  unfolding apply_mutations_to_maps apply_mutations_to_state
  apply-InSync s ms version m m' e h =
      elim (Result-cases (
        apply_to c policy_exact policy_wildcard policy_exact c.exact_key_bytes ms.insert_exact
          ms.delete_exact m.exact)) [
            | inr (e', q) ↦ absurd (ground arith)
            | inl (x, q) ↦
                elim (Result-cases (
                  apply_to c policy_exact policy_wildcard policy_wildcard c.wildcard_key_bytes
                    ms.insert_wildcard ms.delete_wildcard m.wildcard)) [
                      | inr (e', p) ↦ absurd (ground arith)
                      | inl (w, p) ↦
                          let made : m' ≡ record { exact = x; wildcard = w } = ground arith in
                          subst (InSync _) (sym made) (record {
                            exact =
                                apply_to-Tracks policy_exact c.exact_key_bytes ms.insert_exact
                                  ms.delete_exact s.exact_keys m.exact x q h.exact;
                            wildcard =
                                apply_to-Tracks policy_wildcard c.wildcard_key_bytes
                                  ms.insert_wildcard ms.delete_wildcard s.wildcard_keys m.wildcard w
                                  p h.wildcard;
                          })
                    ]
          ]

  applied-InSync :
      (s s' : PolicySyncState) (version : ℕ) (m m' : Maps c policy_exact policy_wildcard)
      (o : Option (PolicyMutations c × List (CompiledPolicyEntry c)))
      → applied c policy_exact policy_wildcard s version m o ≡ ok (s', m')
      → InSync s m
      → InSync s' m'
  applied-InSync s s' version m m' none e h =
      let a : s ≡ s' = ground arith in
      let b : m ≡ m' = ground arith in subst (λ x. InSync x m') a (subst (InSync s) b h)
  applied-InSync s s' version m m' (some (ms, compiled)) e h =
      elim (Result-cases (apply_mutations_to_maps c policy_exact policy_wildcard ms m)) [
        | inr (e', q) ↦ absurd (ground arith)
        | inl (n, q) ↦
            let a : apply_mutations_to_state c s ms version ≡ s' = ground arith in
            let b : n ≡ m' = ground arith in
            subst (λ x. InSync x m') a (subst (InSync _) b (apply-InSync s ms version m n q h))
      ]

  stale :
      (compile : CompilePolicySet c) (s s' : PolicySyncState)
      (update : SagUpdate c policy_exact policy_wildcard) (domain : String)
      (m m' : Maps c policy_exact policy_wildcard)
      → leb update.version s.current_version ≡ true
      → sync_policy c policy_exact policy_wildcard compile s update domain m ≡ ok (s', m')
      → (s' ≡ s) × (m' ≡ m)
  unfolding sync_policy compile_and_sync
  stale compile s s' update domain m m' old e = (ground arith, ground arith)

  -- A policy update that succeeds leaves the kernel with entries for exactly the keys that are tracked
  -- after it, if it was so before; one whose version is not newer changes neither the tracked state nor the maps.
  pub sync_policy-InSync :
      (compile : CompilePolicySet c) (s s' : PolicySyncState)
      (update : SagUpdate c policy_exact policy_wildcard) (domain : String)
      (m m' : Maps c policy_exact policy_wildcard)
      → sync_policy c policy_exact policy_wildcard compile s update domain m ≡ ok (s', m')
      → InSync s m
      → InSync s' m' × ((s.current_version < update.version) ⊎ ((s' ≡ s) × (m' ≡ m)))
  unfolding sync_policy
  sync_policy-InSync compile s s' update domain m m' e h =
      elim (Result-cases (compile_and_sync c compile s update.rules update.version domain)) [
        | inr (e', q) ↦ absurd (ground arith)
        | inl (o, q) ↦ (
          applied-InSync s s' update.version m m' o (ground arith) h,
          elim (Bool-cases (leb update.version s.current_version)) [
            | inr newer ↦ inl (ground arith)
            | inl old ↦ inr (stale compile s s' update domain m m' old e)
          ],
        )
      ]
