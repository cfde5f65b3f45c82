-- ===== src/Wiring/Policies.antt =====
-- src/wiring.rs: a frame of policies, from the rules to the kernel's two maps. A value is written as it
-- stands in memory.
pub mod InSync
use fleetos_agent.Prelude.{ℕ, String, Option, none, some, List, [], ◌∷◌, Bytes}
use fleetos_agent.Errors.{Result, ok, err, ◌>>=◌}
use fleetos_agent.KernelMap.{KernelMap}
use fleetos_agent.Collections.Key.{bytes_key}
use fleetos_agent.Policy.Sync.{
  Compiler, PolicySyncState, PolicyMutations, CompilePolicySet, compile_and_sync,
  apply_mutations_to_state,
}
use fleetos_agent.Policy.Sync
use fleetos_agent.Workloads.Pods.{PodManager}
use fleetos_agent.Wiring.{mark_all_pods_policy_enforced}

module _ (c : Compiler) (policy_exact policy_wildcard : KernelMap Bytes c.Value) where
  module _ (map : KernelMap Bytes c.Value) where
    unfoldable pub insert_all :
        {K : Type 0} → (K → Bytes) → List (K × c.Value) → map.Space → Result map.Space
    insert_all bytes [] s = ok s
    insert_all bytes ((key, value) ∷ rest) s =
        map.insert (bytes key) value s >>= λ t. insert_all bytes rest t

    unfoldable pub remove_all : List Bytes → map.Space → Result map.Space
    remove_all [] s = ok s
    remove_all (key ∷ keys) s = map.remove key s >>= λ t. remove_all keys t

    -- The insertions of one map, then its deletions.
    abbrev pub apply_to :
        {K : Type 0} → (K → Bytes) → List (K × c.Value) → List Bytes → map.Space → Result map.Space
    apply_to bytes inserts deletes s = insert_all bytes inserts s >>= λ t. remove_all deletes t

  pub record SagUpdate : Type 0 where
    pub version : ℕ
    pub rules : List c.ProtoRule

  pub record Maps : Type 0 where
    pub exact : policy_exact.Space
    pub wildcard : policy_wildcard.Space

  unfoldable pub apply_mutations_to_maps : PolicyMutations c → Maps → Result Maps
  apply_mutations_to_maps ms m =
      apply_to policy_exact c.exact_key_bytes ms.insert_exact ms.delete_exact m.exact >>= λ exact.
      apply_to policy_wildcard c.wildcard_key_bytes ms.insert_wildcard ms.delete_wildcard m.wildcard
      >>= λ wildcard. ok (record { exact = exact; wildcard = wildcard })

  abbrev pub applied :
      PolicySyncState
      → ℕ
      → Maps
      → Option (PolicyMutations c × List (Sync.CompiledPolicyEntry c))
      → Result (PolicySyncState × Maps)
  applied state version m none = ok (state, m)
  applied state version m (some (ms, compiled)) =
      apply_mutations_to_maps ms m >>= λ m'. ok (apply_mutations_to_state c state ms version, m')

  -- An error leaves the state as it was, and the maps as far as they were changed.
  unfoldable pub sync_policy :
      CompilePolicySet c
      → PolicySyncState
      → SagUpdate
      → String
      → Maps
      → Result (PolicySyncState × Maps)
  sync_policy compile_policy_set state update data_trust_domain m =
      compile_and_sync c compile_policy_set state update.rules update.version data_trust_domain
      >>= λ result. applied state update.version m result

  -- One frame of `run_sag_watch`, with the pods; `left` is what a failure leaves of the maps.
  abbrev pub after_sync :
      Result (PolicySyncState × Maps)
      → PolicySyncState
      → Maps
      → PodManager
      → PolicySyncState × Maps × PodManager
  after_sync (ok (state', m')) state left pods = (state', m', mark_all_pods_policy_enforced pods)
  after_sync (err e) state left pods = (state, left, pods)

  unfoldable pub on_sag_update :
      CompilePolicySet c
      → PolicySyncState
      → SagUpdate
      → String
      → Maps
      → Maps
      → PodManager
      → PolicySyncState × Maps × PodManager
  on_sag_update compile_policy_set state update data_trust_domain left m pods =
      after_sync (sync_policy compile_policy_set state update data_trust_domain m) state left pods
