-- ===== src/Policy/Sync.antt =====
-- src/policy/sync.rs: a full-state policy update, from the rules of the wire to the mutations of
-- the kernel's two policy maps. The policy compiler is a dependency and a parameter.
pub mod Loop
pub mod Exact
use fleetos_agent.Prelude.{
  ℕ, String, Bool, true, false, not, Option, none, some, List, [], ◌∷◌, ◌++◌, Bytes, leb, map,
  if◌then◌else◌,
}
use fleetos_agent.Errors.{AgentError, policy, Result, ok, err, ◌>>=◌}
use fleetos_agent.Collections.Key.{bytes_key}
use fleetos_agent.Collections.HashSet.{contains, insert, insert_each, remove_each, absent_from}

-- What the agent uses of the compiler. A compiled entry is exact or a wildcard.
pub record Compiler : Type 1 where
  pub ProtoRule : Type 0
  pub CoreRule : Type 0
  pub ExactEntry : Type 0
  pub WildcardEntry : Type 0
  pub ExactKey : Type 0
  pub WildcardKey : Type 0
  pub Value : Type 0
  pub proto_rule_to_core : ProtoRule → Option CoreRule
  pub to_exact_key : ExactEntry → Option ExactKey
  pub to_wildcard_key : WildcardEntry → Option WildcardKey
  pub exact_value : ExactEntry → Value
  pub wildcard_value : WildcardEntry → Value
  pub exact_key_bytes : ExactKey → Bytes
  pub wildcard_key_bytes : WildcardKey → Bytes

pub record PolicySyncState : Type 0 where
  pub current_version : ℕ
  pub exact_keys : List Bytes
  pub wildcard_keys : List Bytes

module _ (c : Compiler) where
  open c use {
    ProtoRule, CoreRule, ExactEntry, WildcardEntry, ExactKey, WildcardKey, Value,
    proto_rule_to_core, to_exact_key, to_wildcard_key, exact_value, wildcard_value, exact_key_bytes,
    wildcard_key_bytes,
  }

  pub data CompiledPolicyEntry : Type 0 where
    exact : ExactEntry → CompiledPolicyEntry
    wildcard : WildcardEntry → CompiledPolicyEntry

  pub record PolicyMutations : Type 0 where
    pub insert_exact : List (ExactKey × Value)
    pub delete_exact : List Bytes
    pub insert_wildcard : List (WildcardKey × Value)
    pub delete_wildcard : List Bytes

  -- The variables of the loop over the entries, those of one kind.
  abbrev pub Wanted : Type 0 → Type 0
  Wanted K = List (K × Value) × List Bytes

  -- One entry of the loop, by its key if it has one: the key is desired, and inserted where it is
  -- not tracked.
  abbrev pub want : {K : Type 0} → (K → Bytes) → List Bytes → Option K → Value → Wanted K → Wanted K
  want bytes tracked none value (inserts, desired) = (inserts, desired)
  want bytes tracked (some key) value (inserts, desired) = (
    if contains (bytes key) tracked then inserts else inserts ++ (key, value) ∷ [],
    insert (bytes key) desired,
  )

  abbrev pub want_exact : List Bytes → ExactEntry → Wanted ExactKey → Wanted ExactKey
  want_exact tracked e w = want exact_key_bytes tracked (to_exact_key e) (exact_value e) w

  abbrev pub want_wildcard : List Bytes → WildcardEntry → Wanted WildcardKey → Wanted WildcardKey
  want_wildcard tracked e w =
      want wildcard_key_bytes tracked (to_wildcard_key e) (wildcard_value e) w

  unfoldable pub sync_loop :
      PolicySyncState
      → List CompiledPolicyEntry
      → Wanted ExactKey
      → Wanted WildcardKey
      → Wanted ExactKey × Wanted WildcardKey
  sync_loop state [] x w = (x, w)
  sync_loop state (exact e ∷ es) x w = sync_loop state es (want_exact state.exact_keys e x) w
  sync_loop state (wildcard e ∷ es) x w =
      sync_loop state es x (want_wildcard state.wildcard_keys e w)

  unfoldable pub compute_sync_mutations :
      PolicySyncState → List CompiledPolicyEntry → PolicyMutations
  compute_sync_mutations state entries =
      let wanted = sync_loop state entries ([], []) ([], []) in
      record {
        insert_exact = wanted.0.0;
        delete_exact = absent_from wanted.0.1 state.exact_keys;
        insert_wildcard = wanted.1.0;
        delete_wildcard = absent_from wanted.1.1 state.wildcard_keys;
      }

  unfoldable pub apply_mutations_to_state : PolicySyncState → PolicyMutations → ℕ → PolicySyncState
  apply_mutations_to_state state m new_version = record {
    current_version = new_version;
    exact_keys =
        remove_each m.delete_exact
          (insert_each (map (λ entry. exact_key_bytes entry.0) m.insert_exact) state.exact_keys);
    wildcard_keys = remove_each m.delete_wildcard (
        insert_each (map (λ entry. wildcard_key_bytes entry.0) m.insert_wildcard)
          state.wildcard_keys);
  }

  unfoldable pub convert_rules : List ProtoRule → Result (List CoreRule)
  convert_rules [] = ok []
  convert_rules (r ∷ rs) = elim (proto_rule_to_core r) [
    | none ↦ err (policy "proto→core conversion failed")
    | some core ↦ convert_rules rs >>= λ cores. ok (core ∷ cores)
  ]

  -- `compile_policy_set`, a parameter of the sync.
  abbrev pub CompilePolicySet : Type 0
  CompilePolicySet = List CoreRule → ℕ → String → Option (List CompiledPolicyEntry)

  abbrev pub or_compilation_failed {ℓ} : {A : Type ℓ} → Option A → Result A
  or_compilation_failed none = err (policy "compilation failed")
  or_compilation_failed (some a) = ok a

  unfoldable pub compile_and_sync :
      CompilePolicySet
      → PolicySyncState
      → List ProtoRule
      → ℕ
      → String
      → Result (Option (PolicyMutations × List CompiledPolicyEntry))
  compile_and_sync compile_policy_set state proto_rules version data_trust_domain =
      if leb version state.current_version then ok none else do
        core_rules ← convert_rules proto_rules
        compiled ← or_compilation_failed (compile_policy_set core_rules version data_trust_domain)
        ok (some (compute_sync_mutations state compiled, compiled))
