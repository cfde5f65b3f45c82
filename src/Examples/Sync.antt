-- ===== src/Examples/Sync.antt =====
-- The route and policy updates, with maps held in memory and a small stand-in for fleetos-core.
use fleetos_agent.Prelude.{
  ℕ, String, none, some, List, [], ◌∷◌, map, ◌≡◌, refl, arith, Bytes, if◌then◌else◌,
}
use text.Mathlib.Text.{◌==◌ as str_eq}
use fleetos_agent.Collections.Key.{Key, nat_key, bytes_key, string_key}
use fleetos_agent.Collections.HashSet.{contains, insert}
use fleetos_agent.Collections.HashMap
use fleetos_agent.Collections.HashMap.{lookup-insert, lookup-remove}
use fleetos_agent.Errors.{ok}
use fleetos_agent.Core.{Core}
use fleetos_agent.KernelMap.{KernelMap}
use fleetos_agent.Routes.Table.{
  RouteEntry, RouteUpdate, DummyIpRouteValue, RouteSyncState, new_state, RouteMutation,
  insert_route, add_local_workload, process_route_update, route_entries, route_entry, route_to,
  destination_role, delete_routes, remove_locals, apply_mutations_to_state, apply_mutations_to_maps,
  apply_to_maps,
}
use fleetos_agent.Routes.Table.Loop.{wants_key, wants_local}
use fleetos_agent.Routes.Table.Kernel.{Mirrors, is_some, kernel_in_sync, tracked_route_kept}
use fleetos_agent.Policy.Sync.{
  Compiler, PolicySyncState, CompiledPolicyEntry, exact, wildcard, compute_sync_mutations,
  CompilePolicySet, compile_and_sync, convert_rules,
}
use fleetos_agent.Policy.Sync
use fleetos_agent.Policy.Sync.Loop.{wants_exact, wants_wildcard}
use fleetos_agent.Policy.Sync.Exact.{policy_exact}

-- Identities are their text, and a fingerprint is a byte.
abbrev pub core : Core
core = record {
  SpiffeId = String;
  spiffe_key = string_key;
  WorkloadRole = String;
  parse_spiffe = λ text. if str_eq text "" then none else some text;
  to_text = λ id. id;
  name = λ id. id;
  tenant = λ id. "t";
  new_sa = λ trust_domain tenant workload. workload;
  parse_role = λ text. some text;
  fingerprint = λ id role. if str_eq id "db" then 1 ∷ [] else 2 ∷ [];
  from_network = λ ip. ip;
}

module _ {K V : Type 0} ⦃k : Key K⦄ where
  pub memory_insert-lookup :
      (key other : K) (v : V) (s t : List (K × V))
      → ok (HashMap.insert key v s) ≡ ok t
      → HashMap.lookup other t ≡ (if k.same key other then some v else HashMap.lookup other s)
  memory_insert-lookup key other v s t e = ground (arith, lookup-insert key other v s)

  pub memory_remove-lookup :
      (key other : K) (s t : List (K × V))
      → ok (HashMap.remove key s) ≡ ok t
      → HashMap.lookup other t ≡ (if k.same key other then none else HashMap.lookup other s)
  memory_remove-lookup key other s t e = ground (arith, lookup-remove key other s)

abbrev pub memory_map : (K V : Type 0) ⦃k : Key K⦄ → KernelMap K V
memory_map K V = record {
  Space = List (K × V);
  entry = λ key s. HashMap.lookup key s;
  insert = λ key v s. ok (HashMap.insert key v s);
  remove = λ key s. ok (HashMap.remove key s);
  entry-insert = memory_insert-lookup;
  entry-remove = memory_remove-lookup;
}

abbrev pub routes : KernelMap ℕ DummyIpRouteValue
routes = memory_map ℕ DummyIpRouteValue

abbrev pub locals : KernelMap Bytes ℕ
locals = memory_map Bytes ℕ

abbrev entry : String → String → ℕ → RouteEntry
entry destination agent ip = record {
  destination_svid = destination;
  destination_role = "";
  target_agent_svid = agent;
  source_spiffe_ids = [];
  dummy_ip = ip;
}

abbrev pub update : RouteUpdate
update = record { version = 3; routes = entry "db" "node" 9 ∷ entry "web" "other" 8 ∷ [] }

abbrev value : ℕ → Bytes → DummyIpRouteValue
value version fp = record { dst_fp = fp; target_agent_fp = 2 ∷ []; sag_version = version }

abbrev pub mutations : List RouteMutation
mutations =
    insert_route 9 (value 3 (1 ∷ []))
    ∷ add_local_workload (1 ∷ [])
    ∷ insert_route 8 (value 3 (2 ∷ []))
    ∷ []

abbrev kernel_routes : List (ℕ × DummyIpRouteValue)
kernel_routes = (9, value 3 (1 ∷ [])) ∷ (8, value 3 (2 ∷ [])) ∷ []

kernel_in_sync_example :
    Mirrors routes locals
      (apply_mutations_to_state new_state mutations 3)
      (kernel_routes, (1 ∷ [], 1) ∷ [])
    × ((k : ℕ) → is_some (HashMap.lookup k kernel_routes) ≡ wants_key core update.routes k)
    × ((fp : Bytes)
        → is_some {A = ℕ} (HashMap.lookup fp ((1 ∷ [], 1) ∷ []))
          ≡ wants_local core "node" update.routes fp)
unfolding process_route_update route_entries route_entry route_to delete_routes remove_locals
    destination_role contains insert apply_mutations_to_maps apply_to_maps HashMap.insert
    HashMap.lookup
kernel_in_sync_example =
    kernel_in_sync routes locals core new_state update "node" mutations ([], [])
      (kernel_routes, (1 ∷ [], 1) ∷ []) (record { keys = λ k. refl; fps = λ fp. refl }) refl refl

-- The same dummy IP, moved to another destination.
abbrev moved : RouteUpdate
moved = record { version = 4; routes = entry "web" "other" 9 ∷ [] }

abbrev tracked : RouteSyncState
tracked = record { current_version = 3; dummy_ip_keys = 9 ∷ []; local_workload_fps = [] }

abbrev one_route : List (ℕ × DummyIpRouteValue)
one_route = (9, value 3 (1 ∷ [])) ∷ []

tracked_route_kept_example : HashMap.lookup 9 one_route ≡ HashMap.lookup 9 one_route
unfolding process_route_update route_entries route_entry route_to delete_routes remove_locals
    destination_role contains insert apply_mutations_to_maps apply_to_maps wants_key
tracked_route_kept_example =
    tracked_route_kept routes locals core tracked moved "node" [] (one_route, []) (one_route, []) 9
      refl refl refl refl

-- A compiler of rules that are already entries of one byte.
abbrev pub compiler : Compiler
compiler = record {
  ProtoRule = ℕ;
  CoreRule = ℕ;
  ExactEntry = ℕ;
  WildcardEntry = ℕ;
  ExactKey = ℕ;
  WildcardKey = ℕ;
  Value = ℕ;
  proto_rule_to_core = λ rule. some rule;
  to_exact_key = λ e. some e;
  to_wildcard_key = λ e. some e;
  exact_value = λ e. 1;
  wildcard_value = λ e. 1;
  exact_key_bytes = λ key. key ∷ [];
  wildcard_key_bytes = λ key. key ∷ [];
}

abbrev entries : List (CompiledPolicyEntry compiler)
entries = exact 4 ∷ wildcard 6 ∷ []

abbrev policy_state : PolicySyncState
policy_state = record {
  current_version = 1;
  exact_keys = (4 ∷ []) ∷ (5 ∷ []) ∷ [];
  wildcard_keys = [];
}

policy_exact_example :
    ((b : Bytes)
      → contains b
          (Sync.apply_mutations_to_state compiler policy_state
            (compute_sync_mutations compiler policy_state entries)
            2).exact_keys
        ≡ wants_exact compiler entries b)
    × ((b : Bytes)
        → contains b
            (Sync.apply_mutations_to_state compiler policy_state
              (compute_sync_mutations compiler policy_state entries)
              2).wildcard_keys
          ≡ wants_wildcard compiler entries b)
    × ((Sync.apply_mutations_to_state compiler policy_state
          (compute_sync_mutations compiler policy_state entries)
          2).current_version
        ≡ 2)
policy_exact_example = policy_exact compiler policy_state entries 2

abbrev pub compile : CompilePolicySet compiler
compile rules version domain = some (map exact rules)
