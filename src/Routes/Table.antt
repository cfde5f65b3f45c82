-- ===== src/Routes/Table.antt =====
-- src/routes/table.rs: the desired routes of a full-state update, the mutations that lead to them,
-- and the application of the mutations to the tracked state and to the kernel's maps.
pub mod Effects
pub mod Loop
pub mod Sync
pub mod Spares
pub mod Kernel
pub mod Malformed
use fleetos_agent.Prelude.{
  ℕ, String, Bool, true, false, not, Option, none, some, List, [], ◌∷◌, ◌++◌, Bytes, ◌==◌, leb,
  if◌then◌else◌, ◌&&◌, ◌≡◌,
}
use fleetos_agent.Errors.{AgentError, policy, Result, ok, err, ◌>>=◌}
use fleetos_agent.Collections.Key.{Key, nat_key, bytes_key}
use fleetos_agent.Collections.HashSet.{contains, insert, remove}
use fleetos_agent.Core.{Core}
use fleetos_agent.KernelMap.{KernelMap}
use text.Mathlib.Text.{◌==◌ as str_eq}

pub record RouteEntry : Type 0 where
  pub destination_svid : String
  pub destination_role : String
  pub target_agent_svid : String
  pub dummy_ip : ℕ
  pub source_spiffe_ids : List String

pub record RouteUpdate : Type 0 where
  pub version : ℕ
  pub routes : List RouteEntry

pub record DummyIpRouteValue : Type 0 where
  pub dst_fp : Bytes
  pub target_agent_fp : Bytes
  pub sag_version : ℕ

pub record RouteSyncState : Type 0 where
  pub current_version : ℕ
  pub dummy_ip_keys : List ℕ
  pub local_workload_fps : List Bytes

abbrev pub new_state : RouteSyncState
new_state = record { current_version = 0; dummy_ip_keys = []; local_workload_fps = [] }

pub data RouteMutation : Type 0 where
  insert_route : ℕ → DummyIpRouteValue → RouteMutation
  delete_route : ℕ → RouteMutation
  add_local_workload : Bytes → RouteMutation
  remove_local_workload : Bytes → RouteMutation

-- `map_err` on a parser's result.
abbrev pub or_policy {ℓ} : {A : Type ℓ} → Option A → String → Result A
or_policy none message = err (policy message)
or_policy (some a) message = ok a

-- The variables of the loop over the routes.
pub record Progress : Type 0 where
  pub mutations : List RouteMutation
  pub desired_dummy_ip_keys : List ℕ
  pub desired_local_fps : List Bytes

abbrev pub start : Progress
start = record { mutations = []; desired_dummy_ip_keys = []; desired_local_fps = [] }

abbrev pub push_if : Bool → RouteMutation → List RouteMutation → List RouteMutation
push_if true m ms = ms ++ m ∷ []
push_if false m ms = ms

-- Deletions: what is tracked and not desired.
unfoldable pub delete_routes : List ℕ → List ℕ → List RouteMutation → List RouteMutation
delete_routes desired [] ms = ms
delete_routes desired (key ∷ keys) ms =
    delete_routes desired keys (push_if (not (contains key desired)) (delete_route key) ms)

unfoldable pub remove_locals : List Bytes → List Bytes → List RouteMutation → List RouteMutation
remove_locals desired [] ms = ms
remove_locals desired (fp ∷ fps) ms =
    remove_locals desired fps (push_if (not (contains fp desired)) (remove_local_workload fp) ms)

module _ (core : Core) where
  open core use {SpiffeId, WorkloadRole, parse_spiffe, parse_role, fingerprint, from_network}

  -- An empty role is a wildcard.
  unfoldable pub destination_role : String → Result (Option WorkloadRole)
  destination_role role =
      if str_eq role ""
      then ok none
      else do parsed ← or_policy (parse_role role) "invalid destination_role"; ok (some parsed)

  -- The body of the loop, once the entry is parsed.
  unfoldable pub route_to :
      RouteSyncState → ℕ → SpiffeId → ℕ → Bytes → SpiffeId → Progress → Progress
  route_to state version own map_key dst_fp target_agent p = record {
    mutations =
        push_if (is_local && not (contains dst_fp state.local_workload_fps))
          (add_local_workload dst_fp)
          (push_if (not (contains map_key state.dummy_ip_keys)) (insert_route map_key route_value)
            p.mutations);
    desired_dummy_ip_keys = insert map_key p.desired_dummy_ip_keys;
    desired_local_fps = if is_local then insert dst_fp p.desired_local_fps else p.desired_local_fps;
  }
    where
      is_local : Bool
      is_local = core.spiffe_key.same target_agent own

      route_value : DummyIpRouteValue
      route_value = record {
        dst_fp = dst_fp;
        target_agent_fp = fingerprint target_agent none;
        sag_version = version;
      }

  unfoldable pub route_entry :
      RouteSyncState → ℕ → SpiffeId → RouteEntry → Progress → Result Progress
  unfolding destination_role
  route_entry state version own e p = do
    dst_spiffe ← or_policy (parse_spiffe e.destination_svid) "invalid destination_svid"
    dst_role ← destination_role e.destination_role
    target_agent ← or_policy (parse_spiffe e.target_agent_svid) "invalid target_agent_svid"
    ok (
        route_to state version own (from_network e.dummy_ip) (fingerprint dst_spiffe dst_role)
          target_agent p)

  unfoldable pub route_entries :
      RouteSyncState → ℕ → SpiffeId → List RouteEntry → Progress → Result Progress
  route_entries state version own [] p = ok p
  route_entries state version own (e ∷ es) p = do
    p' ← route_entry state version own e p
    route_entries state version own es p'

  unfoldable pub process_route_update :
      RouteSyncState → RouteUpdate → SpiffeId → Result (Option (List RouteMutation))
  process_route_update state update own =
      if leb update.version state.current_version then ok none else do
        p ← route_entries state update.version own update.routes start
        ok (
            some (
              remove_locals p.desired_local_fps state.local_workload_fps
                (delete_routes p.desired_dummy_ip_keys state.dummy_ip_keys p.mutations)))

unfoldable pub apply_mutation : RouteSyncState → RouteMutation → RouteSyncState
apply_mutation s (insert_route key value) = record s { dummy_ip_keys = insert key s.dummy_ip_keys }
apply_mutation s (delete_route key) = record s { dummy_ip_keys = remove key s.dummy_ip_keys }
apply_mutation s (add_local_workload fp) = record s {
  local_workload_fps = insert fp s.local_workload_fps;
}
apply_mutation s (remove_local_workload fp) = record s {
  local_workload_fps = remove fp s.local_workload_fps;
}

unfoldable pub apply_each : RouteSyncState → List RouteMutation → RouteSyncState
apply_each s [] = s
apply_each s (m ∷ ms) = apply_each (apply_mutation s m) ms

unfoldable pub apply_mutations_to_state : RouteSyncState → List RouteMutation → ℕ → RouteSyncState
apply_mutations_to_state s ms new_version = record (apply_each s ms) {
  current_version = new_version;
}

module _ (routes : KernelMap ℕ DummyIpRouteValue) (locals : KernelMap Bytes ℕ) where
  abbrev pub Maps : Type 0
  Maps = routes.Space × locals.Space

  abbrev pub with_routes : Maps → Result routes.Space → Result Maps
  with_routes m r = r >>= λ s. ok (s, m.1)

  abbrev pub with_locals : Maps → Result locals.Space → Result Maps
  with_locals m r = r >>= λ s. ok (m.0, s)

  unfoldable pub apply_to_maps : RouteMutation → Maps → Result Maps
  apply_to_maps (insert_route key value) m = with_routes m (routes.insert key value m.0)
  apply_to_maps (delete_route key) m = with_routes m (routes.remove key m.0)
  apply_to_maps (add_local_workload fp) m = with_locals m (locals.insert fp 1 m.1)
  apply_to_maps (remove_local_workload fp) m = with_locals m (locals.remove fp m.1)

  unfoldable pub apply_mutations_to_maps : List RouteMutation → Maps → Result Maps
  apply_mutations_to_maps [] m = ok m
  apply_mutations_to_maps (mutation ∷ ms) m = do
    m' ← apply_to_maps mutation m
    apply_mutations_to_maps ms m'
