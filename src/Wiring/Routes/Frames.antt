-- ===== src/Wiring/Routes/Frames.antt =====
-- What a frame of routes leaves, after src/wiring.rs has handled it.
use fleetos_agent.Prelude.{ℕ, ◌≤◌, ◌<◌, String, some, List, Bytes, ◌≡◌, ◌⊎◌}
use fleetos_agent.Errors.{AgentError, ok, err}
use fleetos_agent.Core.{Core}
use fleetos_agent.KernelMap.{KernelMap}
use fleetos_agent.Collections.Key.{nat_key, bytes_key}
use fleetos_agent.Routes.Table.{
  RouteUpdate, RouteMutation, DummyIpRouteValue, process_route_update, Maps,
  apply_mutations_to_maps,
}
use fleetos_agent.Routes.Table.Loop.{wants_key, wants_local}
use fleetos_agent.Routes.Table.Malformed.{AnyMalformed}
use fleetos_agent.Routes.Table.Kernel.{Mirrors, is_some}
use fleetos_agent.Wiring.{reevaluate_router_connected}
use fleetos_agent.Wiring.Routes.{RoutesWatch}

module _ (core : Core) (routes : KernelMap ℕ DummyIpRouteValue) (locals : KernelMap Bytes ℕ) where
  -- A newer frame that was applied.
  pub record Applied (own : core.SpiffeId) (trust_domain : String) (update : RouteUpdate)
      (w w' : RoutesWatch core routes locals) : Type 0 where
    pub newer : w.route_state.current_version < update.version
    pub version : w'.route_state.current_version ≡ update.version
    pub mirrors : Mirrors routes locals w'.route_state w'.maps
    pub keys : (k : ℕ) → is_some (routes.entry k w'.maps.0) ≡ wants_key core update.routes k
    pub fps :
        (fp : Bytes) → is_some (locals.entry fp w'.maps.1) ≡ wants_local core own update.routes fp
    pub pods : w'.pods ≡ reevaluate_router_connected core update.routes trust_domain w.pods

  -- The table and the pods are those of before.
  pub record Kept (w w' : RoutesWatch core routes locals) : Type 0 where
    pub table : w'.route_state ≡ w.route_state
    pub pods : w'.pods ≡ w.pods

  -- A newer frame whose mutations could not all be written to the kernel, which left these maps.
  pub record Unwritten (own : core.SpiffeId) (update : RouteUpdate) (left : Maps routes locals)
      (w w' : RoutesWatch core routes locals) : Type 0 where
    pub newer : w.route_state.current_version < update.version
    pub mutations : List RouteMutation
    pub error : AgentError
    pub processed : process_route_update core w.route_state update own ≡ ok (some mutations)
    pub failed : apply_mutations_to_maps routes locals mutations w.maps ≡ err error
    pub maps : w'.maps ≡ left
    pub kept : Kept w w'

  -- What becomes of a frame.
  abbrev pub Handled :
      core.SpiffeId
      → String
      → Maps routes locals
      → RouteUpdate
      → RoutesWatch core routes locals
      → RoutesWatch core routes locals
      → Type 0
  Handled own trust_domain left update w w' =
      ((update.version ≤ w.route_state.current_version) × (w'.maps ≡ w.maps) × Kept w w')
      ⊎ Applied own trust_domain update w w'
      ⊎ ((w.route_state.current_version < update.version)
          × AnyMalformed core update.routes
          × (w'.maps ≡ w.maps)
          × Kept w w')
      ⊎ Unwritten own update left w w'
