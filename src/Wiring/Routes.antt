-- ===== src/Wiring/Routes.antt =====
-- src/wiring.rs: a frame of routes. The lines of the hosts file are kept by their parts.
pub mod Frames
use fleetos_agent.Prelude.{ℕ, String, Option, none, some, List, [], ◌∷◌, Bytes}
use fleetos_agent.Errors.{Result, ok, err}
use fleetos_agent.Core.{Core}
use fleetos_agent.KernelMap.{KernelMap}
use fleetos_agent.Collections.Key.{nat_key, bytes_key}
use fleetos_agent.Attest.ConfigPush.{DummyIpRouteConfig}
use fleetos_agent.Routes.Table.{
  RouteEntry, RouteUpdate, RouteSyncState, RouteMutation, DummyIpRouteValue, process_route_update,
  apply_mutations_to_state, Maps, apply_mutations_to_maps,
}
use fleetos_agent.Workloads.Manager.{to_be_bytes}
use fleetos_agent.Workloads.Pods.{PodManager}
use fleetos_agent.Wiring.{reevaluate_router_connected}

-- An address, and the service and the tenant of its name.
pub record HostsLine : Type 0 where
  pub address : Bytes
  pub service : String
  pub tenant : String

abbrev pub line_of : DummyIpRouteConfig → HostsLine
line_of cfg = record { address = cfg.dummy_ip; service = cfg.service; tenant = cfg.tenant }

module _ (core : Core) (routes : KernelMap ℕ DummyIpRouteValue) (locals : KernelMap Bytes ℕ) where
  abbrev config_at : RouteEntry → Option core.SpiffeId → Option DummyIpRouteConfig
  config_at entry none = none
  config_at entry (some spiffe) = some (record {
    dummy_ip = to_be_bytes entry.dummy_ip;
    service = core.name spiffe;
    role = entry.destination_role;
    tenant = core.tenant spiffe;
  })

  unfoldable pub route_to_dummy_ip_config : RouteEntry → Option DummyIpRouteConfig
  route_to_dummy_ip_config entry = config_at entry (core.parse_spiffe entry.destination_svid)

  abbrev pushed : Option DummyIpRouteConfig → List DummyIpRouteConfig → List DummyIpRouteConfig
  pushed none cfgs = cfgs
  pushed (some cfg) cfgs = cfg ∷ cfgs

  unfoldable pub dummy_routes : List RouteEntry → List DummyIpRouteConfig
  unfolding route_to_dummy_ip_config
  dummy_routes [] = []
  dummy_routes (entry ∷ entries) = pushed (route_to_dummy_ip_config entry) (dummy_routes entries)

  unfoldable pub hosts_lines : List DummyIpRouteConfig → List HostsLine
  hosts_lines [] = []
  hosts_lines (cfg ∷ cfgs) = line_of cfg ∷ hosts_lines cfgs

  -- The table that the loop owns, the kernel's maps, and what others read.
  pub record RoutesWatch : Type 0 where
    pub route_state : RouteSyncState
    pub maps : Maps routes locals
    pub dummy_ip_routes : List DummyIpRouteConfig
    pub hosts_content : List HostsLine
    pub pods : PodManager

  abbrev pub set_routes : List RouteEntry → RoutesWatch → RoutesWatch
  set_routes entries w = record w {
    dummy_ip_routes = dummy_routes entries;
    hosts_content = hosts_lines (dummy_routes entries);
  }

  -- The mutations, once they are applied to the maps. A failed application is taken to leave the maps
  -- as `left`, which is up to the kernel.
  abbrev pub after_apply :
      RouteUpdate
      → List RouteMutation
      → String
      → Maps routes locals
      → Result (Maps routes locals)
      → RoutesWatch
      → RoutesWatch
  after_apply update ms trust_domain left (err e) w = record w { maps = left }
  after_apply update ms trust_domain left (ok maps) w = record w {
    maps = maps;
    route_state = apply_mutations_to_state w.route_state ms update.version;
    pods = reevaluate_router_connected core update.routes trust_domain w.pods;
  }

  abbrev pub after_process :
      RouteUpdate
      → String
      → Maps routes locals
      → Result (Option (List RouteMutation))
      → RoutesWatch
      → RoutesWatch
  after_process update trust_domain left (err e) w = w
  after_process update trust_domain left (ok none) w = w
  after_process update trust_domain left (ok (some ms)) w =
      after_apply update ms trust_domain left (apply_mutations_to_maps routes locals ms w.maps) w

  -- One frame of `run_routes_watch`.
  unfoldable pub on_route_update :
      core.SpiffeId → String → Maps routes locals → RouteUpdate → RoutesWatch → RoutesWatch
  on_route_update own trust_domain left update w =
      after_process update trust_domain left (process_route_update core w.route_state update own)
        (set_routes update.routes w)
