-- ===== src/Routes/Table/Sync.antt =====
-- Updates of src/routes/table.rs against the tracked sets.
use fleetos_agent.Prelude.{ℕ, ◌≤◌, ◌↔◌, none, some, List, Bytes, ◌≡◌, refl, arith, inl, inr}
use fleetos_agent.Errors.{ok, Result-cases}
use fleetos_agent.Core.{Core}
use fleetos_agent.Collections.Key.{nat_key, bytes_key}
use fleetos_agent.Collections.HashSet.{contains}
use fleetos_agent.Routes.Table.{
  RouteEntry, RouteUpdate, RouteSyncState, RouteMutation, Progress, start, route_entries,
  process_route_update, delete_routes, remove_locals, apply_each, apply_mutations_to_state,
}
use fleetos_agent.Routes.Table.Effects.{
  has_key, has_local, has_key-delete_routes, has_local-remove_locals, local-delete_routes,
  key-remove_locals,
}
use fleetos_agent.Routes.Table.Loop.{
  Tracks, start-Tracks, Desires, wants_key, wants_local, route_entries_ok,
}

module _ (core : Core) where
  open core use {SpiffeId}

  -- An update is discarded without an error exactly when its version is not above the current one.
  pub discarded_iff :
      (s : RouteSyncState) (u : RouteUpdate) (own : SpiffeId)
      → (process_route_update core s u own ≡ ok none) ↔ (u.version ≤ s.current_version)
  unfolding process_route_update
  discarded_iff s u own = elim (Result-cases (route_entries core s u.version own u.routes start)) [
    | inl (p, q) ↦ (λ h. ground arith, λ h. ground arith)
    | inr (x, q) ↦ (λ h. ground arith, λ h. ground arith)
  ]

  pub processed :
      (s : RouteSyncState) (u : RouteUpdate) (own : SpiffeId) (ms : List RouteMutation)
      → process_route_update core s u own ≡ ok (some ms)
      → (p : Progress) × (route_entries core s u.version own u.routes start ≡ ok p)
        × (ms
            ≡ remove_locals p.desired_local_fps s.local_workload_fps
                (delete_routes p.desired_dummy_ip_keys s.dummy_ip_keys p.mutations))
  unfolding process_route_update
  processed s u own ms h = elim (Result-cases (route_entries core s u.version own u.routes start)) [
    | inl (p, q) ↦ (p, q, ground arith)
    | inr (x, q) ↦ absurd (ground arith)
  ]

  module _ (s : RouteSyncState) (own : SpiffeId) (es : List RouteEntry) (p : Progress) where
    abbrev final : RouteSyncState
    final = apply_each s (
        remove_locals p.desired_local_fps s.local_workload_fps
          (delete_routes p.desired_dummy_ip_keys s.dummy_ip_keys p.mutations))

    final-keys :
        Tracks s p → Desires core own es start p → (k : ℕ) → has_key final k ≡ wants_key core es k
    unfolding contains
    final-keys t d k = rw (key-remove_locals s p.desired_local_fps s.local_workload_fps _) (
        ground (
          arith,
          has_key-delete_routes s p.desired_dummy_ip_keys s.dummy_ip_keys p.mutations k,
          t.keys k,
          d.keys k,
        ))

    final-locals :
        Tracks s p
        → Desires core own es start p
        → (fp : Bytes) → has_local final fp ≡ wants_local core own es fp
    unfolding contains
    final-locals t d fp = ground (
      arith,
      has_local-remove_locals s p.desired_local_fps s.local_workload_fps
          (delete_routes p.desired_dummy_ip_keys s.dummy_ip_keys p.mutations) fp,
      local-delete_routes s p.desired_dummy_ip_keys s.dummy_ip_keys p.mutations,
      t.locals fp,
      d.locals fp,
    )

  -- After the mutations of an accepted update, whatever was tracked before: a dummy IP is tracked
  -- exactly when a route of the update has it, a fingerprint exactly when it is that of a route
  -- whose target agent is this node, and the version is the one that was given.
  pub sync_exact :
      (s : RouteSyncState) (u : RouteUpdate) (own : SpiffeId) (ms : List RouteMutation) (v : ℕ)
      → process_route_update core s u own ≡ ok (some ms)
      → ((k : ℕ) → has_key (apply_mutations_to_state s ms v) k ≡ wants_key core u.routes k)
        × ((fp : Bytes)
            → has_local (apply_mutations_to_state s ms v) fp ≡ wants_local core own u.routes fp)
        × ((apply_mutations_to_state s ms v).current_version ≡ v)
  unfolding apply_mutations_to_state
  sync_exact s u own ms v h =
      let (p, ran, made) = processed s u own ms h in
      let (t, d) = route_entries_ok core s u.version own u.routes start p ran (start-Tracks s) in
      (
        λ k. rw made (final-keys s own u.routes p t d k),
        λ fp. rw made (final-locals s own u.routes p t d fp),
        refl,
      )
