-- ===== src/Routes/Table/Spares.antt =====
-- The mutations of src/routes/table.rs that write a dummy IP's route.
use fleetos_agent.Prelude.{
  ℕ, Bool, true, false, not, ◌&&◌, some, List, [], ◌∷◌, Bytes, ◌≡◌, refl, ◌∙◌, arith, inl, inr,
  ◌==◌,
}
use fleetos_agent.Errors.{ok, Result-cases}
use fleetos_agent.Core.{Core}
use fleetos_agent.Collections.Key.{nat_key, bytes_key}
use fleetos_agent.Collections.HashSet.{contains}
use fleetos_agent.Routes.Table.{
  RouteEntry, RouteUpdate, RouteSyncState, RouteMutation, insert_route, delete_route,
  add_local_workload, remove_local_workload, Progress, start, push_if, route_to, route_entry,
  route_entries, process_route_update, delete_routes, remove_locals,
}
use fleetos_agent.Routes.Table.Effects.{has_key}
use fleetos_agent.Routes.Table.Loop.{start-Tracks, wants_key, route_entries_ok, route_entry_ok}
use fleetos_agent.Routes.Table.Sync.{processed}

-- Whether a mutation writes the route of a dummy IP.
abbrev pub touches : ℕ → RouteMutation → Bool
touches k (insert_route key v) = key == k
touches k (delete_route key) = key == k
touches k (add_local_workload fp) = false
touches k (remove_local_workload fp) = false

unfoldable pub spares : ℕ → List RouteMutation → Bool
spares k [] = true
spares k (m ∷ ms) = not (touches k m) && spares k ms

spares-push_if :
    (k : ℕ) (b : Bool) (m : RouteMutation) (ms : List RouteMutation)
    → spares k (push_if b m ms) ≡ (spares k ms && not (b && touches k m))
unfolding spares
spares-push_if k true m [] = ground arith
spares-push_if k true m (x ∷ ms) = ground (arith, spares-push_if k true m ms)
spares-push_if k false m ms = ground arith

-- A wanted key is not deleted.
pub spares-delete_routes :
    (k : ℕ) (desired keys : List ℕ) (ms : List RouteMutation)
    → contains k desired ≡ true
    → spares k (delete_routes desired keys ms) ≡ spares k ms
unfolding delete_routes
spares-delete_routes k desired [] ms h = refl
spares-delete_routes k desired (x ∷ keys) ms h = ground (
  arith,
  spares-delete_routes k desired keys (push_if (not (contains x desired)) (delete_route x) ms) h,
  spares-push_if k (not (contains x desired)) (delete_route x) ms,
)

pub spares-remove_locals :
    (k : ℕ) (desired fps : List Bytes) (ms : List RouteMutation)
    → spares k (remove_locals desired fps ms) ≡ spares k ms
unfolding remove_locals
spares-remove_locals k desired [] ms = refl
spares-remove_locals k desired (x ∷ fps) ms = ground (
  arith,
  spares-remove_locals k desired fps
      (push_if (not (contains x desired)) (remove_local_workload x) ms),
  spares-push_if k (not (contains x desired)) (remove_local_workload x) ms,
)

module _ (core : Core) where
  open core use {SpiffeId}

  -- The loop inserts no route whose dummy IP is tracked already.
  spares-route_to :
      (k : ℕ) (s : RouteSyncState) (version : ℕ) (own agent : SpiffeId) (key : ℕ) (fp : Bytes)
      (p : Progress)
      → has_key s k ≡ true
      → spares k (route_to core s version own key fp agent p).mutations ≡ spares k p.mutations
  unfolding route_to
  spares-route_to k s version own agent key fp p h =
      rw spares-push_if (rw spares-push_if (ground arith))

  pub spares-route_entries :
      (k : ℕ) (s : RouteSyncState) (version : ℕ) (own : SpiffeId) (es : List RouteEntry)
      (p p' : Progress)
      → has_key s k ≡ true
      → route_entries core s version own es p ≡ ok p'
      → spares k p'.mutations ≡ spares k p.mutations
  unfolding route_entries
  spares-route_entries k s version own [] p p' h e = ground arith
  spares-route_entries k s version own (x ∷ es) p p' h e =
      elim (Result-cases (route_entry core s version own x p)) [
        | inr (_, q) ↦ absurd (ground arith)
        | inl (m, q) ↦
            let (fp, agent, _, _, made) = route_entry_ok core s version own x p m q in
            spares-route_entries k s version own es m p' h (ground arith)
            ∙ rw made (spares-route_to k s version own agent _ fp p h)
      ]

  -- The mutations of an accepted update spare every dummy IP that is tracked and that the update
  -- still wants.
  pub process-spares :
      (k : ℕ) (s : RouteSyncState) (u : RouteUpdate) (own : SpiffeId) (ms : List RouteMutation)
      → has_key s k ≡ true
      → wants_key core u.routes k ≡ true
      → process_route_update core s u own ≡ ok (some ms)
      → spares k ms ≡ true
  unfolding spares contains
  process-spares k s u own ms h w e =
      let (p, ran, made) = processed core s u own ms e in
      let (_, d) = route_entries_ok core s u.version own u.routes start p ran (start-Tracks s) in
      let wanted : contains k p.desired_dummy_ip_keys ≡ true = ground (arith, d.keys k) in
      rw made (
        spares-remove_locals k p.desired_local_fps s.local_workload_fps _
        ∙ spares-delete_routes k p.desired_dummy_ip_keys s.dummy_ip_keys p.mutations wanted
        ∙ spares-route_entries k s u.version own u.routes start p h ran)
