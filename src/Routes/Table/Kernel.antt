-- ===== src/Routes/Table/Kernel.antt =====
-- The mutations of src/routes/table.rs on the kernel's maps.
use fleetos_agent.Prelude.{
  ℕ, Bool, true, false, Option, none, some, List, [], ◌∷◌, Bytes, ◌≡◌, sym, subst, ◌∙◌, arith, inl,
  inr,
}
use fleetos_agent.Errors.{ok, Result-cases}
use fleetos_agent.Core.{Core}
use fleetos_agent.KernelMap.{KernelMap}
use fleetos_agent.Collections.Key.{nat_key, bytes_key}
use fleetos_agent.Collections.HashSet.{contains-insert, contains-remove}
use fleetos_agent.Routes.Table.{
  DummyIpRouteValue, RouteUpdate, RouteSyncState, RouteMutation, insert_route, delete_route,
  add_local_workload, remove_local_workload, process_route_update, apply_mutation, apply_each,
  apply_mutations_to_state, Maps, apply_to_maps, apply_mutations_to_maps,
}
use fleetos_agent.Routes.Table.Effects.{has_key, has_local}
use fleetos_agent.Routes.Table.Loop.{wants_key, wants_local}
use fleetos_agent.Routes.Table.Sync.{sync_exact}
use fleetos_agent.Routes.Table.Spares.{touches, spares, process-spares}

abbrev pub is_some {ℓ} : {A : Type ℓ} → Option A → Bool
is_some none = false
is_some (some a) = true

module _ (routes : KernelMap ℕ DummyIpRouteValue) (locals : KernelMap Bytes ℕ) where
  -- A key is tracked exactly when the kernel has an entry for it.
  pub record Mirrors (s : RouteSyncState) (m : Maps routes locals) : Type 0 where
    pub keys : (k : ℕ) → has_key s k ≡ is_some (routes.entry k m.0)
    pub fps : (fp : Bytes) → has_local s fp ≡ is_some (locals.entry fp m.1)

  apply_to_maps-Mirrors :
      (s : RouteSyncState) (x : RouteMutation) (m m' : Maps routes locals)
      → apply_to_maps routes locals x m ≡ ok m'
      → Mirrors s m
      → Mirrors (apply_mutation s x) m'
  unfolding apply_to_maps apply_mutation
  apply_to_maps-Mirrors s (insert_route key v) m m' e h =
      elim (Result-cases (routes.insert key v m.0)) [
        | inr (_, q) ↦ absurd (ground arith)
        | inl (t, q) ↦ record {
          keys = λ k. ground (
            arith,
            h.keys k,
            contains-insert key k s.dummy_ip_keys,
            routes.entry-insert key k v m.0 t q,
          );
          fps = λ fp. ground (arith, h.fps fp);
        }
      ]
  apply_to_maps-Mirrors s (delete_route key) m m' e h =
      elim (Result-cases (routes.remove key m.0)) [
        | inr (_, q) ↦ absurd (ground arith)
        | inl (t, q) ↦ record {
          keys = λ k. ground (
            arith,
            h.keys k,
            contains-remove key k s.dummy_ip_keys,
            routes.entry-remove key k m.0 t q,
          );
          fps = λ fp. ground (arith, h.fps fp);
        }
      ]
  apply_to_maps-Mirrors s (add_local_workload x) m m' e h =
      elim (Result-cases (locals.insert x 1 m.1)) [
        | inr (_, q) ↦ absurd (ground arith)
        | inl (t, q) ↦ record {
          keys = λ k. ground (arith, h.keys k);
          fps = λ fp. ground (
            arith,
            h.fps fp,
            contains-insert x fp s.local_workload_fps,
            locals.entry-insert x fp 1 m.1 t q,
          );
        }
      ]
  apply_to_maps-Mirrors s (remove_local_workload x) m m' e h =
      elim (Result-cases (locals.remove x m.1)) [
        | inr (_, q) ↦ absurd (ground arith)
        | inl (t, q) ↦ record {
          keys = λ k. ground (arith, h.keys k);
          fps = λ fp. ground (
            arith,
            h.fps fp,
            contains-remove x fp s.local_workload_fps,
            locals.entry-remove x fp m.1 t q,
          );
        }
      ]

  apply_each-Mirrors :
      (s : RouteSyncState) (ms : List RouteMutation) (m m' : Maps routes locals)
      → apply_mutations_to_maps routes locals ms m ≡ ok m'
      → Mirrors s m
      → Mirrors (apply_each s ms) m'
  unfolding apply_mutations_to_maps apply_each
  apply_each-Mirrors s [] m m' e h = subst (Mirrors s) (ground arith) h
  apply_each-Mirrors s (x ∷ ms) m m' e h = elim (Result-cases (apply_to_maps routes locals x m)) [
    | inr (_, q) ↦ absurd (ground arith)
    | inl (t, q) ↦
        apply_each-Mirrors (apply_mutation s x) ms t m' (ground arith)
          (apply_to_maps-Mirrors s x m t q h)
  ]

  untouched :
      (k : ℕ) (x : RouteMutation) (m t : Maps routes locals)
      → touches k x ≡ false
      → apply_to_maps routes locals x m ≡ ok t
      → routes.entry k t.0 ≡ routes.entry k m.0
  unfolding apply_to_maps
  untouched k (insert_route key v) m t h e = elim (Result-cases (routes.insert key v m.0)) [
    | inr (_, q) ↦ absurd (ground arith)
    | inl (r, q) ↦ ground (arith, routes.entry-insert key k v m.0 r q)
  ]
  untouched k (delete_route key) m t h e = elim (Result-cases (routes.remove key m.0)) [
    | inr (_, q) ↦ absurd (ground arith)
    | inl (r, q) ↦ ground (arith, routes.entry-remove key k m.0 r q)
  ]
  untouched k (add_local_workload x) m t h e = ground arith
  untouched k (remove_local_workload x) m t h e = ground arith

  spared_entry :
      (k : ℕ) (ms : List RouteMutation) (m m' : Maps routes locals)
      → spares k ms ≡ true
      → apply_mutations_to_maps routes locals ms m ≡ ok m'
      → routes.entry k m'.0 ≡ routes.entry k m.0
  unfolding apply_mutations_to_maps spares
  spared_entry k [] m m' h e = ground arith
  spared_entry k (x ∷ ms) m m' h e = elim (Result-cases (apply_to_maps routes locals x m)) [
    | inr (_, q) ↦ absurd (ground arith)
    | inl (t, q) ↦
        spared_entry k ms t m' (ground arith) (ground arith) ∙ untouched k x m t (ground arith) q
  ]

  module _ (core : Core) where
    -- Where the mutations of an accepted update reach the kernel, the tracked state that is updated
    -- after them mirrors the kernel again: the kernel has a route for exactly the dummy IPs of the
    -- update, and a local workload for exactly its fingerprints with this node as target agent.
    pub kernel_in_sync :
        (s : RouteSyncState) (u : RouteUpdate) (own : core.SpiffeId) (ms : List RouteMutation)
        (m m' : Maps routes locals)
        → Mirrors s m
        → process_route_update core s u own ≡ ok (some ms)
        → apply_mutations_to_maps routes locals ms m ≡ ok m'
        → Mirrors (apply_mutations_to_state s ms u.version) m'
          × ((k : ℕ) → is_some (routes.entry k m'.0) ≡ wants_key core u.routes k)
          × ((fp : Bytes) → is_some (locals.entry fp m'.1) ≡ wants_local core own u.routes fp)
    unfolding apply_mutations_to_state
    kernel_in_sync s u own ms m m' h e f =
        let h' = apply_each-Mirrors s ms m m' f h in
        let (keys, fps, _) = sync_exact core s u own ms u.version e in
        (
          record { keys = h'.keys; fps = h'.fps },
          λ k. sym (h'.keys k) ∙ keys k,
          λ fp. sym (h'.fps fp) ∙ fps fp,
        )

    -- An accepted update never rewrites a route that is tracked: for a dummy IP that is tracked and
    -- that the update still has, the kernel keeps the value it had, whatever destination, target
    -- agent or version the update gives.
    pub tracked_route_kept :
        (s : RouteSyncState) (u : RouteUpdate) (own : core.SpiffeId) (ms : List RouteMutation)
        (m m' : Maps routes locals) (k : ℕ)
        → process_route_update core s u own ≡ ok (some ms)
        → apply_mutations_to_maps routes locals ms m ≡ ok m'
        → has_key s k ≡ true
        → wants_key core u.routes k ≡ true
        → routes.entry k m'.0 ≡ routes.entry k m.0
    tracked_route_kept s u own ms m m' k e f tracked wanted =
        spared_entry k ms m m' (process-spares core k s u own ms tracked wanted e) f
