-- ===== src/Routes/Table/Loop.antt =====
-- The loop over the routes of an update in src/routes/table.rs.
use text.Mathlib.Text.{◌==◌ as str_eq}
use fleetos_agent.Prelude.{
  ℕ, String, Bool, false, ◌&&◌, ◌||◌, Option, none, some, List, [], ◌∷◌, Bytes, ◌≡◌, arith,
  if◌then◌else◌, ◌==◌, Option-cases, inl, inr,
}
use fleetos_agent.Errors.{ok, Result-cases}
use fleetos_agent.Core.{Core}
use fleetos_agent.Collections.Key.{nat_key, bytes_key, same_bytes, same_bytes_iff}
use fleetos_agent.Collections.HashSet.{contains, contains-insert}
use fleetos_agent.Routes.Table.{
  RouteEntry, RouteSyncState, Progress, start, route_to, route_entry, route_entries, apply_mutation,
  apply_each,
}
use fleetos_agent.Routes.Table.Effects.{
  has_key-push_local, has_key-push_route, has_local-push_local, has_local-push_route, has_key,
  has_local,
}

-- The mutations so far lead to what is tracked or desired.
pub record Tracks (s : RouteSyncState) (p : Progress) : Type 0 where
  pub keys :
      (k : ℕ)
      → has_key (apply_each s p.mutations) k ≡ (has_key s k || contains k p.desired_dummy_ip_keys)
  pub locals :
      (fp : Bytes)
      → has_local (apply_each s p.mutations) fp
        ≡ (has_local s fp || contains fp p.desired_local_fps)

pub start-Tracks : (s : RouteSyncState) → Tracks s start
unfolding apply_each contains
start-Tracks s = record { keys = λ k. ground arith; locals = λ fp. ground arith }

module _ (core : Core) where
  open core use {SpiffeId, WorkloadRole, parse_spiffe, parse_role, fingerprint, from_network}

  route_to-Tracks :
      (s : RouteSyncState) (version : ℕ) (own : SpiffeId) (key : ℕ) (fp : Bytes) (agent : SpiffeId)
      (p : Progress)
      → Tracks s p
      → Tracks s (route_to core s version own key fp agent p)
  unfolding route_to apply_mutation
  route_to-Tracks s version own key fp agent p h = record {
    keys = λ k.
        rw (has_key-push_local s _ _ fp k, has_key-push_route s _ p.mutations key k _)
          (ground (arith, h.keys k, contains-insert key k p.desired_dummy_ip_keys));
    locals = λ q.
        rw (has_local-push_local s _ _ fp q, has_local-push_route s _ p.mutations key _ q)
          (ground
            (arith, h.locals q, contains-insert fp q p.desired_local_fps, same_bytes_iff fp q));
  }

  -- What an entry desires, read off the entry alone.
  abbrev pub with_role : SpiffeId → String → Option Bytes
  with_role dst role =
      if str_eq role ""
      then some (fingerprint dst none)
      else elim (parse_role role) [ none ↦ none | some r ↦ some (fingerprint dst (some r)) ]

  -- The fingerprint of the entry's destination, where it parses.
  abbrev pub dst_fingerprint : RouteEntry → Option Bytes
  dst_fingerprint e = elim (parse_spiffe e.destination_svid) [
    | none ↦ none
    | some dst ↦ with_role dst e.destination_role
  ]

  abbrev pub is_target : SpiffeId → RouteEntry → Bool
  is_target own e = elim (parse_spiffe e.target_agent_svid) [
    | none ↦ false
    | some agent ↦ core.spiffe_key.same agent own
  ]

  abbrev pub is_fp : Option Bytes → Bytes → Bool
  is_fp none q = false
  is_fp (some fp) q = same_bytes fp q

  unfoldable pub wants_key : List RouteEntry → ℕ → Bool
  wants_key [] k = false
  wants_key (e ∷ es) k = from_network e.dummy_ip == k || wants_key es k

  unfoldable pub wants_local : SpiffeId → List RouteEntry → Bytes → Bool
  wants_local own [] fp = false
  wants_local own (e ∷ es) fp =
      is_target own e && is_fp (dst_fingerprint e) fp || wants_local own es fp

  -- An entry is processed exactly when all of it parses.
  pub route_entry_ok :
      (s : RouteSyncState) (version : ℕ) (own : SpiffeId) (e : RouteEntry) (p p' : Progress)
      → route_entry core s version own e p ≡ ok p'
      → (fp : Bytes) × (agent : SpiffeId) × (dst_fingerprint e ≡ some fp)
        × (parse_spiffe e.target_agent_svid ≡ some agent)
        × (p' ≡ route_to core s version own (from_network e.dummy_ip) fp agent p)
  unfolding route_entry
  route_entry_ok s version own e p p' h = elim (Option-cases (dst_fingerprint e)) [
    | inl q ↦ absurd (ground arith)
    | inr (fp, q) ↦ elim (Option-cases (parse_spiffe e.target_agent_svid)) [
      | inl r ↦ absurd (ground arith)
      | inr (agent, r) ↦ (fp, agent, q, r, ground arith)
    ]
  ]

  -- The loop keeps `Tracks`, and desires exactly what its entries want.
  pub record Desires (own : SpiffeId) (es : List RouteEntry) (p p' : Progress) : Type 0 where
    pub keys :
        (k : ℕ)
        → contains k p'.desired_dummy_ip_keys
          ≡ (contains k p.desired_dummy_ip_keys || wants_key es k)
    pub locals :
        (fp : Bytes)
        → contains fp p'.desired_local_fps
          ≡ (contains fp p.desired_local_fps || wants_local own es fp)

  route_to-Desires :
      (s : RouteSyncState) (version : ℕ) (own agent : SpiffeId) (e : RouteEntry) (fp : Bytes)
      (p : Progress)
      → dst_fingerprint e ≡ some fp
      → parse_spiffe e.target_agent_svid ≡ some agent
      → Desires own (e ∷ []) p (route_to core s version own (from_network e.dummy_ip) fp agent p)
  unfolding route_to wants_key wants_local
  route_to-Desires s version own agent e fp p q r = record {
    keys = λ k. ground (arith, contains-insert (from_network e.dummy_ip) k p.desired_dummy_ip_keys);
    locals = λ x. ground (arith, contains-insert fp x p.desired_local_fps, same_bytes_iff fp x);
  }

  Desires-trans :
      (own : SpiffeId) (e : RouteEntry) (es : List RouteEntry) (p p' p'' : Progress)
      → Desires own (e ∷ []) p p'
      → Desires own es p' p''
      → Desires own (e ∷ es) p p''
  unfolding wants_key wants_local
  Desires-trans own e es p p' p'' a b = record {
    keys = λ k. ground (arith, a.keys k, b.keys k);
    locals = λ fp. ground (arith, a.locals fp, b.locals fp);
  }

  pub route_entries_ok :
      (s : RouteSyncState) (version : ℕ) (own : SpiffeId) (es : List RouteEntry) (p p' : Progress)
      → route_entries core s version own es p ≡ ok p'
      → Tracks s p
      → Tracks s p' × Desires own es p p'
  unfolding route_entries wants_key wants_local
  route_entries_ok s version own [] p p' h t =
      (ground arith, record { keys = λ k. ground arith; locals = λ fp. ground arith })
  route_entries_ok s version own (e ∷ es) p p' h t =
      elim (Result-cases (route_entry core s version own e p)) [
        | inr (x, q) ↦ absurd (ground arith)
        | inl (m, q) ↦
            let (fp, agent, a, b, made) = route_entry_ok s version own e p m q in
            let (t', d) =
              route_entries_ok s version own es m p' (ground arith)
                (rw made (route_to-Tracks s version own _ fp agent p t)) in
            (
              t',
              Desires-trans own e es p m p'
                  (rw made (route_to-Desires s version own agent e fp p a b)) d,
            )
      ]
