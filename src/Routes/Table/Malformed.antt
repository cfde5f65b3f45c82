-- ===== src/Routes/Table/Malformed.antt =====
-- The updates that src/routes/table.rs refuses.
use fleetos_agent.Prelude.{
  ℕ, ◌<◌, false, none, some, List, [], ◌∷◌, ◌≡◌, ◌⊎◌, arith, inl, inr, leb, Bool-cases,
  Option-cases,
}
use text.Mathlib.Text.{◌==◌ as str_eq}
use fleetos_agent.Errors.{AgentError, ok, err, Result-cases}
use fleetos_agent.Core.{Core}
use fleetos_agent.Routes.Table.{
  RouteEntry, RouteUpdate, RouteSyncState, RouteMutation, Progress, start, destination_role,
  route_entry, route_entries, process_route_update,
}

module _ (core : Core) where
  open core use {SpiffeId, parse_spiffe, parse_role}

  -- An identity or the role of the entry does not parse.
  abbrev pub Malformed : RouteEntry → Type 0
  Malformed e =
      (parse_spiffe e.destination_svid ≡ none)
      ⊎ ((str_eq e.destination_role "" ≡ false) × (parse_role e.destination_role ≡ none))
      ⊎ (parse_spiffe e.target_agent_svid ≡ none)

  abbrev pub AnyMalformed : List RouteEntry → Type 0
  AnyMalformed [] = ⊥
  AnyMalformed (e ∷ es) = Malformed e ⊎ AnyMalformed es

  destination_role-err :
      (e : RouteEntry) (x : AgentError)
      → destination_role core e.destination_role ≡ err x
      → (str_eq e.destination_role "" ≡ false) × (parse_role e.destination_role ≡ none)
  unfolding destination_role
  destination_role-err e x h = elim (Bool-cases (str_eq e.destination_role "")) [
    | inl wildcard ↦ absurd (ground arith)
    | inr named ↦ elim (Option-cases (parse_role e.destination_role)) [
      | inl unknown ↦ (named, unknown)
      | inr (role, q) ↦ absurd (ground arith)
    ]
  ]

  route_entry-err :
      (s : RouteSyncState) (version : ℕ) (own : SpiffeId) (e : RouteEntry) (p : Progress)
      (x : AgentError)
      → route_entry core s version own e p ≡ err x
      → Malformed e
  unfolding route_entry
  route_entry-err s version own e p x h = elim (Option-cases (parse_spiffe e.destination_svid)) [
    | inl unparsed ↦ inl unparsed
    | inr (dst, q) ↦ elim (Result-cases (destination_role core e.destination_role)) [
      | inr (y, r) ↦ inr (inl (destination_role-err e y r))
      | inl (role, r) ↦ elim (Option-cases (parse_spiffe e.target_agent_svid)) [
        | inl unparsed ↦ inr (inr unparsed)
        | inr (agent, t) ↦ absurd (ground arith)
      ]
    ]
  ]

  route_entries-err :
      (s : RouteSyncState) (version : ℕ) (own : SpiffeId) (es : List RouteEntry) (p : Progress)
      (x : AgentError)
      → route_entries core s version own es p ≡ err x
      → AnyMalformed es
  unfolding route_entries
  route_entries-err s version own [] p x h = absurd (ground arith)
  route_entries-err s version own (e ∷ es) p x h =
      elim (Result-cases (route_entry core s version own e p)) [
        | inr (y, q) ↦ inl (route_entry-err s version own e p y q)
        | inl (p', q) ↦ inr (route_entries-err s version own es p' x (ground arith))
      ]

  -- An update that is refused is newer and has an entry that does not parse.
  pub process_route_update-err :
      (s : RouteSyncState) (u : RouteUpdate) (own : SpiffeId) (x : AgentError)
      → process_route_update core s u own ≡ err x
      → (s.current_version < u.version) × AnyMalformed u.routes
  unfolding process_route_update
  process_route_update-err s u own x h = elim (Bool-cases (leb u.version s.current_version)) [
    | inl old ↦ absurd (ground arith)
    | inr newer ↦ elim (Result-cases (route_entries core s u.version own u.routes start)) [
      | inl (p, q) ↦ absurd (ground arith)
      | inr (y, q) ↦ (ground arith, route_entries-err s u.version own u.routes start y q)
    ]
  ]

  pub process_route_update-some :
      (s : RouteSyncState) (u : RouteUpdate) (own : SpiffeId) (ms : List RouteMutation)
      → process_route_update core s u own ≡ ok (some ms)
      → s.current_version < u.version
  unfolding process_route_update
  process_route_update-some s u own ms h = elim (Bool-cases (leb u.version s.current_version)) [
    | inl old ↦ absurd (ground arith)
    | inr newer ↦ ground arith
  ]
