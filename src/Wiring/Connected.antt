-- ===== src/Wiring/Connected.antt =====
-- When src/wiring.rs takes a pod to be connected.
use fleetos_agent.Prelude.{
  String, true, false, List, [], ◌∷◌, ◌≡◌, ◌≢◌, ◌↔◌, refl, arith, inl, inr, All, Bool-cases, ◌==◌,
  ==_iff, sym, ◌∙◌,
}
use fleetos_agent.Core.{Core}
use fleetos_agent.Collections.Key.{string_key}
use fleetos_agent.Collections.HashSet.{contains}
use fleetos_agent.Routes.Table.{RouteEntry}
use fleetos_agent.Workloads.Pods.{PodManager}
use fleetos_agent.Wiring.{
  my_routes, all_routed, connected_by, pod_id_text, reevaluate_router_connected,
}

-- Every route that has the workload as a source has an address.
abbrev pub Routed : String → RouteEntry → Type 0
Routed id r = contains id r.source_spiffe_ids ≡ true → r.dummy_ip ≢ 0

connected_is_all : (routes : List RouteEntry) → connected_by routes ≡ all_routed routes
unfolding all_routed
connected_is_all [] = refl
connected_is_all (r ∷ routes) = refl

all_routed-All :
    (id : String) (routes : List RouteEntry)
    → all_routed (my_routes id routes) ≡ true
    → All (Routed id) routes
unfolding all_routed my_routes
all_routed-All id [] h = tt
all_routed-All id (r ∷ routes) h = elim (Bool-cases (contains id r.source_spiffe_ids)) [
  | inl source ↦ elim (Bool-cases (r.dummy_ip == 0)) [
    | inl unrouted ↦ absurd (ground arith)
    | inr routed ↦
        (λ s zero. ground (arith, ==_iff r.dummy_ip 0), all_routed-All id routes (ground arith))
  ]
  | inr other ↦ (λ s. absurd (ground arith), all_routed-All id routes (ground arith))
]

All-all_routed :
    (id : String) (routes : List RouteEntry)
    → All (Routed id) routes
    → all_routed (my_routes id routes) ≡ true
unfolding all_routed my_routes
All-all_routed id [] h = refl
All-all_routed id (r ∷ routes) h = elim (Bool-cases (contains id r.source_spiffe_ids)) [
  | inl source ↦
      let routed : (r.dummy_ip == 0) ≡ false = ground (arith, h.0 source) in
      rw (source, routed) (All-all_routed id routes h.1)
  | inr other ↦ rw other (All-all_routed id routes h.1)
]

module _ (core : Core) where
  -- What a frame of routes says of each pod.
  abbrev pub Connected : List RouteEntry → String → PodManager → PodManager → Type 0
  Connected routes trust_domain [] [] = Unit
  Connected routes trust_domain ((key, pod) ∷ pods) ((key', pod') ∷ pods') =
      (key' ≡ key)
      × (pod' ≡ record pod { router_connected = pod'.router_connected })
      × ((pod'.router_connected ≡ true) ↔ All (Routed (pod_id_text core trust_domain pod)) routes)
      × Connected routes trust_domain pods pods'
  Connected routes trust_domain _ _ = ⊥

  -- After a frame of routes the same pods are there, changed in nothing but their connection, and a
  -- pod is connected exactly where every route that has it as a source has a dummy IP: one that
  -- is the source of no route is, and one with a dependency that is not routed yet is not.
  pub reevaluate-Connected :
      (routes : List RouteEntry) (trust_domain : String) (pods : PodManager)
      → Connected routes trust_domain pods
          (reevaluate_router_connected core routes trust_domain pods)
  unfolding reevaluate_router_connected
  reevaluate-Connected routes trust_domain [] = tt
  reevaluate-Connected routes trust_domain ((key, pod) ∷ pods) =
      let id = pod_id_text core trust_domain pod in
      let same = connected_is_all (my_routes id routes) in
      (
        refl,
        refl,
        (λ h. all_routed-All id routes (sym same ∙ h), λ h. same ∙ All-all_routed id routes h),
        reevaluate-Connected routes trust_domain pods,
      )
