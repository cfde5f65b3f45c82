-- ===== src/Workloads/Reconciler/Diff.antt =====
-- The result of src/workloads/reconciler.rs against the active workloads.
use fleetos_agent.Prelude.{
  String, Bool, true, false, ◌||◌, not, ◌&&◌, List, [], ◌∷◌, ◌++◌, if◌then◌else◌, ◌≡◌, refl, sym,
  ap, ◌∙◌, arith, inl, inr, Bool-cases,
}
use text.Mathlib.Text.{◌==◌ as str_eq}
use text.Mathlib.TextEquality.{eq_iff}
use fleetos_agent.Collections.Key.{string_key}
use fleetos_agent.Collections.HashSet.{contains, contains-append}
use fleetos_agent.Workloads.Pods.{Pod, PodManager, begin_eviction, is_active}
use fleetos_agent.Workloads.Reconciler.{
  WorkloadSpec, running_ids, desired_ids, boot_list, evict_list, reconcile, is_empty,
}

contains-boot_list :
    (running : List String) (desired : List WorkloadSpec) (w : String)
    → contains w (desired_ids (boot_list running desired))
      ≡ (contains w (desired_ids desired) && not (contains w running))
unfolding boot_list contains
contains-boot_list running [] w = ground arith
contains-boot_list running (spec ∷ specs) w =
    ground (arith, contains-boot_list running specs w, eq_iff spec.workload_id w)

-- The pods once those with the given ids have begun their eviction.
pub after_evictions : List String → PodManager → PodManager
after_evictions ids [] = []
after_evictions ids ((key, pod) ∷ pods) =
    (key, if contains pod.pod_id ids then begin_eviction pod else pod) ∷ after_evictions ids pods

-- Whether one of the pods has the id.
unfoldable pub has_id : String → PodManager → Bool
has_id id [] = false
has_id id ((key, pod) ∷ pods) = str_eq pod.pod_id id || has_id id pods

-- No two pods have one id.
abbrev pub UniqueIds : PodManager → Type 0
UniqueIds [] = Unit
UniqueIds ((key, pod) ∷ pods) = (has_id pod.pod_id pods ≡ false) × UniqueIds pods

evict_list-has_id :
    (desired : List String) (pods : PodManager) (id : String)
    → has_id id pods ≡ false
    → contains id (evict_list desired pods) ≡ false
unfolding evict_list contains has_id
evict_list-has_id desired [] id h = refl
evict_list-has_id desired ((key, pod) ∷ pods) id h =
    ground (arith, evict_list-has_id desired pods id, eq_iff pod.pod_id id)

-- An eviction of an id that no pod has changes nothing.
after_evictions-absent :
    (id : String) (ids : List String) (pods : PodManager)
    → has_id id pods ≡ false
    → after_evictions (id ∷ ids) pods ≡ after_evictions ids pods
unfolding after_evictions contains has_id
after_evictions-absent id ids [] h = refl
after_evictions-absent id ids ((key, pod) ∷ pods) h =
    ground (arith, after_evictions-absent id ids pods, eq_iff pod.pod_id id, eq_iff id pod.pod_id)

evict_list-head :
    (desired : List String) (key : String) (pod : Pod) (pods : PodManager) (gone : Bool)
    → (is_active pod.state && not (contains pod.workload_id desired)) ≡ gone
    → evict_list desired ((key, pod) ∷ pods)
      ≡ (if gone then pod.pod_id ∷ evict_list desired pods else evict_list desired pods)
unfolding evict_list
evict_list-head desired key pod pods gone h = rw h refl

contains-here : (id : String) (ids : List String) → contains id (id ∷ ids) ≡ true
unfolding contains
contains-here id ids = ground (arith, eq_iff id id)

contains-running_ids :
    (key : String) (pod : Pod) (pods : PodManager) (w : String)
    → contains w (running_ids ((key, pod) ∷ pods))
      ≡ (is_active pod.state && str_eq pod.workload_id w || contains w (running_ids pods))
unfolding running_ids contains
contains-running_ids key pod pods w = elim (Bool-cases (is_active pod.state)) [
  | inl active ↦ rw active refl
  | inr idle ↦ rw idle refl
]

after_evictions-head :
    (ids : List String) (key : String) (pod : Pod) (pods : PodManager) (gone : Bool)
    → contains pod.pod_id ids ≡ gone
    → after_evictions ids ((key, pod) ∷ pods)
      ≡ (key, if gone then begin_eviction pod else pod) ∷ after_evictions ids pods
unfolding after_evictions
after_evictions-head ids key pod pods gone h = rw h refl

begin_eviction-is_active : (pod : Pod) → is_active (begin_eviction pod).state ≡ false
unfolding begin_eviction
begin_eviction-is_active pod = ground arith

-- One pod, evicted where its id is among the given ones.
running_ids-head :
    (desired ids : List String) (key : String) (pod : Pod) (pods : PodManager) (w : String)
    → contains pod.pod_id ids ≡ (is_active pod.state && not (contains pod.workload_id desired))
    → contains w (running_ids (after_evictions ids pods))
      ≡ (contains w (running_ids pods) && contains w desired)
    → contains w (running_ids (after_evictions ids ((key, pod) ∷ pods)))
      ≡ (contains w (running_ids ((key, pod) ∷ pods)) && contains w desired)
running_ids-head desired ids key pod pods w h rest =
    let later = after_evictions ids pods in
    let before = contains-running_ids key pod pods w in
    let same : str_eq pod.workload_id w ≡ true
        → contains w desired ≡ contains pod.workload_id desired =
      λ e. ap (λ x. contains x desired) (sym ((eq_iff pod.workload_id w).0 e)) in
    elim (Bool-cases (contains pod.pod_id ids)) [
      | inl gone ↦
          ap (λ ps. contains w (running_ids ps)) (after_evictions-head ids key pod pods true gone)
          ∙ contains-running_ids key (begin_eviction pod) later w
          ∙ ap
              (λ b.
                b && str_eq (begin_eviction pod).workload_id w || contains w (running_ids later))
              (begin_eviction-is_active pod)
          ∙ ground (arith, gone, h, rest, before, same)
      | inr kept ↦
          ap (λ ps. contains w (running_ids ps)) (after_evictions-head ids key pod pods false kept)
          ∙ contains-running_ids key pod later w
          ∙ ground (arith, kept, h, rest, before, same)
    ]

-- The evictions of the later pods, and of the first one.
evict_list-tail :
    (desired : List String) (key : String) (pod : Pod) (pods : PodManager)
    → has_id pod.pod_id pods ≡ false
    → (contains pod.pod_id (evict_list desired ((key, pod) ∷ pods))
        ≡ (is_active pod.state && not (contains pod.workload_id desired)))
      × (after_evictions (evict_list desired ((key, pod) ∷ pods)) pods
          ≡ after_evictions (evict_list desired pods) pods)
evict_list-tail desired key pod pods h =
    let missing = evict_list-has_id desired pods pod.pod_id h in
    let spared = after_evictions-absent pod.pod_id (evict_list desired pods) pods h in
    elim (Bool-cases (is_active pod.state && not (contains pod.workload_id desired))) [
      | inl gone ↦
          let e = evict_list-head desired key pod pods true gone in
          (
            ap (contains pod.pod_id) e
                ∙ contains-here pod.pod_id (evict_list desired pods)
                ∙ sym gone,
            ap (λ ids. after_evictions ids pods) e ∙ spared,
          )
      | inr kept ↦
          let e = evict_list-head desired key pod pods false kept in
          (ap (contains pod.pod_id) e ∙ missing ∙ sym kept, ap (λ ids. after_evictions ids pods) e)
    ]

running_ids-after_evictions :
    (desired : List String) (pods : PodManager) (w : String)
    → UniqueIds pods
    → contains w (running_ids (after_evictions (evict_list desired pods) pods))
      ≡ (contains w (running_ids pods) && contains w desired)
unfolding running_ids contains after_evictions
running_ids-after_evictions desired [] w h = refl
running_ids-after_evictions desired ((key, pod) ∷ pods) w h =
    let (first, others) = evict_list-tail desired key pod pods h.0 in
    running_ids-head desired (evict_list desired ((key, pod) ∷ pods)) key pod pods w first (
      ap (λ ps. contains w (running_ids ps)) others
      ∙ running_ids-after_evictions desired pods w h.1)

-- On pods of which no two have one id: a workload is to be booted exactly when it is desired and has no active
-- pod; and the workloads that are active once the pods to be evicted have begun their eviction, together with
-- those to be booted, are exactly the desired ones.
pub reconcile_converges :
    (desired : List WorkloadSpec) (pods : PodManager) (w : String)
    → UniqueIds pods
    → let result = reconcile desired pods in
      (contains w (desired_ids result.to_boot)
        ≡ (contains w (desired_ids desired) && not (contains w (running_ids pods))))
      × (contains w (running_ids (after_evictions result.to_evict pods))
          ≡ (contains w (running_ids pods) && contains w (desired_ids desired)))
      × (contains w
            (running_ids (after_evictions result.to_evict pods) ++ desired_ids result.to_boot)
          ≡ contains w (desired_ids desired))
unfolding reconcile
reconcile_converges desired pods w unique =
    let boots = contains-boot_list (running_ids pods) desired w in
    let stay = running_ids-after_evictions (desired_ids desired) pods w unique in
    (
      boots,
      stay,
      ground (
        arith,
        boots,
        stay,
        contains-append w
            (running_ids (after_evictions (evict_list (desired_ids desired) pods) pods))
            (desired_ids (boot_list (running_ids pods) desired)),
      ),
    )

no_boot :
    (running : List String) (desired : List WorkloadSpec)
    → ((w : String) → contains w (desired_ids desired) ≡ true → contains w running ≡ true)
    → boot_list running desired ≡ []
unfolding boot_list contains
no_boot running [] h = refl
no_boot running (spec ∷ specs) h = ground (
  arith,
  h spec.workload_id,
  eq_iff spec.workload_id spec.workload_id,
  no_boot running specs (λ w e. ground (arith, h w)),
)

no_evict :
    (desired : List String) (pods : PodManager)
    → ((w : String) → contains w (running_ids pods) ≡ true → contains w desired ≡ true)
    → evict_list desired pods ≡ []
unfolding evict_list contains running_ids
no_evict desired [] h = refl
no_evict desired ((key, pod) ∷ pods) h = ground (
  arith,
  h pod.workload_id,
  eq_iff pod.workload_id pod.workload_id,
  no_evict desired pods (λ w e. ground (arith, h w)),
)

-- Once the active workloads are exactly the desired ones there is nothing to boot or to evict.
pub reconcile_stable :
    (desired : List WorkloadSpec) (pods : PodManager)
    → ((w : String) → contains w (desired_ids desired) ≡ contains w (running_ids pods))
    → is_empty (reconcile desired pods) ≡ true
unfolding reconcile
reconcile_stable desired pods h = rw (
  no_boot (running_ids pods) desired (λ w e. ground (arith, h w)),
  no_evict (desired_ids desired) pods (λ w e. ground (arith, h w)),
)
