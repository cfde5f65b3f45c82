-- ===== src/Routes/Table/Effects.antt =====
-- Mutations of src/routes/table.rs on the two tracked sets, through membership.
use fleetos_agent.Prelude.{
  ℕ, Bool, true, false, not, ◌&&◌, ◌||◌, List, [], ◌∷◌, ◌++◌, Bytes, ◌≡◌, refl, arith,
  if◌then◌else◌, ◌==◌,
}
use fleetos_agent.Collections.Key.{nat_key, bytes_key, same_bytes, same_bytes_iff}
use fleetos_agent.Collections.HashSet.{contains, contains-insert, contains-remove}
use fleetos_agent.Routes.Table.{
  DummyIpRouteValue, RouteSyncState, RouteMutation, insert_route, delete_route, add_local_workload,
  remove_local_workload, push_if, delete_routes, remove_locals, apply_mutation, apply_each,
}

abbrev pub has_key : RouteSyncState → ℕ → Bool
has_key s k = contains k s.dummy_ip_keys

abbrev pub has_local : RouteSyncState → Bytes → Bool
has_local s fp = contains fp s.local_workload_fps

pub apply_each-push :
    (s : RouteSyncState) (ms : List RouteMutation) (m : RouteMutation)
    → apply_each s (ms ++ m ∷ []) ≡ apply_mutation (apply_each s ms) m
unfolding apply_each
apply_each-push s [] m = refl
apply_each-push s (x ∷ ms) m = apply_each-push (apply_mutation s x) ms m

pub apply_each-push_if :
    (s : RouteSyncState) (b : Bool) (ms : List RouteMutation) (m : RouteMutation)
    → apply_each s (push_if b m ms)
      ≡ (if b then apply_mutation (apply_each s ms) m else apply_each s ms)
apply_each-push_if s true ms m = apply_each-push s ms m
apply_each-push_if s false ms m = refl

-- After the deletions a key is tracked if it was and is not to be deleted.
pub has_key-delete_routes :
    (s : RouteSyncState) (desired keys : List ℕ) (ms : List RouteMutation) (k : ℕ)
    → has_key (apply_each s (delete_routes desired keys ms)) k
      ≡ (has_key (apply_each s ms) k && (not (contains k keys) || contains k desired))
unfolding delete_routes contains apply_mutation
has_key-delete_routes s desired [] ms k = ground arith
has_key-delete_routes s desired (x ∷ keys) ms k = ground (
  arith,
  has_key-delete_routes s desired keys (push_if (not (contains x desired)) (delete_route x) ms) k,
  apply_each-push_if s (not (contains x desired)) ms (delete_route x),
  contains-remove x k (apply_each s ms).dummy_ip_keys,
)

pub local-delete_routes :
    (s : RouteSyncState) (desired keys : List ℕ) (ms : List RouteMutation)
    → (apply_each s (delete_routes desired keys ms)).local_workload_fps
      ≡ (apply_each s ms).local_workload_fps
unfolding delete_routes apply_mutation
local-delete_routes s desired [] ms = refl
local-delete_routes s desired (x ∷ keys) ms = ground (
  arith,
  local-delete_routes s desired keys (push_if (not (contains x desired)) (delete_route x) ms),
  apply_each-push_if s (not (contains x desired)) ms (delete_route x),
)

pub has_local-remove_locals :
    (s : RouteSyncState) (desired fps : List Bytes) (ms : List RouteMutation) (fp : Bytes)
    → has_local (apply_each s (remove_locals desired fps ms)) fp
      ≡ (has_local (apply_each s ms) fp && (not (contains fp fps) || contains fp desired))
unfolding remove_locals contains apply_mutation
has_local-remove_locals s desired [] ms fp = ground arith
has_local-remove_locals s desired (x ∷ fps) ms fp = ground (
  arith,
  has_local-remove_locals s desired fps
      (push_if (not (contains x desired)) (remove_local_workload x) ms) fp,
  apply_each-push_if s (not (contains x desired)) ms (remove_local_workload x),
  contains-remove x fp (apply_each s ms).local_workload_fps,
  same_bytes_iff x fp,
)

pub key-remove_locals :
    (s : RouteSyncState) (desired fps : List Bytes) (ms : List RouteMutation)
    → (apply_each s (remove_locals desired fps ms)).dummy_ip_keys ≡ (apply_each s ms).dummy_ip_keys
unfolding remove_locals apply_mutation
key-remove_locals s desired [] ms = refl
key-remove_locals s desired (x ∷ fps) ms = ground (
  arith,
  key-remove_locals s desired fps (push_if (not (contains x desired)) (remove_local_workload x) ms),
  apply_each-push_if s (not (contains x desired)) ms (remove_local_workload x),
)

-- What one push of the loop adds.
module _ (s : RouteSyncState) (b : Bool) (ms : List RouteMutation) where
  pub has_key-push_route :
      (key k : ℕ) (v : DummyIpRouteValue)
      → has_key (apply_each s (push_if b (insert_route key v) ms)) k
        ≡ (b && key == k || has_key (apply_each s ms) k)
  unfolding apply_mutation
  has_key-push_route key k v = ground (
    arith,
    apply_each-push_if s b ms (insert_route key v),
    contains-insert key k (apply_each s ms).dummy_ip_keys,
  )

  pub has_key-push_local :
      (fp : Bytes) (k : ℕ)
      → has_key (apply_each s (push_if b (add_local_workload fp) ms)) k
        ≡ has_key (apply_each s ms) k
  unfolding apply_mutation
  has_key-push_local fp k = ground (arith, apply_each-push_if s b ms (add_local_workload fp))

  pub has_local-push_route :
      (key : ℕ) (v : DummyIpRouteValue) (q : Bytes)
      → has_local (apply_each s (push_if b (insert_route key v) ms)) q
        ≡ has_local (apply_each s ms) q
  unfolding apply_mutation
  has_local-push_route key v q = ground (arith, apply_each-push_if s b ms (insert_route key v))

  pub has_local-push_local :
      (fp q : Bytes)
      → has_local (apply_each s (push_if b (add_local_workload fp) ms)) q
        ≡ (b && same_bytes fp q || has_local (apply_each s ms) q)
  unfolding apply_mutation
  has_local-push_local fp q = ground (
    arith,
    apply_each-push_if s b ms (add_local_workload fp),
    contains-insert fp q (apply_each s ms).local_workload_fps,
  )
