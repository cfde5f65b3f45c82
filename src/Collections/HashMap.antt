-- ===== src/Collections/HashMap.antt =====
-- `HashMap`: lookup, insertion, removal, with their laws in terms of `lookup`.
use fleetos_agent.Prelude.{
  ◌≡◌, refl, Option, none, some, List, [], ◌∷◌, arith, Bool-cases, inl, inr, if◌then◌else◌,
}
use fleetos_agent.Collections.Key.{Key}

module _ {ℓ κ} {K : Type ℓ} {V : Type κ} ⦃k : Key K⦄ where
  unfoldable pub lookup : K → List (K × V) → Option V
  lookup key [] = none
  lookup key ((j, v) ∷ m) = if k.same j key then some v else lookup key m

  unfoldable pub insert : K → V → List (K × V) → List (K × V)
  insert key v [] = (key, v) ∷ []
  insert key v ((j, w) ∷ m) = if k.same j key then (key, v) ∷ m else (j, w) ∷ insert key v m

  unfoldable pub remove : K → List (K × V) → List (K × V)
  remove key [] = []
  remove key ((j, v) ∷ m) = let rest = remove key m in if k.same j key then rest else (j, v) ∷ rest

  pub lookup-insert :
      (key j : K) (v : V) (m : List (K × V))
      → lookup j (insert key v m) ≡ (if k.same key j then some v else lookup j m)
  unfolding lookup insert
  lookup-insert key j v [] = refl
  lookup-insert key j v ((i, w) ∷ m) =
      ground (arith, lookup-insert key j v m, k.same_iff i key, k.same_iff i j, k.same_iff key j)

  pub lookup-remove :
      (key j : K) (m : List (K × V))
      → lookup j (remove key m) ≡ (if k.same key j then none else lookup j m)
  unfolding lookup remove
  lookup-remove key j [] = ground arith
  lookup-remove key j ((i, w) ∷ m) =
      ground (arith, lookup-remove key j m, k.same_iff i key, k.same_iff i j, k.same_iff key j)

  -- No key has two entries.
  abbrev pub Unique : List (K × V) → Type κ
  Unique [] = Unit
  Unique ((j, v) ∷ m) = (lookup j m ≡ none) × Unique m

  pub insert-Unique : (key : K) (v : V) (m : List (K × V)) → Unique m → Unique (insert key v m)
  unfolding lookup insert
  insert-Unique key v [] u = (refl, tt)
  insert-Unique key v ((j, w) ∷ m) u = elim (Bool-cases (k.same j key)) [
    | inl hit ↦ rw hit (ground (arith, k.same_iff j key), u.1)
    | inr miss ↦ rw miss (
      ground (arith, lookup-insert key j v m, k.same_iff j key, k.same_iff key j),
      insert-Unique key v m u.1,
    )
  ]
