-- ===== src/Collections/HashSet.antt =====
-- `HashSet`: `contains`, `insert` and `remove`, with their laws in terms of `contains`.
use fleetos_agent.Prelude.{
  ◌≡◌, Bool, false, not, ◌&&◌, ◌||◌, List, [], ◌∷◌, ◌++◌, arith, if◌then◌else◌,
}
use fleetos_agent.Collections.Key.{Key}

module _ {ℓ} {A : Type ℓ} ⦃k : Key A⦄ where
  unfoldable pub contains : A → List A → Bool
  contains a [] = false
  contains a (x ∷ xs) = k.same x a || contains a xs

  unfoldable pub insert : A → List A → List A
  unfolding contains
  insert a s = if contains a s then s else a ∷ s

  unfoldable pub remove : A → List A → List A
  remove a [] = []
  remove a (x ∷ xs) = let rest = remove a xs in if k.same x a then rest else x ∷ rest

  pub contains-insert :
      (a b : A) (s : List A) → contains b (insert a s) ≡ (k.same a b || contains b s)
  unfolding insert
  contains-insert a b s = ground (arith, k.same_iff a b)

  pub contains-remove :
      (a b : A) (s : List A) → contains b (remove a s) ≡ (not (k.same a b) && contains b s)
  unfolding contains remove
  contains-remove a b [] = ground arith
  contains-remove a b (x ∷ xs) =
      ground (arith, contains-remove a b xs, k.same_iff x a, k.same_iff x b, k.same_iff a b)

  -- Loops over a list that insert, remove, or collect what a set lacks.
  unfoldable pub insert_each : List A → List A → List A
  insert_each [] s = s
  insert_each (x ∷ xs) s = insert_each xs (insert x s)

  unfoldable pub remove_each : List A → List A → List A
  remove_each [] s = s
  remove_each (x ∷ xs) s = remove_each xs (remove x s)

  unfoldable pub absent_from : List A → List A → List A
  absent_from s [] = []
  absent_from s (x ∷ xs) = if contains x s then absent_from s xs else x ∷ absent_from s xs

  pub contains-insert_each :
      (b : A) (xs s : List A) → contains b (insert_each xs s) ≡ (contains b xs || contains b s)
  unfolding contains insert_each
  contains-insert_each b [] s = ground arith
  contains-insert_each b (x ∷ xs) s =
      ground (arith, contains-insert_each b xs (insert x s), contains-insert x b s)

  pub contains-remove_each :
      (b : A) (xs s : List A)
      → contains b (remove_each xs s) ≡ (not (contains b xs) && contains b s)
  unfolding contains remove_each
  contains-remove_each b [] s = ground arith
  contains-remove_each b (x ∷ xs) s =
      ground (arith, contains-remove_each b xs (remove x s), contains-remove x b s)

  pub contains-absent_from :
      (b : A) (s xs : List A)
      → contains b (absent_from s xs) ≡ (contains b xs && not (contains b s))
  unfolding contains absent_from
  contains-absent_from b s [] = ground arith
  contains-absent_from b s (x ∷ xs) = ground (arith, contains-absent_from b s xs, k.same_iff x b)

  pub contains-append :
      (b : A) (xs ys : List A) → contains b (xs ++ ys) ≡ (contains b xs || contains b ys)
  unfolding contains
  contains-append b [] ys = ground arith
  contains-append b (x ∷ xs) ys = ground (arith, contains-append b xs ys)
