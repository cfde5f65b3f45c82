-- ===== src/Exec.antt =====
-- Methods that change what `self` or the storage holds and may fail: the state comes back beside
-- the error too, since what was written before a failure stays written.
use fleetos_agent.Prelude.{◌≡◌, refl, ap, ◌⊎◌, inl, inr, arith}
use fleetos_agent.Errors.{AgentError, Result, ok, err, Result-cases}

abbrev pub Exec {ℓ} : Type ℓ → Type ℓ → Type ℓ
Exec S A = S → Result A × S

module _ {ℓ} {S A : Type ℓ} where
  abbrev pub pure : A → Exec S A
  pure a s = (ok a, s)

  abbrev pub raise : AgentError → Exec S A
  raise e s = (err e, s)

  abbrev pub lift : Result A → Exec S A
  lift r s = (r, s)

  -- What is read of the state, with the error that the reading may meet.
  abbrev pub reads : (S → Result A) → Exec S A
  reads f s = (f s, s)

-- A write that fails leaves the state as it was.
abbrev pub written {ℓ} : {S : Type ℓ} → S → Result S → Result (Unit {ℓ}) × S
written s (ok t) = (ok tt, t)
written s (err e) = (err e, s)

abbrev pub writes {ℓ} : {S : Type ℓ} → (S → Result S) → Exec S (Unit {ℓ})
writes f s = written s (f s)

module _ {ℓ} {S A B : Type ℓ} where
  abbrev pub continue : Result A → (A → Exec S B) → Exec S B
  continue (ok a) f s = f a s
  continue (err e) f s = (err e, s)

  infixl 10 ◌>>=◌ ◌>>◌
  abbrev pub ◌>>=◌ : Exec S A → (A → Exec S B) → Exec S B
  ◌>>=◌ m f s = continue (m s).0 f (m s).1

  abbrev pub ◌>>◌ : Exec S A → Exec S B → Exec S B
  m >> k = m >>= λ _. k

-- A run that succeeds after a write, and one that fails after a write.
pub writes-ok {ℓ} :
    {S A : Type ℓ} (f : S → Result S) (m : Exec S A) (s t : S) (a : A)
    → (writes f >> m) s ≡ (ok a, t)
    → (u : S) × (f s ≡ ok u) × (m u ≡ (ok a, t))
writes-ok f m s t a e = elim (Result-cases (f s)) [
  | inl (u, q) ↦ (u, q, ground arith)
  | inr (e', q) ↦ ground arith
]

pub writes-err {ℓ} :
    {S A : Type ℓ} (f : S → Result S) (m : Exec S A) (s t : S) (e : AgentError)
    → (writes f >> m) s ≡ (err e, t)
    → (t ≡ s) ⊎ ((u : S) × (f s ≡ ok u) × (m u ≡ (err e, t)))
writes-err f m s t e h = elim (Result-cases (f s)) [
  | inl (u, q) ↦ inr (u, q, ground arith)
  | inr (e', q) ↦ inl (ground arith)
]

continue-ok {ℓ} :
    {S A B : Type ℓ} (r : Result A) (u : S) (f : A → Exec S B) (b : B) (t : S)
    → continue r f u ≡ (ok b, t)
    → (a : A) × (r ≡ ok a) × (f a u ≡ (ok b, t))
continue-ok (ok a) u f b t e = (a, refl, e)
continue-ok (err e') u f b t e = absurd (ground arith)

-- A run in two parts that succeeds has parts that succeed.
pub bind-ok {ℓ} :
    {S A B : Type ℓ} (m : Exec S A) (f : A → Exec S B) (s t : S) (b : B)
    → (m >>= f) s ≡ (ok b, t)
    → (a : A) × (u : S) × (m s ≡ (ok a, u)) × (f a u ≡ (ok b, t))
bind-ok m f s t b e =
    let (a, q, rest) = continue-ok (m s).0 (m s).1 f b t e in
    (a, (m s).1, ap (λ r. (r, (m s).1)) q, rest)

pub lift-ok {ℓ} :
    {S A B : Type ℓ} (r : Result A) (f : A → Exec S B) (s t : S) (b : B)
    → (lift r >>= f) s ≡ (ok b, t)
    → (a : A) × (r ≡ ok a) × (f a s ≡ (ok b, t))
lift-ok r f s t b e = continue-ok r s f b t e

-- A run that fails after a computation without effect has failed in it, and left the state, or after it.
pub lift-err {ℓ} :
    {S A B : Type ℓ} (r : Result A) (f : A → Exec S B) (s t : S) (e : AgentError)
    → (lift r >>= f) s ≡ (err e, t)
    → ((a : A) → f a s ≡ (err e, t) → t ≡ s)
    → t ≡ s
lift-err (ok a) f s t e h rest = rest a h
lift-err (err e') f s t e h rest = ground arith
