-- ===== src/Identity/Keystore/Recovers.antt =====
-- Runs of src/identity/keystore.rs that yield a given value or fail.
use fleetos_agent.Prelude.{true, Option, none, some, ◌≡◌, ◌⊎◌, inr, refl, arith}
use fleetos_agent.Errors.{AgentError, Result, ok, err, is_err}
use fleetos_agent.Exec.{Exec, lift, ◌>>=◌}
use fleetos_agent.Identity.Keystore.{required}

module _ {S A : Type 0} where
  -- The run yields the value or fails: it never yields another value.
  abbrev pub Recovers : A → Result A × S → Type 0
  Recovers a run = (run.0 ≡ ok a) ⊎ (is_err run.0 ≡ true)

  pub lift-Recovers :
      {B : Type 0} (r : Result B) (f : B → Exec S A) (s : S) (a : A)
      → ((b : B) → r ≡ ok b → Recovers a (f b s))
      → Recovers a ((lift r >>= f) s)
  lift-Recovers (ok b) f s a h = h b refl
  lift-Recovers (err e) f s a h = inr refl

pub required-ok :
    {A : Type 0} (e : AgentError) (o : Option A) (a : A) → required e o ≡ ok a → o ≡ some a
required-ok e none a h = absurd (ground arith)
required-ok e (some b) a h = ground arith
