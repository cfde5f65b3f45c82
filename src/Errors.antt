-- ===== src/Errors.antt =====
-- src/error.rs: the agent's error type, and results with their `?` operator. A message that the
-- source formats stands here without the values formatted into it.
use fleetos_agent.Prelude.{String, Bool, true, false, ◌≡◌, refl, ◌⊎◌, inl, inr}

pub data AgentError : Type 0 where
  pending_upstream config storage serialization grpc grpc_transport rpc : String → AgentError
  attestation identity ebpf io : String → AgentError
  no_svid : AgentError
  join_failed secret policy workload internal : String → AgentError

pub is_pending_upstream : AgentError → Bool
is_pending_upstream (pending_upstream feature) = true
is_pending_upstream _ = false

pub data Result {ℓ} (A : Type ℓ) : Type ℓ where
  ok : A → Result A
  err : AgentError → Result A

infixl 5 ◌>>=◌ ◌>>◌
abbrev pub ◌>>=◌ {ℓ κ} : {A : Type ℓ} {B : Type κ} → Result A → (A → Result B) → Result B
ok a >>= f = f a
err e >>= f = err e

abbrev pub ◌>>◌ {ℓ κ} : {A : Type ℓ} {B : Type κ} → Result A → Result B → Result B
m >> k = m >>= λ _. k

-- To split on a computed result and keep the equation.
pub Result-cases {ℓ} :
    {A : Type ℓ} (r : Result A) → ((a : A) × (r ≡ ok a)) ⊎ ((e : AgentError) × (r ≡ err e))
Result-cases (ok a) = inl (a, refl)
Result-cases (err e) = inr (e, refl)

-- Whether a result is an acceptance.
abbrev pub is_ok_true : Result Bool → Bool
is_ok_true (ok b) = b
is_ok_true (err e) = false

abbrev pub is_err {ℓ} : {A : Type ℓ} → Result A → Bool
is_err (ok a) = false
is_err (err e) = true
