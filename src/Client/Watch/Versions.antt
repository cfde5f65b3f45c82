-- ===== src/Client/Watch/Versions.antt =====
-- The versions of the frames that a watch stream yields.
use fleetos_agent.Prelude.{
  ℕ, ◌<◌, Option, none, some, List, [], ◌∷◌, ◌≡◌, ◌⊎◌, inl, inr, refl, subst, arith,
}
use fleetos_agent.Errors.{ok, err}
use fleetos_agent.Client.Retry.{
  RetryAction, retry_same_target, redirect_and_retry, give_up, classify_error,
}
use fleetos_agent.Client.Watch.{
  Phase, connecting, streaming, Watch, Event, no_channel, opened, refused, message, closed,
  stream_error, Output, step, run, on_refused, on_stream_error, on_message,
}

-- The version of the frame that an output yields, if it yields one.
abbrev pub version_of : {A : Type 0} → Output A → Option ℕ
version_of o = elim o.yielded [
  | none ↦ none
  | some (err e) ↦ none
  | some (ok (version, update)) ↦ some version
]

on_refused-version :
    (A : Type 0) (action : RetryAction) (w : Watch)
    → (version_of (on_refused {A = A} action w).1 ≡ none)
      × ((on_refused {A = A} action w).0.last_known_version ≡ w.last_known_version)
unfolding on_refused
on_refused-version A (retry_same_target delay) w = (refl, refl)
on_refused-version A (redirect_and_retry new_target delay) w = (refl, refl)
on_refused-version A (give_up reason) w = (refl, refl)

on_stream_error-version :
    (A : Type 0) (action : RetryAction) (w : Watch)
    → (version_of (on_stream_error {A = A} action w).1 ≡ none)
      × ((on_stream_error {A = A} action w).0.last_known_version ≡ w.last_known_version)
unfolding on_stream_error
on_stream_error-version A (retry_same_target delay) w = (refl, refl)
on_stream_error-version A (redirect_and_retry new_target delay) w = (refl, refl)
on_stream_error-version A (give_up reason) w = (refl, refl)

module _ {A : Type 0} where
  -- The yielded versions rise strictly from a floor, and the last is the ceiling.
  abbrev pub Climbs : ℕ → List (Output A) → ℕ → Type 0
  Climbs floor [] ceiling = floor ≡ ceiling
  Climbs floor (o ∷ outputs) ceiling = elim (version_of o) [
    | none ↦ Climbs floor outputs ceiling
    | some version ↦ (floor < version) × Climbs version outputs ceiling
  ]

  -- A step yields a newer frame, whose version it records, or none.
  step-version :
      (phase : Phase) (e : Event A) (w : Watch)
      → let (w', o) = step phase e w in
        ((version_of o ≡ none) × (w'.last_known_version ≡ w.last_known_version))
        ⊎ ((version_of o ≡ some w'.last_known_version)
            × (w.last_known_version < w'.last_known_version))
  unfolding step on_message
  step-version connecting (no_channel e) w = inl (refl, refl)
  step-version connecting opened w = inl (refl, refl)
  step-version connecting (refused status) w =
      inl (on_refused-version A (classify_error status w.redirect_hops) w)
  step-version connecting (message version update) w = inl (refl, refl)
  step-version connecting closed w = inl (refl, refl)
  step-version connecting (stream_error status) w = inl (refl, refl)
  step-version streaming (no_channel e) w = inl (refl, refl)
  step-version streaming opened w = inl (refl, refl)
  step-version streaming (refused status) w = inl (refl, refl)
  step-version streaming (message version update) w = ground arith
  step-version streaming closed w = inl (refl, refl)
  step-version streaming (stream_error status) w =
      inl (on_stream_error-version A (classify_error status w.redirect_hops) w)

  Climbs-cons :
      (floor next ceiling : ℕ) (o : Output A) (outputs : List (Output A))
      → ((version_of o ≡ none) × (next ≡ floor)) ⊎ ((version_of o ≡ some next) × (floor < next))
      → Climbs next outputs ceiling
      → Climbs floor (o ∷ outputs) ceiling
  Climbs-cons floor next ceiling o outputs (inl (q, same)) rest =
      rw (q, Climbs) (subst (λ n. Climbs n outputs ceiling) same rest)
  Climbs-cons floor next ceiling o outputs (inr (q, less)) rest = rw (q, Climbs) (less, rest)

  -- Stale frames are discarded: whatever the client and the stream return, the versions of the frames
  -- that a stream yields rise strictly, above the version known at the start and through every
  -- reconnection, and the last of them is the version known at the end, with which the stream is
  -- opened again.
  pub yields-Climbs :
      (events : List (Event A)) (w : Watch)
      → Climbs w.last_known_version (run events w).1 (run events w).0.last_known_version
  unfolding run
  yields-Climbs [] w = refl
  yields-Climbs (e ∷ events) w =
      Climbs-cons w.last_known_version (step w.phase e w).0.last_known_version
        (run (e ∷ events) w).0.last_known_version (step w.phase e w).1
        (run events (step w.phase e w).0).1 (step-version w.phase e w)
        (yields-Climbs events (step w.phase e w).0)
