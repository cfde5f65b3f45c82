-- ===== src/Client/Watch/Redirects.antt =====
-- The redirections that a watch stream follows, and how long it sleeps.
use fleetos_agent.Prelude.{
  Option, none, some, Bytes, ltb, Bool-cases, inl, inr, ℕ, ◌+◌, ◌≤◌, ◌<◌, List, [], ◌∷◌, ◌≡◌, refl,
  arith, All, ◌∙◌,
}
use fleetos_agent.Client.Retry.{
  RetryAction, retry_same_target, redirect_and_retry, give_up, classify_error, backoff_ms,
  max_retry_delay_ms,
}
use fleetos_agent.Client.Retry.Bounds.{Within, classify_error-Within}
use fleetos_agent.Client.Watch.{
  new_watch, Phase, connecting, streaming, Watch, Event, no_channel, opened, refused, message,
  closed, stream_error, Output, step, run, on_refused, on_stream_error, on_message,
}

backoff_ms-le : (n : ℕ) → backoff_ms n ≤ max_retry_delay_ms
unfolding backoff_ms
backoff_ms-le n = ground arith

-- The redirections that a step follows.
abbrev pub followed : Option Bytes → ℕ
followed none = 0
followed (some target) = 1

module _ (A : Type 0) where
  on_refused-Counted :
      (w : Watch) (action : RetryAction) (n : ℕ)
      → Within action w.redirect_hops
      → n ≤ w.redirect_hops
      → w.redirect_hops ≤ 6
      → let (w', o) = on_refused {A = A} action w in
        (n + followed o.retargeted ≤ w'.redirect_hops) × (w'.redirect_hops ≤ 6) × (o.slept ≤ 5000)
  unfolding on_refused
  on_refused-Counted w (retry_same_target delay) n h c le = (omega arith, le, omega arith)
  on_refused-Counted w (redirect_and_retry target delay) n h c le =
      (omega arith, omega arith, omega arith)
  on_refused-Counted w (give_up reason) n h c le =
      (omega arith, le, backoff_ms-le (w.consecutive_failures + 1))

  on_stream_error-Counted :
      (w : Watch) (action : RetryAction) (n : ℕ)
      → Within action w.redirect_hops
      → n ≤ w.redirect_hops
      → w.redirect_hops ≤ 6
      → let (w', o) = on_stream_error {A = A} action w in
        (n + followed o.retargeted ≤ w'.redirect_hops) × (w'.redirect_hops ≤ 6) × (o.slept ≤ 5000)
  unfolding on_stream_error
  on_stream_error-Counted w (retry_same_target delay) n h c le = (omega arith, le, omega arith)
  on_stream_error-Counted w (redirect_and_retry target delay) n h c le =
      (omega arith, omega arith, omega arith)
  on_stream_error-Counted w (give_up reason) n h c le = (omega arith, le, omega arith)

module _ {A : Type 0} where
  -- The count after an event: it starts again where a stream opens.
  abbrev pub count_after : ℕ → Event A → Output A → ℕ
  count_after n opened o = 0
  count_after n _ o = n + followed o.retargeted

  -- At no point of an execution have more than six redirections been followed since a stream was open, `n` at
  -- its start, and no step sleeps longer than five seconds.
  pub AtMostSix : ℕ → List (Event A) → List (Output A) → Type 0
  AtMostSix n [] [] = n ≤ 6
  AtMostSix n (e ∷ events) (o ∷ outputs) =
      (n ≤ 6) × (o.slept ≤ 5000) × AtMostSix (count_after n e o) events outputs
  AtMostSix n _ _ = ⊥

  -- What a step does to the count.
  abbrev Counted : ℕ → Event A → Watch × Output A → Type 0
  Counted n e (w, o) =
      (count_after n e o ≤ w.redirect_hops) × (w.redirect_hops ≤ 6) × (o.slept ≤ 5000)

  on_message-Counted :
      (version : ℕ) (update : A) (w : Watch) (n : ℕ)
      → n ≤ w.redirect_hops
      → w.redirect_hops ≤ 6
      → let (w', o) = on_message version update w in
        (n + followed o.retargeted ≤ w'.redirect_hops) × (w'.redirect_hops ≤ 6) × (o.slept ≤ 5000)
  unfolding on_message
  on_message-Counted version update w n c le =
      elim (Bool-cases (ltb w.last_known_version version)) [
        | inl newer ↦ rw newer (omega arith, le, omega arith)
        | inr old ↦ rw old (omega arith, le, omega arith)
      ]

  step-Counted :
      (phase : Phase) (e : Event A) (w : Watch) (n : ℕ)
      → n ≤ w.redirect_hops
      → w.redirect_hops ≤ 6
      → Counted n e (step phase e w)
  unfolding step
  step-Counted connecting (no_channel e) w n c le = (omega arith, le, omega arith)
  step-Counted connecting opened w n c le = (omega arith, omega arith, omega arith)
  step-Counted connecting (refused status) w n c le =
      on_refused-Counted A w (classify_error status w.redirect_hops) n
        (classify_error-Within status w.redirect_hops) c le
  step-Counted connecting (message version update) w n c le = (omega arith, le, omega arith)
  step-Counted connecting closed w n c le = (omega arith, le, omega arith)
  step-Counted connecting (stream_error status) w n c le = (omega arith, le, omega arith)
  step-Counted streaming (no_channel e) w n c le = (omega arith, le, omega arith)
  step-Counted streaming opened w n c le = (omega arith, le, omega arith)
  step-Counted streaming (refused status) w n c le = (omega arith, le, omega arith)
  step-Counted streaming (message version update) w n c le =
      on_message-Counted version update w n c le
  step-Counted streaming closed w n c le = (omega arith, le, omega arith)
  step-Counted streaming (stream_error status) w n c le =
      on_stream_error-Counted A w (classify_error status w.redirect_hops) n
        (classify_error-Within status w.redirect_hops) c le

  run-AtMostSix :
      (events : List (Event A)) (w : Watch) (n : ℕ)
      → n ≤ w.redirect_hops
      → w.redirect_hops ≤ 6
      → AtMostSix n events (run events w).1
  unfolding run AtMostSix
  run-AtMostSix [] w n c le = omega arith
  run-AtMostSix (e ∷ events) w n c le =
      let (w', o) = step w.phase e w in
      let (c', le', slept) = step-Counted w.phase e w n c le in
      (omega arith, slept, run-AtMostSix events w' (count_after n e o) c' le')

  -- Whatever the client and the server return: a stream never retargets the client more than six
  -- times without a stream having been opened in between, and it never sleeps longer than five seconds.
  pub redirects_bounded : (events : List (Event A)) → AtMostSix 0 events (run events new_watch).1
  redirects_bounded events = run-AtMostSix events new_watch 0 (omega arith) (omega arith)

  -- An event that opens no stream.
  abbrev pub IsFailure : Event A → Type 0
  IsFailure (no_channel e) = Unit
  IsFailure (refused status) = Unit
  IsFailure _ = ⊥

  failure-step :
      (phase : Phase) (e : Event A) (w : Watch)
      → phase ≡ connecting
      → w.phase ≡ connecting
      → 5 < w.redirect_hops
      → IsFailure e
      → let w' = (step phase e w).0 in
        (w'.phase ≡ connecting) × (w'.target ≡ w.target) × (w'.redirect_hops ≡ w.redirect_hops)
  unfolding step on_refused classify_error
  failure-step connecting (no_channel e) w is_connecting connects over failure =
      (connects, refl, refl)
  failure-step connecting (refused status) w is_connecting connects over failure = ground arith
  failure-step connecting opened w is_connecting connects over failure = elim failure [ ]
  failure-step connecting (message _ _) w is_connecting connects over failure = elim failure [ ]
  failure-step connecting closed w is_connecting connects over failure = elim failure [ ]
  failure-step connecting (stream_error _) w is_connecting connects over failure = elim failure [ ]
  failure-step streaming e w is_connecting connects over failure = ground arith

  -- Past the limit of redirections, a stream that is not open keeps its target: as long as no stream
  -- opens at that target, no answer changes the target or the count, even one that names the leader.
  pub limit_is_final :
      (events : List (Event A)) (w : Watch)
      → w.phase ≡ connecting
      → 5 < w.redirect_hops
      → All IsFailure events
      → ((run events w).0.target ≡ w.target) × ((run events w).0.redirect_hops ≡ w.redirect_hops)
  unfolding run
  limit_is_final [] w connects over failures = (refl, refl)
  limit_is_final (e ∷ events) w connects over failures =
      let stepped = failure-step w.phase e w connects connects over failures.0 in
      let rest =
        limit_is_final events (step w.phase e w).0 stepped.0 (omega (arith, stepped.2))
          failures.1 in
      (rest.0 ∙ stepped.1, rest.1 ∙ stepped.2)
