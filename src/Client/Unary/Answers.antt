-- ===== src/Client/Unary/Answers.antt =====
-- Whose answer the loops of src/client/unary.rs return.
use fleetos_agent.Prelude.{
  ℕ, ◌+◌, ◌≤◌, ◌∙◌, List, [], ◌∷◌, ◌≡◌, ◌⊎◌, inl, inr, refl, sym, subst, ltb, Bool-cases,
}
use fleetos_agent.Errors.{Result, ok, err}
use fleetos_agent.Client.Channels.{Tonic}
use fleetos_agent.Client.Connection.{World, ControlPlaneClient, get_channel}
use fleetos_agent.Client.Connection.Current.{
  Built, Current, Returns, get_channel-Current, get_channel-generation, retarget-Current,
  retarget-generation,
}
use fleetos_agent.Client.Retry.{
  RetryAction, retry_same_target, redirect_and_retry, give_up, classify_error,
}
use fleetos_agent.Client.Unary.{
  Round, Answer, response, failure, Loop, start, resume, Progress, returned, pending, on_action,
  on_answer, on_channel, round, call,
}

module _ (tonic : Tonic) {Request Response A : Type 0} (into_inner : Response → A)
    (request : Request) where
  -- The server answered the request in this round, on a channel to the client's target.
  pub record Answers (seen : List (World tonic)) (r : Round tonic Request Response) (a : A)
      (c : ControlPlaneClient tonic) : Type 0 where
    pub chan : tonic.Channel
    pub inner : Response
    pub answered : r.answer chan request ≡ response inner
    pub result_is : into_inner inner ≡ a
    pub to_target :
        Built tonic seen c.current_target c.trust_bundle_pem r.world.svid.generation chan

  -- In one of the rounds, where the client has met the worlds of the rounds up to it and those before.
  abbrev pub AnsweredIn :
      List (World tonic)
      → List (Round tonic Request Response)
      → A
      → ControlPlaneClient tonic
      → Type 0
  AnsweredIn seen [] a c = ⊥
  AnsweredIn seen (r ∷ rounds) a c =
      Answers (r.world ∷ seen) r a c ⊎ AnsweredIn (r.world ∷ seen) rounds a c

  -- What is claimed of a loop's end.
  abbrev pub Sound :
      List (World tonic) → List (Round tonic Request Response) → Progress tonic A → Type 0
  Sound seen rounds (returned (ok a) l c) = AnsweredIn seen rounds a c
  Sound seen rounds (returned (err e) l c) = Unit
  Sound seen rounds (pending l c) = Unit

  -- The generation never falls from round to round.
  abbrev pub Climbing : ℕ → List (Round tonic Request Response) → Type 0
  Climbing g [] = Unit
  Climbing g (r ∷ rounds) = (g ≤ r.world.svid.generation) × Climbing r.world.svid.generation rounds

  abbrev Ready :
      List (World tonic) → Round tonic Request Response → ControlPlaneClient tonic → Type 0
  Ready seen r c = Current tonic seen c × (c.last_svid_generation ≡ r.world.svid.generation)

  abbrev Fine : List (World tonic) → Round tonic Request Response → Progress tonic A → Type 0
  Fine seen r (returned (ok a) l c) = Answers seen r a c
  Fine seen r (returned (err e) l c) = Unit
  Fine seen r (pending l c) = Ready seen r c

  on_action-Fine :
      (seen : List (World tonic)) (r : Round tonic Request Response) (action : RetryAction)
      (l : Loop) (c : ControlPlaneClient tonic)
      → Ready seen r c
      → Fine seen r (on_action tonic into_inner request action l c)
  unfolding on_action
  on_action-Fine seen r (redirect_and_retry target d) l c h =
      (retarget-Current tonic seen target c h.0, retarget-generation tonic target c ∙ h.1)
  on_action-Fine seen r (retry_same_target d) l c h =
      elim (Bool-cases (ltb 3 (l.transient_retries + 1))) [
        | inl many ↦ rw many tt
        | inr few ↦ rw few h
      ]
  on_action-Fine seen r (give_up reason) l c h = tt

  on_answer-Fine :
      (seen : List (World tonic)) (r : Round tonic Request Response) (chan : tonic.Channel)
      (a : Answer Response) (l : Loop) (c : ControlPlaneClient tonic)
      → r.answer chan request ≡ a
      → Built tonic seen c.current_target c.trust_bundle_pem r.world.svid.generation chan
      → Ready seen r c
      → Fine seen r (on_answer tonic into_inner request a l c)
  unfolding on_answer
  on_answer-Fine seen r chan (response inner) l c e b h = record {
    chan = chan;
    inner = inner;
    answered = e;
    result_is = refl;
    to_target = b;
  }
  on_answer-Fine seen r chan (failure status) l c e b h =
      on_action-Fine seen r (classify_error status l.redirect_hops) l c h

  on_channel-Fine :
      (seen : List (World tonic)) (r : Round tonic Request Response) (asked : Result tonic.Channel)
      (l : Loop) (c : ControlPlaneClient tonic)
      → Returns tonic seen asked c
      → Ready seen r c
      → Fine seen r (on_channel tonic into_inner request r asked l c)
  unfolding on_channel
  on_channel-Fine seen r (err e) l c b h = tt
  on_channel-Fine seen r (ok chan) l c b h =
      on_answer-Fine seen r chan (r.answer chan request) l c refl
        (subst (λ g. Built tonic seen c.current_target c.trust_bundle_pem g chan) h.1 b) h

  Sound-weaken :
      (seen : List (World tonic)) (r : Round tonic Request Response)
      (rounds : List (Round tonic Request Response)) (p : Progress tonic A)
      → Sound (r.world ∷ seen) rounds p
      → Sound seen (r ∷ rounds) p
  Sound-weaken seen r rounds (returned (ok a) l c) s = inr s
  Sound-weaken seen r rounds (returned (err e) l c) s = tt
  Sound-weaken seen r rounds (pending l c) s = tt

  resume-Sound :
      (seen : List (World tonic)) (again : Loop → ControlPlaneClient tonic → Progress tonic A)
      (p : Progress tonic A) (r : Round tonic Request Response)
      (rounds : List (Round tonic Request Response))
      → Fine (r.world ∷ seen) r p
      → ((l : Loop) (c : ControlPlaneClient tonic)
          → Ready (r.world ∷ seen) r c
          → Sound (r.world ∷ seen) rounds (again l c))
      → Sound seen (r ∷ rounds) (resume tonic again p)
  resume-Sound seen again (returned (ok a) l c) r rounds h rest = inl h
  resume-Sound seen again (returned (err e) l c) r rounds h rest = tt
  resume-Sound seen again (pending l c) r rounds h rest =
      Sound-weaken seen r rounds (again l c) (rest l c h)

  call-Sound :
      (seen : List (World tonic)) (rounds : List (Round tonic Request Response)) (l : Loop)
      (c : ControlPlaneClient tonic)
      → Climbing c.last_svid_generation rounds
      → Current tonic seen c
      → Sound seen rounds (call tonic into_inner request rounds l c)
  unfolding call
  call-Sound seen [] l c g h = tt
  call-Sound seen (r ∷ rounds) l c g h =
      let met = r.world ∷ seen in
      let got = get_channel-Current tonic seen r.world c g.0 h in
      let now = get_channel-generation tonic r.world c g.0 in
      resume-Sound seen (call tonic into_inner request rounds)
        (round tonic into_inner request r l c) r rounds
        (on_channel-Fine met r (get_channel tonic r.world c).0 l (get_channel tonic r.world c).1
          got.0 (got.1, now))
        (λ l' c' ready.
          call-Sound met rounds l' c' (subst (λ n. Climbing n rounds) (sym ready.1) g.1) ready.0)

  -- A unary call, where the generation of the SVID never falls and the client starts with no channel or
  -- with one that it built for its target and generation in a world that it has met: it succeeds only with what
  -- the server answered to the call's own request in one of its rounds, on a channel to the client's
  -- target at the time, the leader that it was sent to included, which was built in that round or before, with
  -- the SVID that the node had then, whose generation is that of the round.
  pub call-answered :
      (seen : List (World tonic)) (rounds : List (Round tonic Request Response))
      (c : ControlPlaneClient tonic)
      → Climbing c.last_svid_generation rounds
      → Current tonic seen c
      → Sound seen rounds (call tonic into_inner request rounds start c)
  call-answered seen rounds c g h = call-Sound seen rounds start c g h
