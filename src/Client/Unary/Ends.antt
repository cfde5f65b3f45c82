-- ===== src/Client/Unary/Ends.antt =====
-- The loops of src/client/unary.rs end, and what they return is the server's answer.
use fleetos_agent.Prelude.{
  ◌+◌, ◌*◌, ◌≤◌, List, [], ◌∷◌, ◌≡◌, inl, inr, arith, length, ltb, Bool-cases,
}
use fleetos_agent.Errors.{Result, ok, err}
use fleetos_agent.Client.Channels.{Tonic}
use fleetos_agent.Client.Connection.{ControlPlaneClient, get_channel}
use fleetos_agent.Client.Retry.{
  RetryAction, retry_same_target, redirect_and_retry, give_up, classify_error,
}
use fleetos_agent.Client.Retry.Bounds.{Within, classify_error-Within}
use fleetos_agent.Client.Unary.{
  Round, Answer, response, failure, Loop, Progress, returned, pending, start, resume, on_action,
  on_answer, on_channel, round, call,
}

-- What a loop has spent, and what it can still spend.
pub record Spent (l : Loop) : Type 0 where
  pub hops_le : l.redirect_hops ≤ 6
  pub retries_le : l.transient_retries ≤ 3
  pub slept_le : l.slept ≤ 3200 * l.transient_retries

module _ (tonic : Tonic) {A : Type 0} where
  -- The end of a loop that slept at most so long.
  abbrev pub Ended : Progress tonic A → Type 0
  Ended (returned result l c) = (l.redirect_hops ≤ 6) × (l.slept ≤ 9600)
  Ended (pending l c) = ⊥

  -- A round ends the loop or spends a hop or a retry.
  abbrev Advances : Loop → Progress tonic A → Type 0
  Advances l (returned result l' c) = (l'.redirect_hops ≤ 6) × (l'.slept ≤ 9600)
  Advances l (pending l' c) =
      Spent l'
      × (l.redirect_hops + l.transient_retries + 1 ≡ l'.redirect_hops + l'.transient_retries)

  module _ {Request Response : Type 0} (into_inner : Response → A) (request : Request) where
    on_action-Advances :
        (action : RetryAction) (l : Loop) (c : ControlPlaneClient tonic)
        → Within action l.redirect_hops
        → Spent l
        → Advances l (on_action tonic into_inner request action l c)
    unfolding on_action
    on_action-Advances (redirect_and_retry t d) l c w s = (
      record {
        hops_le = omega (arith, s.hops_le, w.0);
        retries_le = s.retries_le;
        slept_le = s.slept_le;
      },
      omega arith,
    )
    on_action-Advances (retry_same_target d) l c w s =
        elim (Bool-cases (ltb 3 (l.transient_retries + 1))) [
          | inl many ↦ rw many (s.hops_le, omega (arith, s.slept_le, s.retries_le))
          | inr few ↦ rw few (
            record {
              hops_le = s.hops_le;
              retries_le = ground arith;
              slept_le = omega (arith, s.slept_le, w.1);
            },
            omega arith,
          )
        ]
    on_action-Advances (give_up reason) l c w s =
        (s.hops_le, omega (arith, s.slept_le, s.retries_le))

    on_answer-Advances :
        (a : Answer Response) (l : Loop) (c : ControlPlaneClient tonic)
        → Spent l
        → Advances l (on_answer tonic into_inner request a l c)
    unfolding on_answer
    on_answer-Advances (response a) l c s = (s.hops_le, omega (arith, s.slept_le, s.retries_le))
    on_answer-Advances (failure status) l c s =
        on_action-Advances (classify_error status l.redirect_hops) l c
          (classify_error-Within status l.redirect_hops) s

    on_channel-Advances :
        (r : Round tonic Request Response) (asked : Result tonic.Channel) (l : Loop)
        (c : ControlPlaneClient tonic)
        → Spent l
        → Advances l (on_channel tonic into_inner request r asked l c)
    unfolding on_channel
    on_channel-Advances r (err e) l c s = (s.hops_le, omega (arith, s.slept_le, s.retries_le))
    on_channel-Advances r (ok chan) l c s = on_answer-Advances (r.answer chan request) l c s

    resume-Ended :
        (again : Loop → ControlPlaneClient tonic → Progress tonic A) (p : Progress tonic A)
        (l : Loop)
        → Advances l p
        → ((l' : Loop) (c' : ControlPlaneClient tonic)
            → Spent l'
            → l.redirect_hops + l.transient_retries + 1 ≡ l'.redirect_hops + l'.transient_retries
            → Ended (again l' c'))
        → Ended (resume tonic again p)
    resume-Ended again (returned result l' c') l h rest = h
    resume-Ended again (pending l' c') l h rest = rest l' c' h.0 h.1

    call-Ended :
        (rounds : List (Round tonic Request Response)) (l : Loop) (c : ControlPlaneClient tonic)
        → Spent l
        → 10 ≤ length rounds + l.redirect_hops + l.transient_retries
        → Ended (call tonic into_inner request rounds l c)
    unfolding call
    call-Ended [] l c s h = omega (arith, s.hops_le, s.retries_le, h)
    call-Ended (r ∷ rounds) l c s h =
        resume-Ended (call tonic into_inner request rounds) (round tonic into_inner request r l c) l
          (on_channel-Advances r (get_channel tonic r.world c).0 l (get_channel tonic r.world c).1
            s)
          (λ l' c' s' e. call-Ended rounds l' c' s' (omega (arith, h, e)))

    -- Ten rounds are enough, whatever the server answers and the client finds: every unary call returns
    -- after at most that many, having followed at most six redirections and slept at most 9.6 seconds.
    pub call_ends :
        (rounds : List (Round tonic Request Response)) (c : ControlPlaneClient tonic)
        → 10 ≤ length rounds
        → Ended (call tonic into_inner request rounds start c)
    call_ends rounds c h =
        call-Ended rounds start c
          (record { hops_le = omega arith; retries_le = omega arith; slept_le = omega arith })
          (omega (arith, h))
