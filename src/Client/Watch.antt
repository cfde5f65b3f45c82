-- ===== src/Client/Watch.antt =====
-- src/client/watch.rs: the reconnecting streams, as steps on their local state. A step's event is what
-- the awaited call returns, so an execution is a list of events; `get_channel`, the call that opens
-- the stream and the stream itself belong to the client and to tonic.
pub mod Versions
pub mod Redirects
use fleetos_agent.Prelude.{
  ℕ, ◌+◌, ◌%◌, ◌^◌, Bool, true, false, Option, none, some, List, [], ◌∷◌, Bytes, ltb, if◌then◌else◌,
}
use fleetos_agent.Errors.{AgentError, rpc, Result, ok, err}
use fleetos_agent.Client.Retry.{
  Status, RetryAction, retry_same_target, redirect_and_retry, give_up, classify_error, backoff_ms,
  base_retry_delay_ms,
}

-- Whether the loop waits for a channel and for the stream to open, or for a message.
pub data Phase : Type 0 where
  connecting streaming : Phase

-- The local variables of the stream, and the client's target where it has been retargeted.
pub record Watch : Type 0 where
  pub phase : Phase
  pub last_known_version : ℕ
  pub redirect_hops : ℕ
  pub consecutive_failures : ℕ
  pub target : Option Bytes

abbrev pub new_watch : Watch
new_watch = record {
  phase = connecting;
  last_known_version = 0;
  redirect_hops = 0;
  consecutive_failures = 0;
  target = none;
}

-- A frame is its version and what it carries.
pub data Event (A : Type 0) : Type 0 where
  no_channel : AgentError → Event A
  opened : Event A
  refused : Status → Event A
  message : ℕ → A → Event A
  closed : Event A
  stream_error : Status → Event A

-- What a step yields to the consumer, to which address it retargets the client, and how long it
-- sleeps, in milliseconds.
pub record Output (A : Type 0) : Type 0 where
  pub yielded : Option (Result (ℕ × A))
  pub retargeted : Option Bytes
  pub slept : ℕ

abbrev pub silent : {A : Type 0} → ℕ → Output A
silent ms = record { yielded = none; retargeted = none; slept = ms }

abbrev pub yields : {A : Type 0} → Result (ℕ × A) → ℕ → Output A
yields r ms = record { yielded = some r; retargeted = none; slept = ms }

abbrev pub retargets : {A : Type 0} → Bytes → ℕ → Output A
retargets new_target ms = record { yielded = none; retargeted = some new_target; slept = ms }

abbrev pub redirect : Bytes → Watch → Watch
redirect new_target w = record w {
  phase = connecting;
  redirect_hops = w.redirect_hops + 1;
  target = some new_target;
}

-- The stream could not be opened.
unfoldable pub on_refused : {A : Type 0} → RetryAction → Watch → Watch × Output A
on_refused (redirect_and_retry new_target delay) w =
    (redirect new_target w, retargets new_target delay)
on_refused (retry_same_target delay) w = (w, silent delay)
on_refused (give_up reason) w = (
  record w { consecutive_failures = w.consecutive_failures + 1 },
  yields (err (rpc "watch connection failed")) (backoff_ms (w.consecutive_failures + 1)),
)

-- The open stream failed.
unfoldable pub on_stream_error : {A : Type 0} → RetryAction → Watch → Watch × Output A
on_stream_error (redirect_and_retry new_target delay) w =
    (redirect new_target w, retargets new_target delay)
on_stream_error (retry_same_target delay) w = (record w { phase = connecting }, silent 0)
on_stream_error (give_up reason) w = (record w { phase = connecting }, silent 0)

unfoldable pub on_message : {A : Type 0} → ℕ → A → Watch → Watch × Output A
on_message version update w =
    if ltb w.last_known_version version
    then (record w { last_known_version = version }, yields (ok (version, update)) 0)
    else (w, silent 0)

-- One step of `watch_sag`, `watch_schedule` and `watch_routes`, whose loops are alike. An event that
-- the phase cannot meet changes nothing.
unfoldable pub step : {A : Type 0} → Phase → Event A → Watch → Watch × Output A
unfolding on_refused on_stream_error on_message
step connecting (no_channel e) w = (w, yields (err e) base_retry_delay_ms)
step connecting opened w =
    (record w { phase = streaming; consecutive_failures = 0; redirect_hops = 0 }, silent 0)
step connecting (refused status) w = on_refused (classify_error status w.redirect_hops) w
step streaming (message version update) w = on_message version update w
step streaming closed w = (record w { phase = connecting }, silent 0)
step streaming (stream_error status) w = on_stream_error (classify_error status w.redirect_hops) w
step _ _ w = (w, silent 0)

-- The state and all outputs after a list of events.
unfoldable pub run : {A : Type 0} → List (Event A) → Watch → Watch × List (Output A)
run [] w = (w, [])
run (e ∷ events) w =
    let stepped = step w.phase e w in
    let rest = run events stepped.0 in (rest.0, stepped.1 ∷ rest.1)

-- The three streams, each over the updates of its service.
abbrev pub watch_sag :
    {SagUpdate : Type 0} → List (Event SagUpdate) → Watch × List (Output SagUpdate)
watch_sag events = run events new_watch

abbrev pub watch_schedule :
    {ScheduleUpdate : Type 0} → List (Event ScheduleUpdate) → Watch × List (Output ScheduleUpdate)
watch_schedule events = run events new_watch

abbrev pub watch_routes :
    {RouteUpdate : Type 0} → List (Event RouteUpdate) → Watch × List (Output RouteUpdate)
watch_routes events = run events new_watch
