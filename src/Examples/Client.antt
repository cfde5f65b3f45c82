-- ===== src/Examples/Client.antt =====
-- The watch streams over a redirection, a frame, a stale frame and failures.
use fleetos_agent.Prelude.{ℕ, none, some, List, [], ◌∷◌}
use fleetos_agent.Client.Retry.{Status, unavailable, other}
use fleetos_agent.Client.Watch.{new_watch, Event, opened, refused, message, closed, run}
use fleetos_agent.Client.Watch.Versions.{Climbs, yields-Climbs}
use fleetos_agent.Client.Watch.Redirects.{AtMostSix, redirects_bounded}

-- The leader is named with a space around its address.
abbrev pub redirected : Status
redirected = record {
  code = unavailable;
  message = "not leader";
  leader_dc_address = some (some (32 ∷ 97 ∷ 98 ∷ 32 ∷ []));
}

abbrev pub denied : Status
denied = record { code = other 7; message = "denied"; leader_dc_address = none }

abbrev events : List (Event ℕ)
events =
    refused redirected
    ∷ refused denied
    ∷ opened
    ∷ message 3 10
    ∷ message 3 11
    ∷ closed
    ∷ opened
    ∷ message 5 12
    ∷ []

yields-Climbs_example :
    Climbs 0 (run events new_watch).1 (run events new_watch).0.last_known_version
yields-Climbs_example = yields-Climbs events new_watch

redirects_bounded_example : AtMostSix 0 events (run events new_watch).1
redirects_bounded_example = redirects_bounded events
