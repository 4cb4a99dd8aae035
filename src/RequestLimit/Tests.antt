-- ===== src/RequestLimit/Tests.antt =====
-- Runs behind the limit on a request's body, and its theorems at them.
use finshield_ai.Base.{◌≤◌, ◌≡◌, refl, true, ◌&&◌, ◌||◌, none, List, [], ◌∷◌, if◌then◌else◌}
use finshield_ai.RequestLimit.{
  Event, receives, sends, request, response_start, response_body, too_large, is_over, no_limits,
  delivered, unlimited, call,
}
use finshield_ai.RequestLimit.Replies.{starts_first, is_over_before_start, call-replies}
use finshield_ai.RequestLimit.Delivered.{delivered-bounded}

-- An application that reads seven bytes and then answers.
abbrev events : List Event
events =
    receives (request 4)
    ∷ receives (request 3)
    ∷ sends response_start
    ∷ sends (response_body "ok")
    ∷ []

call-replies_example : call true none 5 events ≡ (
    if true && (is_over 5 none || is_over_before_start 5 events 0)
    then too_large ∷ []
    else unlimited events)
unfolding starts_first
call-replies_example = call-replies true none 5 events refl

delivered-bounded_example : delivered 5 events no_limits ≤ 5
delivered-bounded_example = delivered-bounded 5 events
