-- ===== src/Handlers/Session.antt =====
-- handlers/cc_session and handlers/cc_adapter_runner: the two ends of a Claude Code session.
pub mod Loop
use esr.Base.{ℕ, ◌+◌, Bool, true, false, not, List, [], ◌∷◌, ◌++◌, Str, lit, Dict, if◌then◌else◌}
use esr.Value.{Value, str, nonempty, get_or, dict}
use esr.Actions.{Action, route, send_input, Event}
use esr.Handlers.Thread.{is_type}

pub record SessionState : Type 0 where
  pub session_name : Str
  pub parent_thread : Str
  pub pending_outputs : List Str

-- The message by which the output goes up to the thread.
abbrev pub output_msg : Event → Value
output_msg event =
    dict ((lit "event_type", str (lit "cc_output")) ∷ (lit "args", dict event.args) ∷ [])

-- cc_session's `on_msg`
unfoldable pub on_output : SessionState → Event → SessionState × List Action
on_output s event =
    if is_type event (lit "cc_output")
    then (if not (nonempty s.parent_thread)
        then (s, [])
        else (s, route (str (lit "thread:" ++ s.parent_thread)) (output_msg event) ∷ []))
    else (s, [])

pub record RunnerState : Type 0 where
  pub message_count : ℕ

-- cc_adapter_runner's `on_msg`
unfoldable pub on_text : RunnerState → Event → RunnerState × List Action
on_text s event =
    if is_type event (lit "text")
    then (
      record { message_count = s.message_count + 1 },
      send_input (get_or event.args (lit "text") (str [])) ∷ [],
    )
    else (s, [])
