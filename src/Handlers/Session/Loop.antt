-- ===== src/Handlers/Session/Loop.antt =====
-- A runner over a sequence of events.
use esr.Base.{ℕ, ◌+◌, ◌≡◌, List, [], ◌∷◌, lit, if◌then◌else◌, arith}
use esr.Actions.{Event}
use esr.Handlers.Thread.{is_type}
use esr.Handlers.Session.{RunnerState, on_text}

-- The events of a sequence that are texts.
abbrev pub texts : List Event → ℕ
texts [] = 0
texts (event ∷ events) = (if is_type event (lit "text") then 1 else 0) + texts events

abbrev pub run_all : RunnerState → List Event → RunnerState
run_all s [] = s
run_all s (event ∷ events) = run_all (on_text s event).0 events

-- A runner counts the texts that it has seen, whatever else it sees.
pub message_count-run_all :
    (s : RunnerState) (events : List Event)
    → (run_all s events).message_count ≡ s.message_count + texts events
unfolding on_text
message_count-run_all s [] = ground arith
message_count-run_all s (event ∷ events) =
    ground (arith, message_count-run_all (on_text s event).0 events)
