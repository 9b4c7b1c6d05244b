-- ===== src/Feishu/Stream.antt =====
-- `emit_events` of adapters/feishu/src/esr_feishu/adapter.py, as the events that it yields. A connection
-- to the local stand-in is what comes in on it and how it ends; the events of the live service are
-- those of its queue, in their order.
use esr.Base.{
  ℕ, ◌+◌, ◌≡◌, refl, ap, ◌∙◌, Bool, false, Option, none, some, List, [], ◌∷◌, ◌++◌, Str, lit, Dict,
  if◌then◌else◌, arith,
}
use esr.Base.Result.{Result, ok, err, Exc, value_error, type_error}
use esr.Value.{Value, null, str}
use esr.Adapters.{AdapterConfig, getattr}
use esr.Feishu.Services.{is_local}
use esr.Feishu.Messages.{WorkspaceMap, mock_event}

-- A message of the socket: its text, or one of another type.
pub data Incoming : Type 0 where
  text : Str → Incoming
  untyped : Incoming

-- `failed` is a `ClientError` or a `TimeoutError`, that of an attempt to connect among them.
pub data Ending : Type 0 where
  closed failed : Ending

pub record Connection : Type 0 where
  pub messages : List Incoming
  pub ending : Ending

-- The events that were yielded, the pauses of one second, and what ended the generator, if it ended.
pub record Emitted : Type 0 where
  pub events : List (Dict Value)
  pub pauses : ℕ
  pub raised : Option Exc

abbrev pub nothing : Emitted
nothing = record { events = []; pauses = 0; raised = none }

abbrev pub yielding : Dict Value → Emitted → Emitted
yielding event rest = record rest { events = event ∷ rest.events }

abbrev pub raising : Exc → Emitted
raising e = record { events = []; pauses = 0; raised = some e }

module _ (loads : Value → Result Exc Value) (actor_id : Str) (config : AdapterConfig)
    (workspaces : WorkspaceMap) (repr : Value → Str) where
  -- An event, and what follows it.
  abbrev pub after_event : Result Exc (Dict Value) → Emitted → Emitted
  after_event (err e) rest = raising e
  after_event (ok event) rest = yielding event rest

  -- What is no JSON is passed over.
  abbrev pub after_loads : Result Exc Value → Emitted → Emitted
  after_loads (ok envelope) rest =
      after_event (mock_event loads actor_id config workspaces repr envelope) rest
  after_loads (err value_error) rest = rest
  after_loads (err type_error) rest = rest
  after_loads (err e) rest = raising e

  abbrev pub after_message : Incoming → Emitted → Emitted
  after_message untyped rest = rest
  after_message (text s) rest = after_loads (loads (str s)) rest

  -- The loop over the messages of one connection.
  unfoldable pub relay : List Incoming → Emitted
  relay [] = nothing
  relay (message ∷ messages) = after_message message (relay messages)

  abbrev pub pause_of : Ending → ℕ
  pause_of closed = 0
  pause_of failed = 1

  -- What one connection gave, and then the next, unless the generator has ended.
  abbrev pub unless_raised : Option Exc → Emitted → Ending → Emitted → Emitted
  unless_raised (some e) first ending rest = first
  unless_raised none first ending rest = record {
    events = first.events ++ rest.events;
    pauses = first.pauses + pause_of ending + rest.pauses;
    raised = rest.raised;
  }

  abbrev pub then_emitted : Emitted → Ending → Emitted → Emitted
  then_emitted first ending rest = unless_raised first.raised first ending rest

  -- `_emit_events_mock`, for the connections that were made.
  unfoldable pub emit_events_mock : List Connection → Emitted
  unfolding relay
  emit_events_mock [] = nothing
  emit_events_mock (connection ∷ connections) =
      then_emitted (relay connection.messages) connection.ending (emit_events_mock connections)

  abbrev pub says_local : Value → Bool
  says_local (str base_url) = is_local base_url
  says_local _ = false

  -- `emit_events`: `queued` is what `_emit_events_lark` takes from its queue.
  unfoldable pub emit_events : List Connection → (queued : List (Dict Value)) → Emitted
  unfolding emit_events_mock
  emit_events connections queued =
      if says_local (getattr config (lit "base_url") null)
      then emit_events_mock connections
      else record { events = queued; pauses = 0; raised = none }

  abbrev pub incoming : List Connection → List Incoming
  incoming [] = []
  incoming (connection ∷ connections) = connection.messages ++ incoming connections

  abbrev failures : List Connection → ℕ
  failures [] = 0
  failures (connection ∷ connections) = pause_of connection.ending + failures connections

  after_event-then :
      (r : Result Exc (Dict Value)) (first rest : Emitted) (ending : Ending)
      → after_event r (then_emitted first ending rest)
        ≡ then_emitted (after_event r first) ending rest
  after_event-then (err e) first rest ending = refl
  after_event-then (ok event) first rest ending = of_raised first.raised
    where
      of_raised :
          (o : Option Exc)
          → yielding event (unless_raised o first ending rest)
            ≡ unless_raised o (yielding event first) ending rest
      of_raised none = refl
      of_raised (some e) = refl

  after_message-then :
      (message : Incoming) (first rest : Emitted) (ending : Ending)
      → after_message message (then_emitted first ending rest)
        ≡ then_emitted (after_message message first) ending rest
  after_message-then untyped first rest ending = refl
  after_message-then (text s) first rest ending = of_loaded (loads (str s))
    where
      of_loaded :
          (loaded : Result Exc Value)
          → after_loads loaded (then_emitted first ending rest)
            ≡ then_emitted (after_loads loaded first) ending rest
      of_loaded (ok envelope) =
          after_event-then (mock_event loads actor_id config workspaces repr envelope) first rest
            ending
      of_loaded (err value_error) = refl
      of_loaded (err type_error) = refl
      of_loaded (err e) = refl

  relay-append :
      (xs ys : List Incoming) → relay (xs ++ ys) ≡ then_emitted (relay xs) closed (relay ys)
  unfolding relay
  relay-append [] ys = ground arith
  relay-append (x ∷ xs) ys =
      ap (after_message x) (relay-append xs ys) ∙ after_message-then x (relay xs) (relay ys) closed

  after_message-pauses :
      (message : Incoming) (rest : Emitted)
      → rest.pauses ≡ 0
      → (after_message message rest).pauses ≡ 0
  after_message-pauses untyped rest h = h
  after_message-pauses (text s) rest h = of_loaded (loads (str s))
    where
      of_event : (r : Result Exc (Dict Value)) → (after_event r rest).pauses ≡ 0
      of_event (err e) = refl
      of_event (ok event) = h

      of_loaded : (loaded : Result Exc Value) → (after_loads loaded rest).pauses ≡ 0
      of_loaded (ok envelope) = of_event (mock_event loads actor_id config workspaces repr envelope)
      of_loaded (err value_error) = h
      of_loaded (err type_error) = h
      of_loaded (err e) = refl

  -- One connection makes no pause.
  relay-pauses : (xs : List Incoming) → (relay xs).pauses ≡ 0
  unfolding relay
  relay-pauses [] = refl
  relay-pauses (x ∷ xs) = after_message-pauses x (relay xs) (relay-pauses xs)

  unless_raised-events :
      (o : Option Exc) (first x y : Emitted) (ending : Ending)
      → x.events ≡ y.events
      → (unless_raised o first ending x).events ≡ (unless_raised o first closed y).events
  unless_raised-events none first x y ending h = ap (λ l. first.events ++ l) h
  unless_raised-events (some e) first x y ending h = refl

  unless_raised-raised :
      (o : Option Exc) (first x y : Emitted) (ending : Ending)
      → x.raised ≡ y.raised
      → (unless_raised o first ending x).raised ≡ (unless_raised o first closed y).raised
  unless_raised-raised none first x y ending h = h
  unless_raised-raised (some e) first x y ending h = refl

  unless_raised-pauses :
      (o : Option Exc) (first rest : Emitted) (ending : Ending) (n : ℕ)
      → first.raised ≡ o
      → first.pauses ≡ 0
      → (rest.raised ≡ none → rest.pauses ≡ n)
      → (unless_raised o first ending rest).raised ≡ none
      → (unless_raised o first ending rest).pauses ≡ pause_of ending + n
  unless_raised-pauses none first rest ending n e z h goes_on = omega (arith, h goes_on)
  unless_raised-pauses (some x) first rest ending n e z h goes_on = cc

  -- The stream does not show where a connection was lost: over any connections, however they end, the
  -- same events are yielded, and the same exception, if one, ends the generator, as if all the
  -- messages had come over one connection. If none ends it, it has paused once for each connection
  -- that failed, and for no other.
  pub emit_events_mock_lem :
      (connections : List Connection)
      → ((emit_events_mock connections).events ≡ (relay (incoming connections)).events)
        × ((emit_events_mock connections).raised ≡ (relay (incoming connections)).raised)
        × ((emit_events_mock connections).raised ≡ none
            → (emit_events_mock connections).pauses ≡ failures connections)
  unfolding emit_events_mock
  emit_events_mock_lem [] = (refl, refl, λ h. refl)
  emit_events_mock_lem (connection ∷ connections) =
      let (events, raised, pauses) = emit_events_mock_lem connections in
      let first = relay connection.messages in
      let rest = emit_events_mock connections in
      let together = relay-append connection.messages (incoming connections) in
      (
        rw together (
            unless_raised-events first.raised first rest (relay (incoming connections))
              connection.ending events),
        rw together (
            unless_raised-raised first.raised first rest (relay (incoming connections))
              connection.ending raised),
        unless_raised-pauses first.raised first rest connection.ending (failures connections) refl
            (relay-pauses connection.messages) pauses,
      )
