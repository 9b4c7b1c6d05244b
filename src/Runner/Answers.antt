-- ===== src/Runner/Answers.antt =====
-- What the runner sends for the directives and events that it meets.
use esr.Base.{
  ◌≡◌, refl, sym, ap, ◌∙◌, true, false, some, List, [], ◌∷◌, ◌++◌, append_assoc, append-nil, Str,
  lit, Dict, get, All, starts_with, put, ◌==◌,
}
use esr.Base.Result.{Result, ok, Failure}
use esr.Value.{
  Value, null, bool, str, dict, get_or, value_get, Fields, obj, fields, fields-to_fields,
}
use esr.Value.Access.{index, dict_of, index_dict-get, get_or-get}
use esr.Ipc.Client.{Pushed, push}
use esr.Ipc.Client.Rejoin.{said}
use esr.Ipc.Client.Served.{Serves, push-Serves}
use esr.Ipc.Envelope.{make_directive_ack, make_event, check_source}
use esr.Runner.{
  Pusher, envelope_of, Answer, done, failed, Turn, directive, event, failure_dict, ack_of,
  wrap_event, answer_of, process_directive, Running, push_envelope, turn, run_turns,
}

-- The acknowledgement of a directive.
abbrev pub ack : (now : Str) (id : Value) (source : Str) → Answer → Dict Value
ack now id source answer =
    (lit "kind", str (lit "directive_ack"))
    ∷ (lit "id", id)
    ∷ (lit "ts", str now)
    ∷ (lit "type", str (lit "directive_ack"))
    ∷ (lit "source", str source)
    ∷ (
      lit "payload",
      dict (elim answer [
        | done result ↦ (lit "ok", bool true) ∷ (lit "result", dict result) ∷ []
        | failed f ↦ (lit "ok", bool false) ∷ (lit "error", dict (failure_dict f)) ∷ []
      ]),
    )
    ∷ []

-- The envelope of an event of that type with these arguments.
abbrev pub event_envelope :
    (new_id now source : Str) (event_type : Value) (args event_dict : Dict Value) → Dict Value
event_envelope new_id now source event_type args event_dict =
    (lit "kind", str (lit "event"))
    ∷ (lit "id", str new_id)
    ∷ (lit "ts", str now)
    ∷ (lit "type", str (lit "event"))
    ∷ (lit "source", str source)
    ∷ (lit "principal_id", get_or event_dict (lit "principal_id") null)
    ∷ (lit "workspace_name", get_or event_dict (lit "workspace_name") null)
    ∷ (lit "payload", dict ((lit "event_type", event_type) ∷ (lit "args", dict args) ∷ []))
    ∷ []

ack_of-ack :
    (now : Str) (id : Value) (source : Str) (answer : Answer)
    → starts_with source (lit "esr://") ≡ true
    → ack_of now id source answer ≡ ok (ack now id source answer)
unfolding ack_of make_directive_ack dict_of put ◌==◌
ack_of-ack now id source (done result) e = rw (e, fields-to_fields result) refl
ack_of-ack now id source (failed f) e = rw e refl

wrap_event-event_envelope :
    (new_id now source : Str) (d : Dict Value) (event_type : Value) (args : Fields)
    → starts_with source (lit "esr://") ≡ true
    → get d (lit "event_type") ≡ some event_type
    → get_or d (lit "args") (dict []) ≡ obj args
    → wrap_event new_id now source d
      ≡ ok (event_envelope new_id now source event_type (fields args) d)
unfolding wrap_event make_event dict_of check_source
wrap_event-event_envelope new_id now source d event_type args e typed given =
    rw (index_dict-get d (lit "event_type") typed, given, e) refl

-- The items of a dict.
abbrev pub items_of : Value → Dict Value
items_of (obj fs) = fields fs
items_of _ = []

-- A directive bears an id and, in its payload, an action; an event has a type, and its arguments, if
-- any, are a dict.
abbrev pub IsSound : Turn → Type 0
IsSound (directive now envelope) =
    (payload : Fields) × (id : Value) × (action : Value) × (get envelope (lit "payload")
      ≡ some (obj payload))
    × (get envelope (lit "id") ≡ some id)
    × (get (fields payload) (lit "action") ≡ some action)
IsSound (event new_id now event_dict) =
    (event_type : Value) × (args : Fields) × (get event_dict (lit "event_type") ≡ some event_type)
    × (get_or event_dict (lit "args") (dict []) ≡ obj args)

module _ {A : Type 0} (act : A → (action args : Value) → Result Failure (Dict Value) × A) where
  -- What the adapter makes of the directive in the envelope.
  abbrev pub asked : A → Dict Value → Result Failure (Dict Value) × A
  asked a envelope =
      let payload = items_of (get_or envelope (lit "payload") null) in
      act a (get_or payload (lit "action") null) (get_or payload (lit "args") (dict []))

  abbrev pub adapter_after : A → Turn → A
  adapter_after a (directive now envelope) = (asked a envelope).1
  adapter_after a (event new_id now event_dict) = a

  -- The envelope that a turn should send.
  abbrev pub due_envelope : Pusher → A → Turn → Dict Value
  due_envelope pusher a (directive now envelope) =
      ack now (get_or envelope (lit "id") null) pusher.source_uri
        (answer_of act (asked a envelope).0)
  due_envelope pusher a (event new_id now event_dict) =
      event_envelope new_id now pusher.source_uri (get_or event_dict (lit "event_type") null)
        (items_of (get_or event_dict (lit "args") (dict []))) event_dict

  abbrev pub due_pushes : Pusher → A → List Turn → List Pushed
  due_pushes pusher a [] = []
  due_pushes pusher a (t ∷ ts) =
      envelope_of pusher.topic (due_envelope pusher a t) ∷ due_pushes pusher (adapter_after a t) ts

  asked_lem :
      (a : A) (envelope : Dict Value) (payload : Fields) (action : Value)
      → get envelope (lit "payload") ≡ some (obj payload)
      → get (fields payload) (lit "action") ≡ some action
      → asked a envelope ≡ act a action (get_or (fields payload) (lit "args") (dict []))
  asked_lem a envelope payload action held acts =
      let whole : get_or envelope (lit "payload") null ≡ obj payload =
        get_or-get envelope (lit "payload") null held in
      let part : get_or (fields payload) (lit "action") null ≡ action =
        get_or-get (fields payload) (lit "action") null acts in
      ap
        (λ p.
          act a (get_or (items_of p) (lit "action") null)
            (get_or (items_of p) (lit "args") (dict [])))
        whole
      ∙ ap (λ p. act a p (get_or (fields payload) (lit "args") (dict []))) part

  process_directive-asked :
      (a : A) (envelope : Dict Value) (payload : Fields) (action : Value)
      → get envelope (lit "payload") ≡ some (obj payload)
      → get (fields payload) (lit "action") ≡ some action
      → process_directive act a (obj payload)
        ≡ (ok (answer_of act (asked a envelope).0), (asked a envelope).1)
  unfolding process_directive index value_get
  process_directive-asked a envelope payload action held acts =
      rw
        (
          index_dict-get (fields payload) (lit "action") acts,
          asked_lem a envelope payload action held acts,
        )
        refl

  module _ {H : Type 0} (pusher : Pusher) where
    turn-due :
        (s : Running H A) (t : Turn)
        → starts_with pusher.source_uri (lit "esr://") ≡ true
        → IsSound t
        → turn act pusher s t
          ≡ push_envelope act pusher
              (record s { adapter = adapter_after s.adapter t })
              (ok (due_envelope pusher s.adapter t))
    unfolding turn
    turn-due s (directive now envelope) e (payload, id, action, held, named, acts) =
        rw
          (
            index_dict-get envelope (lit "payload") held,
            process_directive-asked s.adapter envelope payload action held acts,
            index_dict-get envelope (lit "id") named,
            ack_of-ack now id pusher.source_uri (answer_of act (asked s.adapter envelope).0) e,
          )
          (ap
            (λ i.
              push_envelope act pusher (record s { adapter = (asked s.adapter envelope).1 })
                (ok (ack now i pusher.source_uri (answer_of act (asked s.adapter envelope).0))))
            (sym known))
      where
        known : get_or envelope (lit "id") null ≡ id
        known = get_or-get envelope (lit "id") null named
    turn-due s (event new_id now d) e (event_type, args, typed, given) =
        rw (wrap_event-event_envelope new_id now pusher.source_uri d event_type args e typed given)
          (rw (kind, whole) refl)
      where
        kind : get_or d (lit "event_type") null ≡ event_type
        kind = get_or-get d (lit "event_type") null typed

        whole : items_of (get_or d (lit "args") (dict [])) ≡ fields args
        whole = ap items_of given

    run_turns_step :
        (s next : Running H A) (t : Turn) (ts : List Turn)
        → turn act pusher s t ≡ (ok tt, next)
        → run_turns act pusher s (t ∷ ts) ≡ run_turns act pusher next ts
    unfolding run_turns
    run_turns_step s next t ts e = rw (run_turns, e) (ap (λ r. run_turns act pusher r.1 ts) e)

    -- Whatever directives with an id and an action in their payload, and whatever events with a type
    -- and with a dict of arguments if any, a runner meets: if its client is up and has joined the
    -- topic, and its address starts with `esr://`, then neither loop raises, and what is sent is one
    -- envelope for each turn, in their order: for an event its envelope, and for a directive an
    -- acknowledgement with the id of the directive and the result of the adapter or the class and the
    -- text of what the adapter raised, where the adapter is called once for each directive.
    pub said-run_turns :
        (s : Running H A) (ts : List Turn)
        → starts_with pusher.source_uri (lit "esr://") ≡ true
        → Serves s.client pusher.topic
        → All IsSound ts
        → ((run_turns act pusher s ts).0 ≡ ok tt)
          × (said (run_turns act pusher s ts).1.client.sent
              ≡ said s.client.sent ++ due_pushes pusher s.adapter ts)
    unfolding run_turns
    said-run_turns s [] e up h = (refl, sym (append-nil (said s.client.sent)))
    said-run_turns s (t ∷ ts) e up (h, hs) =
        let sent =
          push-Serves s.client (envelope_of pusher.topic (due_envelope pusher s.adapter t)) up in
        let next : Running H A = record {
          client = (push s.client (envelope_of pusher.topic (due_envelope pusher s.adapter t))).1;
          adapter = adapter_after s.adapter t;
        } in
        let rest = said-run_turns next ts e sent.2 hs in
        let first : turn act pusher s t ≡ (ok tt, next) =
          turn-due s t e h ∙ ap (λ r. (r, next)) sent.0 in
        rw (run_turns_step s next t ts first) (
          rest.0,
          rest.1
              ∙ ap (λ l. l ++ due_pushes pusher (adapter_after s.adapter t) ts) sent.1
              ∙ append_assoc (said s.client.sent) (_ ∷ []) _,
        )
