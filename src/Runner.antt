-- ===== src/Runner.antt =====
-- py/src/_adapter_common/runner_core.py with py/src/esr/ipc/channel_pusher.py: the process that runs an
-- adapter. It reads directives from a queue and events from the adapter, and answers through the
-- channel client. The two loops run side by side; `Turn` is one round of either, and a history is the
-- list of the rounds in the order in which they push. The adapter is a parameter, `act`, on a state of
-- its own; identifiers and times are part of a turn. A round that waits for its queue is no turn.
pub mod Entry
pub mod Answers
pub mod Source
use esr.Base.{
  ◌≡◌, Bool, true, false, Option, none, some, List, [], ◌∷◌, ◌++◌, Str, lit, Dict, map, cut,
  remove_prefix, if◌then◌else◌,
}
use esr.Base.Result.{Result, ok, err, Exc, runtime_error, value_error, Failure, ◌>>=◌}
use esr.Value.{Value, null, str, dict, get_or, value_get}
use esr.Value.Access.{index, index_dict, dict_of}
use esr.Uri.{UriError}
use esr.Uri.Build.{build_path}
use esr.Ipc.Client.{Client, Pushed, connect, join, join_reply, push}
use esr.Ipc.Envelope.{make_directive_ack, make_event, make_handler_hello}

-- `ChannelPusher`
pub record Pusher : Type 0 where
  pub topic : Str
  pub source_uri : Str

-- What a push of the envelope sends.
abbrev pub envelope_of : Str → Dict Value → Pushed
envelope_of topic envelope = record {
  topic = topic;
  event = lit "envelope";
  payload = dict envelope;
}

-- What a directive came to: the adapter's result, or what it raised.
pub data Answer : Type 0 where
  done : Dict Value → Answer
  failed : Failure → Answer

-- One round of `directive_loop`, or one of `event_loop`.
pub data Turn : Type 0 where
  directive : (now : Str) → (envelope : Dict Value) → Turn
  event : (new_id now : Str) → (event_dict : Dict Value) → Turn

-- The error that `process_directive` makes of an exception.
abbrev pub failure_dict : Failure → Dict Value
failure_dict f = (lit "type", str f.type) ∷ (lit "message", str f.message) ∷ []

unfoldable pub ack_of : (now : Str) (id : Value) (source : Str) → Answer → Result Exc (Dict Value)
ack_of now id source (done result) = make_directive_ack now id source true (dict result) null
ack_of now id source (failed f) =
    make_directive_ack now id source false null (dict (failure_dict f))

-- The envelope of an event that the adapter yields.
unfoldable pub wrap_event : (new_id now source : Str) → Dict Value → Result Exc (Dict Value)
wrap_event new_id now source event_dict = do
  event_type ← index_dict event_dict (lit "event_type")
  args ← dict_of (get_or event_dict (lit "args") (dict []))
  make_event new_id now source event_type args (get_or event_dict (lit "principal_id") null)
      (get_or event_dict (lit "workspace_name") null)

pub record Running (H A : Type 0) : Type 0 where
  pub client : Client H
  pub adapter : A

-- The turns before the sentinel `None` of the queue.
unfoldable pub before_stop : List (Option (Str × Dict Value)) → List Turn
before_stop [] = []
before_stop (none ∷ queue) = []
before_stop (some (now, envelope) ∷ queue) = directive now envelope ∷ before_stop queue

module _ {A : Type 0} (act : A → (action args : Value) → Result Failure (Dict Value) × A) where
  abbrev pub answer_of : Result Failure (Dict Value) → Answer
  answer_of (ok result) = done result
  answer_of (err f) = failed f

  abbrev pub acted : A → Value → Result Exc Value → Result Exc Answer × A
  acted a action (err e) = (err e, a)
  acted a action (ok args) = (ok (answer_of (act a action args).0), (act a action args).1)

  abbrev pub on_action : A → Value → Result Exc Value → Result Exc Answer × A
  on_action a payload (err e) = (err e, a)
  on_action a payload (ok action) = acted a action (value_get payload (lit "args") (dict []))

  unfoldable pub process_directive : A → Value → Result Exc Answer × A
  process_directive a payload = on_action a payload (index payload (lit "action"))

  module _ {H : Type 0} (pusher : Pusher) where
    -- `push_envelope`, of an envelope that could be built.
    abbrev pub push_envelope :
        Running H A → Result Exc (Dict Value) → Result Exc (Unit {0}) × Running H A
    push_envelope s (err e) = (err e, s)
    push_envelope s (ok envelope) =
        let (sent, client) = push s.client (envelope_of pusher.topic envelope) in
        (sent, record s { client = client })

    abbrev pub answered :
        Running H A
        → (now : Str) → Dict Value
        → Result Exc Answer × A
        → Result Exc (Unit {0}) × Running H A
    answered s now envelope (err e, a) = (err e, record s { adapter = a })
    answered s now envelope (ok answer, a) =
        push_envelope (record s { adapter = a })
          (index_dict envelope (lit "id") >>= λ id. ack_of now id pusher.source_uri answer)

    abbrev pub on_payload :
        Running H A
        → (now : Str) → Dict Value
        → Result Exc Value
        → Result Exc (Unit {0}) × Running H A
    on_payload s now envelope (err e) = (err e, s)
    on_payload s now envelope (ok payload) =
        answered s now envelope (process_directive s.adapter payload)

    unfoldable pub turn : Running H A → Turn → Result Exc (Unit {0}) × Running H A
    turn s (directive now envelope) =
        on_payload s now envelope (index_dict envelope (lit "payload"))
    turn s (event new_id now event_dict) =
        push_envelope s (wrap_event new_id now pusher.source_uri event_dict)

    -- Rounds of both loops, up to one that raises.
    unfoldable pub run_turns : Running H A → List Turn → Result Exc (Unit {0}) × Running H A
    run_turns s [] = (ok tt, s)
    run_turns s (t ∷ ts) =
        let (outcome, after) = turn s t in
        let rest = run_turns after ts in elim outcome [ ok _ ↦ rest | err e ↦ (err e, after) ]

    unfoldable pub directive_loop :
        Running H A → List (Option (Str × Dict Value)) → Result Exc (Unit {0}) × Running H A
    unfolding before_stop
    directive_loop s queue = run_turns s (before_stop queue)

    unfoldable pub event_loop :
        Running H A → List (Str × Str × Dict Value) → Result Exc (Unit {0}) × Running H A
    event_loop s events = run_turns s (map (λ e. event e.0 e.1 e.2) events)

-- `run`: the topic of an adapter's instance.
unfoldable pub topic_of : (adapter_name instance_id : Str) → Str
topic_of adapter_name instance_id = ((lit "adapter:") ++ adapter_name) ++ (b'/' ∷ instance_id)

-- `topic.partition("/")`, its first and its last part.
abbrev pub halves : Str → Option (Str × Str) → Str × Str
halves topic none = (topic, [])
halves topic (some parts) = parts

module _ {H : Type 0} where
  abbrev pub say_hello :
      Client H → (topic : Str) → Result Exc (Dict Value) → Result Exc (Unit {0}) × Client H
  say_hello c topic (err e) = (err e, c)
  say_hello c topic (ok hello) = push c (envelope_of topic hello)

module _ (encode : Dict Value → Str) where
  -- The address of the process, from its topic.
  unfoldable pub source_of : Str → Result UriError Str
  source_of topic =
      let (adapter_name, instance_id) = halves topic (cut b'/' topic) in
      build_path encode
        (lit "adapters" ∷ remove_prefix adapter_name (lit "adapter:") ∷ instance_id ∷ [])
        (lit "localhost") none none none []

  module _ {H : Type 0} where
    abbrev pub announce :
        Client H
        → (topic new_id now : Str) → List Str
        → Result UriError Str
        → Result Exc (Unit {0}) × Client H
    announce c topic new_id now permissions (err e) = (err value_error, c)
    announce c topic new_id now permissions (ok source) =
        say_hello c topic (make_handler_hello new_id now source permissions)

    abbrev pub after_join :
        Result Exc (Unit {0}) × Client H
        → (topic new_id now : Str) → List Str
        → Result Exc (Unit {0}) × Client H
    after_join (err e, c) topic new_id now permissions = (err e, c)
    after_join (ok _, c) topic new_id now permissions =
        announce c topic new_id now permissions (source_of topic)

    -- `run_with_client` up to the start of the loops: it connects, joins the topic, with the server's
    -- answer, and announces the permissions, which are given sorted.
    unfoldable pub start_runner :
        Client H
        → (topic new_id now : Str) → (permissions : List Str) → H
        → (accepted : Bool) → Result Exc (Unit {0}) × Client H
    start_runner c topic new_id now permissions on_msg accepted =
        let (sent, joining) = join (connect c) topic on_msg in
        elim sent [
          | err e ↦ (err e, joining)
          | ok _ ↦ after_join (join_reply joining topic accepted) topic new_id now permissions
        ]
