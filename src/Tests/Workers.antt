-- ===== src/Tests/Workers.antt =====
-- The worker at concrete calls.
use mathlib.Core.List.Perm
use esr.Base.{
  ◌≡◌, refl, Bool, true, false, none, some, List, [], ◌∷◌, ◌++◌, ◌==◌, Str, lit, get, has, arith,
  subst, Dict, map, put, remove,
}
use esr.Base.Result.{ok}
use esr.Decimal.{pos, show_int}
use esr.Value.{end, Value, null, int, str, dict, list, Fields, fields, to_fields, obj, get_or}
use esr.Value.{value_get}
use esr.Value.Access.{same_int, eq_int, index, dict_of}
use esr.Actions.{send_input, Event}
use esr.Actions.Wire.{serialise_action, deserialise_action}
use esr.Registry.{HandlerEntry, StateEntry}
use esr.Ipc.Client.{Client, opened}
use esr.Ipc.Client.Rejoin.{said}
use esr.Runner.{envelope_of}
use esr.Worker.{
  plain_dict, Handler, Model, World, error_reply, process_handler_call, reply_envelope,
  handler_call_loop, read_call, find_handler, version_key, dump_state, with_state, run_handler,
  reply_of, reply_with, Call,
}
use esr.Worker.Dump.{
  Data, leaf, set_of, to_datas, dict_of_data, to_entries, entries_native, encoded, to_json_native,
  sorted,
}
use esr.Worker.Replies.{process_handler_call_lem, IsServed}
use esr.Worker.Calls.{IsCall}
use esr.Worker.Faults.{outdated, process_handler_call-Fault}
use esr.Worker.Total.{Answered, Keeps, process_handler_call_total}
use esr.Worker.Loop.{said-handler_call_loop}
use esr.Worker.Sorting.{texts, to_json_native-set_of}
use esr.Worker.Version.{with_state-reply_with}

abbrev text : Data → Str
text (leaf (str s)) = s
text _ = []

to_json_native-set_of_example :
    (encoded
        (to_json_native text (set_of (to_datas (texts text (λ s. refl) (lit "b" ∷ lit "a" ∷ [])))))
      ≡ ok (list (map (λ s. str s) (sorted (λ s. s) (lit "b" ∷ lit "a" ∷ [])))))
    × (encoded (
          to_json_native text (set_of (to_datas (texts text (λ s. refl) (lit "a" ∷ lit "b" ∷ [])))))
        ≡ ok (list (map (λ s. str s) (sorted (λ s. s) (lit "b" ∷ lit "a" ∷ [])))))
to_json_native-set_of_example =
    to_json_native-set_of text (λ s. refl) (lit "b" ∷ lit "a" ∷ []) (lit "a" ∷ lit "b" ∷ [])
      (Perm.swap (lit "a") (lit "b") [])

-- States are dicts of JSON.
abbrev world : World (Dict Value)
world = record {
  text = text;
  repr = λ v. [];
  text_of = λ v e. [];
  float_eq = λ r i. false;
  model_dump = λ s. [];
}

-- A handler that counts nothing and answers.
abbrev greet : Handler (Dict Value)
greet state event =
    ok (
      plain_dict ((lit "seen", leaf (str (lit "m1"))) ∷ []),
      some (send_input (str (lit "hi"))) ∷ [],
    )

abbrev greeter : HandlerEntry (Handler (Dict Value))
greeter = record { actor_type = lit "cc"; name = lit "on_msg"; fn = greet; permissions = [] }

abbrev any_state : StateEntry (Model (Dict Value))
any_state = record { actor_type = lit "cc"; schema_version = pos 1; model = λ d. ok d }

abbrev handlers : Dict (HandlerEntry (Handler (Dict Value)))
handlers = (lit "cc.on_msg", greeter) ∷ []

abbrev states : Dict (StateEntry (Model (Dict Value)))
states = (lit "cc", any_state) ∷ []

abbrev old_state : Dict Value
old_state = (lit "_schema_version", int (pos 1)) ∷ []

abbrev payload_of : Dict Value
payload_of =
    (lit "handler", str (lit "cc.on_msg"))
    ∷ (lit "state", dict old_state)
    ∷ (lit "event", dict ((lit "event_type", str (lit "msg")) ∷ []))
    ∷ []

abbrev call_of : Call
call_of = record {
  handler = str (lit "cc.on_msg");
  state = dict old_state;
  event = record { source = str []; event_type = str (lit "msg"); args = [] };
}

abbrev dumped_seen : Dict Data
dumped_seen = (lit "seen", leaf (str (lit "m1"))) ∷ []

call_of-IsServed :
    IsServed world handlers states (dict payload_of) call_of greeter any_state (to_fields old_state)
unfolding read_call get ◌==◌ find_handler index value_get dict_of
call_of-IsServed = record { read = refl; found = refl; modelled = refl; held = refl }

process_handler_call_lem_example :
    (wire : List (Dict Value)) × (process_handler_call world handlers states (dict payload_of)
      ≡ ok (
          (
            lit "new_state",
            dict_of_data (to_entries (put dumped_seen version_key (leaf (int (pos 1))))),
          )
          ∷ (lit "actions", leaf (list (map (λ d. dict d) wire)))
          ∷ []))
    × (map (λ d. deserialise_action d) wire ≡ map (λ a. ok a) (send_input (str (lit "hi")) ∷ []))
unfolding get ◌==◌ remove dump_state entries_native eq_int
process_handler_call_lem_example =
    process_handler_call_lem world handlers states (dict payload_of) call_of greeter any_state
      (to_fields old_state) call_of-IsServed [] (plain_dict dumped_seen)
      (send_input (str (lit "hi")) ∷ []) dumped_seen refl refl refl refl

only_greeter :
    (key : Str) (handler : HandlerEntry (Handler (Dict Value)))
    → get handlers key ≡ some handler
    → greeter ≡ handler
unfolding get
only_greeter key handler e = ground arith

process_handler_call_total_example :
    Answered (process_handler_call world handlers states (dict payload_of))
unfolding read_call get ◌==◌ index value_get dict_of
process_handler_call_total_example =
    process_handler_call_total world handlers states (dict payload_of) (tt, tt)
      (λ key handler e s event.
        subst (λ h. Keeps (h.fn s event)) (only_greeter key handler e) (tt, (tt, tt)))

-- The reply to the call on the wire.
abbrev reply_to_d1 : Dict Value
reply_to_d1 =
    (lit "kind", str (lit "handler_reply"))
    ∷ (lit "id", str (lit "d-1"))
    ∷ (lit "source", str (lit "esr://localhost/handler:cc.on_msg/w1"))
    ∷ (
      lit "payload",
      dict (
          (
            lit "new_state",
            dict ((lit "seen", str (lit "m1")) ∷ (lit "_schema_version", int (pos 1)) ∷ []),
          )
          ∷ (lit "actions", list (dict (serialise_action (send_input (str (lit "hi")))) ∷ []))
          ∷ []),
    )
    ∷ []

abbrev call_d1 : Dict Value
call_d1 = (lit "id", str (lit "d-1")) ∷ (lit "payload", dict payload_of) ∷ []

abbrev worker_topic : Str
worker_topic = lit "handler:cc.on_msg/w1"

abbrev joined_client : Client Bool
joined_client = record {
  auto_reconnect = false;
  ws = opened;
  reconnecting = false;
  shutdown = false;
  heart = true;
  next_ref = 2;
  join_refs = (worker_topic, lit "1") ∷ [];
  handlers = (worker_topic, true) ∷ [];
  pending_replies = [];
  is_disconnected = false;
  pending_pushes = [];
  sent = [];
}

reply_to_d1_lem : reply_envelope world handlers states worker_topic call_d1 ≡ ok reply_to_d1
unfolding reply_envelope process_handler_call esr.Value.Access.index_dict get ◌==◌ index value_get
    dict_of find_handler with_state eq_int run_handler reply_of dump_state encoded put
    entries_native
reply_to_d1_lem = refl

said-handler_call_loop_example :
    ((handler_call_loop world handlers states worker_topic joined_client
        (some call_d1 ∷ none ∷ [])).0
      ≡ ok tt)
    × (said
          (handler_call_loop world handlers states worker_topic joined_client
            (some call_d1 ∷ none ∷ [])).1.sent
        ≡ [] ++ envelope_of worker_topic reply_to_d1 ∷ [])
unfolding get ◌==◌
said-handler_call_loop_example =
    said-handler_call_loop world handlers states worker_topic joined_client
      ((call_d1, reply_to_d1) ∷ []) [] ((refl, refl), refl) (reply_to_d1_lem, tt)

with_state-reply_with_example :
    (gs : Fields) × (new_state : Data) × (get
        (reply_with world any_state dumped_seen [])
        (lit "new_state")
      ≡ some new_state)
    × (encoded new_state ≡ ok (obj gs))
    × ((event : Event)
        → with_state world greeter any_state event (fields gs)
          ≡ run_handler world greet any_state
              (fields (to_fields ((lit "seen", str (lit "m1")) ∷ [])))
              event)
unfolding has ◌==◌ encoded
with_state-reply_with_example =
    with_state-reply_with world greeter any_state dumped_seen
      (to_fields ((lit "seen", str (lit "m1")) ∷ [])) refl refl []

abbrev new_state_of : Dict Value
new_state_of = (lit "_schema_version", int (pos 2)) ∷ []

abbrev payload_of_new : Dict Value
payload_of_new =
    (lit "handler", str (lit "cc.on_msg"))
    ∷ (lit "state", dict new_state_of)
    ∷ (lit "event", dict ((lit "event_type", str (lit "msg")) ∷ []))
    ∷ []

payload_of_new-IsCall :
    IsCall
      (dict payload_of_new)
      (lit "cc.on_msg")
      (to_fields new_state_of)
      (record { source = str []; event_type = str (lit "msg"); args = [] })
unfolding get ◌==◌
payload_of_new-IsCall = record {
  parts = to_fields payload_of_new;
  event_parts = to_fields ((lit "event_type", str (lit "msg")) ∷ []);
  args = end;
  is_dict = refl;
  names = refl;
  holds = refl;
  tells = refl;
  sent_by = refl;
  typed = refl;
  given = refl;
  all = refl;
}

abbrev old_version : Str
old_version =
    ((lit "state for ") ++ greeter.actor_type)
    ++ (lit " is at schema_version ")
    ++ show_int (pos 2)
    ++ (lit "; this worker expects ")
    ++ show_int any_state.schema_version

process_handler_call-Fault_example :
    process_handler_call world handlers states (dict payload_of_new)
    ≡ ok (error_reply (lit "SchemaVersionMismatch") old_version)
unfolding get ◌==◌
process_handler_call-Fault_example =
    process_handler_call-Fault world handlers states (dict payload_of_new)
      (lit "SchemaVersionMismatch") old_version
      (outdated payload_of_new-IsCall refl refl refl (λ e. cc))
