-- ===== src/Worker.antt =====
-- py/src/esr/ipc/handler_worker.py: the process that runs a handler. `S` is the type of the state
-- models' instances. A model makes an instance of a dict or fails; a handler takes an instance and an
-- event. Both are parameters, the contents of the registries.
pub mod Dump
pub mod Sorting
pub mod Replies
pub mod Calls
pub mod Faults
pub mod Total
pub mod Loop
pub mod Version
pub mod Entry
use esr.Base.{
  ◌≡◌, Bool, true, false, not, Option, none, some, List, [], ◌∷◌, ◌++◌, Str, lit, Dict, get, put,
  remove, map, eqb, if◌then◌else◌,
}
use esr.Base.Result.{
  Result, ok, err, Exc, value_error, type_error, key_error, attribute_error, runtime_error,
  connection_error, Failure, ◌>>=◌,
}
use esr.Decimal.{ℤ, pos, negsuc, show_int}
use esr.Value.{
  Value, null, bool, int, float, str, arr, obj, list, dict, fields, value_get, py_str, get_or,
}
use esr.Value.Access.{same_int, eq_int, index, index_dict, dict_of}
use esr.Actions.{Action, Event}
use esr.Actions.Wire.{serialise_action}
use esr.Registry.{HandlerEntry, StateEntry}
use esr.Ipc.Client.{Client, push, connect, join, join_reply}
use esr.Ipc.Envelope.{make_handler_hello}
use esr.Runner.{envelope_of, say_hello}
use Dump.{Data, leaf, dict_of_data, entries, to_entries, entries_native, encoded}

-- The first result of a handler: an instance of a model, a dict, or something else.
pub data NewState (S : Type 0) : Type 0 where
  instance_of : S → NewState S
  plain_dict : Dict Data → NewState S
  other_value : NewState S

-- What a handler returns; `none` is an item that is no action.
abbrev pub Handled : Type 0 → Type 0
Handled S = Result Failure (NewState S × List (Option Action))

abbrev pub Handler : Type 0 → Type 0
Handler S = S → Event → Handled S

abbrev pub Model : Type 0 → Type 0
Model S = Dict Value → Result Failure S

-- The parts of a call that `process_handler_call` reads first.
pub record Call : Type 0 where
  pub handler : Value
  pub state : Value
  pub event : Event

-- `_error`
abbrev pub error_reply : (type message : Str) → Dict Data
error_reply type message =
    (lit "error", leaf (dict ((lit "type", str type) ∷ (lit "message", str message) ∷ []))) ∷ []

unfoldable pub read_call : Value → Result Exc Call
read_call payload = do
  handler_key ← index payload (lit "handler")
  state ← value_get payload (lit "state") (dict [])
  event ← value_get payload (lit "event") (dict [])
  event_type ← index event (lit "event_type")
  source ← value_get event (lit "source") (str [])
  given ← value_get event (lit "args") (dict [])
  args ← dict_of given
  ok (record {
    handler = handler_key;
    state = state;
    event = record { source = source; event_type = event_type; args = args };
  })

-- Is the exception one of `KeyError`, `TypeError` and `AttributeError`?
abbrev pub is_malformed : Exc → Bool
is_malformed key_error = true
is_malformed type_error = true
is_malformed attribute_error = true
is_malformed _ = false

-- `registry.get(key)`: a list and a dict are no keys.
unfoldable pub find_handler {ℓ} :
    {F : Type ℓ} → Dict (HandlerEntry F) → Value → Result Exc (Option (HandlerEntry F))
find_handler registry (str key) = ok (get registry key)
find_handler registry (arr vs) = err type_error
find_handler registry (obj fs) = err type_error
find_handler registry _ = ok none

abbrev pub serialise_all : List (Option Action) → Result Exc (List Value)
serialise_all [] = ok []
serialise_all (none ∷ actions) = err type_error
serialise_all (some a ∷ actions) = do
  rest ← serialise_all actions
  ok (dict (serialise_action a) ∷ rest)

-- What the language adds: `str` of a value of either kind, the texts of the exceptions that reading a
-- payload raises, and the comparison of a float with an integer; and `model_dump`.
pub record World (S : Type 0) : Type 0 where
  pub text : Data → Str
  pub repr : Value → Str
  pub text_of : Value → Exc → Str
  pub float_eq : Str → ℤ → Bool
  pub model_dump : S → Dict Data

abbrev pub version_key : Str
version_key = lit "_schema_version"

-- Does the version that a state bears differ from the model's?
abbrev pub drifted : (Str → ℤ → Bool) → Value → ℤ → Bool
drifted float_eq null version = false
drifted float_eq v version = not (eq_int float_eq v version)

abbrev pub state_items : Value → Result Exc (Dict Value)
state_items (obj fs) = ok (fields fs)
state_items _ = err attribute_error

module _ {S : Type 0} (world : World S) where
  -- `_dump_state`
  unfoldable pub dump_state : NewState S → Result Exc (Dict Data)
  dump_state (instance_of s) =
      ok (entries (entries_native world.text (to_entries (world.model_dump s))))
  dump_state (plain_dict d) = ok (entries (entries_native world.text (to_entries d)))
  dump_state other_value = err type_error

  abbrev pub reply_with :
      StateEntry (Model S) → (dumped : Dict Data) → (actions : List Value) → Dict Data
  reply_with entry dumped actions =
      (
        lit "new_state",
        dict_of_data (to_entries (put dumped version_key (leaf (int entry.schema_version)))),
      )
      ∷ (lit "actions", leaf (list actions))
      ∷ []

  -- The reply to what the handler returned.
  unfoldable pub reply_of : StateEntry (Model S) → Handled S → Result Exc (Dict Data)
  reply_of entry (err f) = ok (error_reply f.type f.message)
  reply_of entry (ok (new_state, actions)) = do
    dumped ← dump_state new_state
    serialised ← serialise_all actions
    ok (reply_with entry dumped serialised)

  abbrev pub on_state :
      Handler S → StateEntry (Model S) → Event → Result Failure S → Result Exc (Dict Data)
  on_state fn entry event (err f) = ok (error_reply f.type f.message)
  on_state fn entry event (ok state) = reply_of entry (fn state event)

  -- `state_entry.model(**clean_state_dict)` and the handler's call.
  unfoldable pub run_handler :
      Handler S → StateEntry (Model S) → (clean : Dict Value) → Event → Result Exc (Dict Data)
  run_handler fn entry clean event = on_state fn entry event (entry.model clean)

  -- The texts of the errors.
  abbrev pub unregistered : Call → Str
  unregistered call = py_str world.repr call.handler ++ lit " not registered"

  abbrev pub no_model : HandlerEntry (Handler S) → Str
  no_model handler =
      (lit "state model for actor_type ") ++ handler.actor_type ++ (lit " not registered")

  abbrev pub mismatch : HandlerEntry (Handler S) → StateEntry (Model S) → (incoming : Value) → Str
  mismatch handler entry incoming =
      ((lit "state for ") ++ handler.actor_type)
      ++ (lit " is at schema_version ")
      ++ py_str world.repr incoming
      ++ (lit "; this worker expects ")
      ++ show_int entry.schema_version

  unfoldable pub with_state :
      HandlerEntry (Handler S)
      → StateEntry (Model S)
      → Event
      → (state : Dict Value) → Result Exc (Dict Data)
  with_state handler entry event state =
      let incoming = get_or state version_key null in
      if drifted world.float_eq incoming entry.schema_version
      then ok (error_reply (lit "SchemaVersionMismatch") (mismatch handler entry incoming))
      else run_handler handler.fn entry (remove state version_key) event

  module _ (handlers : Dict (HandlerEntry (Handler S))) (states : Dict (StateEntry (Model S))) where
    abbrev pub with_handler : Call → Option (HandlerEntry (Handler S)) → Result Exc (Dict Data)
    with_handler call none = ok (error_reply (lit "HandlerNotRegistered") (unregistered call))
    with_handler call (some handler) = elim (get states handler.actor_type) [
      | none ↦ ok (error_reply (lit "StateNotRegistered") (no_model handler))
      | some entry ↦ state_items call.state >>= with_state handler entry call.event
    ]

    abbrev pub on_call : Value → Result Exc Call → Result Exc (Dict Data)
    on_call payload (err e) =
        if is_malformed e
        then ok (error_reply (lit "MalformedEnvelope") (world.text_of payload e))
        else err e
    on_call payload (ok call) = do
      found ← find_handler handlers call.handler
      with_handler call found

    unfoldable pub process_handler_call : Value → Result Exc (Dict Data)
    unfolding read_call
    process_handler_call payload = on_call payload (read_call payload)

    -- The envelope of the reply, as it goes on the wire.
    unfoldable pub reply_envelope : (topic : Str) → Dict Value → Result Exc (Dict Value)
    reply_envelope topic envelope = do
      payload ← index_dict envelope (lit "payload")
      reply ← process_handler_call payload
      id ← index_dict envelope (lit "id")
      sendable ← encoded (dict_of_data (to_entries reply))
      ok (
          (lit "kind", str (lit "handler_reply"))
          ∷ (lit "id", id)
          ∷ (lit "source", str ((lit "esr://localhost/") ++ topic))
          ∷ (lit "payload", sendable)
          ∷ [])

    module _ {H : Type 0} (topic : Str) where
      abbrev pub push_reply : Client H → Result Exc (Dict Value) → Result Exc (Unit {0}) × Client H
      push_reply c (err e) = (err e, c)
      push_reply c (ok envelope) = push c (envelope_of topic envelope)

      -- `_handler_call_loop`: a `none` in the queue ends it, and so does an exception.
      unfoldable pub handler_call_loop :
          Client H → List (Option (Dict Value)) → Result Exc (Unit {0}) × Client H
      handler_call_loop c [] = (ok tt, c)
      handler_call_loop c (none ∷ queue) = (ok tt, c)
      handler_call_loop c (some envelope ∷ queue) =
          let (outcome, after) = push_reply c (reply_envelope topic envelope) in
          let rest = handler_call_loop after queue in
          elim outcome [ ok _ ↦ rest | err e ↦ (err e, after) ]

module _ {H : Type 0} where
  abbrev greeted :
      Result Exc (Unit {0}) × Client H
      → (topic new_id now : Str) → List Str
      → Result Exc (Unit {0}) × Client H
  greeted (err e, c) topic new_id now permissions = (err e, c)
  greeted (ok _, c) topic new_id now permissions =
      say_hello c topic
        (make_handler_hello new_id now ((lit "esr://localhost/") ++ topic) permissions)

  -- `run_with_client` up to the start of the loop: it connects, joins the topic, with the server's
  -- answer, and announces the permissions, which are given sorted.
  unfoldable pub start_worker :
      Client H
      → (topic new_id now : Str) → (permissions : List Str) → H
      → (accepted : Bool) → Result Exc (Unit {0}) × Client H
  start_worker c topic new_id now permissions on_msg accepted =
      let (sent, joining) = join (connect c) topic on_msg in
      elim sent [
        | err e ↦ (err e, joining)
        | ok _ ↦ greeted (join_reply joining topic accepted) topic new_id now permissions
      ]
