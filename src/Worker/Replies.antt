-- ===== src/Worker/Replies.antt =====
-- What the worker replies to a call.
use esr.Base.{◌≡◌, refl, ◌∙◌, false, some, List, [], ◌∷◌, lit, Dict, get, put, remove, map}
use esr.Base.Result.{ok}
use esr.Value.{Value, null, int, obj, list, dict, fields, get_or, Fields}
use esr.Actions.{Action}
use esr.Actions.Wire.{serialise_action, deserialise_action, deserialise-serialise}
use esr.Registry.{HandlerEntry, StateEntry}
use esr.Worker.{
  NewState, Handler, Model, Call, read_call, find_handler, serialise_all, World, version_key,
  drifted, dump_state, reply_of, run_handler, with_state, with_handler, process_handler_call,
}
use esr.Worker.Dump.{Data, leaf, dict_of_data, to_entries}

-- The actions as they go on the wire.
abbrev pub on_wire : List Action → List (Dict Value)
on_wire actions = map (λ a. serialise_action a) actions

serialise_all_lem :
    (actions : List Action)
    → serialise_all (map (λ a. some a) actions) ≡ ok (map (λ d. dict d) (on_wire actions))
serialise_all_lem [] = refl
serialise_all_lem (a ∷ actions) = rw (serialise_all_lem actions) refl

read_back :
    (actions : List Action)
    → map (λ d. deserialise_action d) (on_wire actions) ≡ map (λ a. ok a) actions
read_back [] = refl
read_back (a ∷ actions) = rw (deserialise-serialise a, read_back actions) refl

module _ {S : Type 0} (world : World S) (handlers : Dict (HandlerEntry (Handler S)))
    (states : Dict (StateEntry (Model S))) where
  -- The call names a handler, and both it and the model of its states are registered.
  pub record IsServed (payload : Value) (call : Call) (handler : HandlerEntry (Handler S))
      (entry : StateEntry (Model S)) (state : Fields) : Type 0 where
    pub read : read_call payload ≡ ok call
    pub found : find_handler handlers call.handler ≡ ok (some handler)
    pub modelled : get states handler.actor_type ≡ some entry
    pub held : call.state ≡ obj state

  served :
      {payload : Value} {call : Call} {handler : HandlerEntry (Handler S)}
      {entry : StateEntry (Model S)} {state : Fields}
      → IsServed payload call handler entry state
      → process_handler_call world handlers states payload
        ≡ with_state world handler entry call.event (fields state)
  unfolding process_handler_call
  served h = rw (h.read, h.found, with_handler, h.modelled, h.held) refl

  -- For a call of a registered handler whose state bears the model's version or none, if the model
  -- takes the rest of the state, the handler returns a state that can be dumped, and all that it
  -- returns besides are actions, the reply holds the dump with the model's version, and the actions
  -- in such a form that they are read back as the handler returned them, in order.
  pub process_handler_call_lem :
      (payload : Value) (call : Call) (handler : HandlerEntry (Handler S))
      (entry : StateEntry (Model S)) (state : Fields)
      → IsServed payload call handler entry state
      → (s : S) (new_state : NewState S) (actions : List Action) (dumped : Dict Data)
      → drifted world.float_eq (get_or (fields state) version_key null) entry.schema_version ≡ false
      → entry.model (remove (fields state) version_key) ≡ ok s
      → handler.fn s call.event ≡ ok (new_state, map (λ a. some a) actions)
      → dump_state world new_state ≡ ok dumped
      → (wire : List (Dict Value)) × (process_handler_call world handlers states payload
          ≡ ok (
              (
                lit "new_state",
                dict_of_data
                    (to_entries (put dumped version_key (leaf (int entry.schema_version)))),
              )
              ∷ (lit "actions", leaf (list (map (λ d. dict d) wire)))
              ∷ []))
        × (map (λ d. deserialise_action d) wire ≡ map (λ a. ok a) actions)
  unfolding with_state run_handler reply_of
  process_handler_call_lem payload call handler entry state h s new_state actions dumped same made
        ran dumps =
      (
        on_wire actions,
        served h ∙ rw (same, run_handler, made, ran, dumps, serialise_all_lem actions) refl,
        read_back actions,
      )
