-- ===== src/Worker/Total.antt =====
-- The worker does not raise where a call can be read and the handlers keep their contract.
use esr.Base.{
  ◌≡◌, refl, inl, inr, true, not, Option, none, some, List, [], ◌∷◌, Str, lit, Dict, get, has, All,
  Option-cases, Bool-cases, ◌==◌,
}
use esr.Base.Result.{Result, ok, err, Exc, Failure, ◌>>=◌}
use esr.Value.{Value, null, bool, int, float, str, arr, obj, fields, get_or, dict}
use esr.Actions.{Action, Event}
use esr.Actions.Wire.{serialise_action}
use esr.Registry.{HandlerEntry, StateEntry}
use esr.Worker.{
  NewState, instance_of, plain_dict, other_value, Handled, Handler, Model, Call, error_reply,
  read_call, is_malformed, find_handler, serialise_all, World, version_key, drifted, dump_state,
  reply_of, reply_with, on_state, state_items, unregistered, no_model, mismatch, run_handler,
  with_state, with_handler, on_call, process_handler_call,
}
use esr.Worker.Dump.{Data, entries, to_entries, entries_native}

-- There is a reply, and it says either an error or a new state.
abbrev pub Answered : Result Exc (Dict Data) → Type 0
Answered r =
    (reply : Dict Data) × (r ≡ ok reply)
    × (has reply (lit "error") ≡ not (has reply (lit "new_state")))

-- A handler's key can be looked up, and a state is a dict.
abbrev pub IsKey : Value → Type 0
IsKey (arr vs) = ⊥
IsKey (obj fs) = ⊥
IsKey _ = Unit

abbrev pub IsObject : Value → Type 0
IsObject (obj fs) = Unit
IsObject _ = ⊥

abbrev pub IsAnswerable : Result Exc Call → Type 0
IsAnswerable (err e) = is_malformed e ≡ true
IsAnswerable (ok call) = IsKey call.handler × IsObject call.state

abbrev IsState : {S : Type 0} → NewState S → Type 0
IsState other_value = ⊥
IsState _ = Unit

abbrev IsAction : Option Action → Type 0
IsAction none = ⊥
IsAction (some a) = Unit

-- A handler raises, or returns a state and actions.
abbrev pub Keeps : {S : Type 0} → Handled S → Type 0
Keeps (err f) = Unit
Keeps (ok (new_state, actions)) = IsState new_state × All IsAction actions

serialise_all_total :
    (actions : List (Option Action))
    → All IsAction actions
    → (vs : List Value) × (serialise_all actions ≡ ok vs)
serialise_all_total [] h = ([], refl)
serialise_all_total (none ∷ actions) h = absurd h.0
serialise_all_total (some a ∷ actions) h =
    let (vs, e) = serialise_all_total actions h.1 in (dict (serialise_action a) ∷ vs, rw e refl)

module _ {S : Type 0} (world : World S) where
  reply_of_total :
      (entry : StateEntry (Model S)) (h : Handled S) → Keeps h → Answered (reply_of world entry h)
  unfolding reply_of dump_state has ◌==◌
  reply_of_total entry (err f) k = (error_reply f.type f.message, refl, refl)
  reply_of_total entry (ok (instance_of s, actions)) k =
      let (vs, e) = serialise_all_total actions k.1 in
      (
        reply_with world entry
            (entries (entries_native world.text (to_entries (world.model_dump s)))) vs,
        rw e refl,
        refl,
      )
  reply_of_total entry (ok (plain_dict d, actions)) k =
      let (vs, e) = serialise_all_total actions k.1 in
      (
        reply_with world entry (entries (entries_native world.text (to_entries d))) vs,
        rw e refl,
        refl,
      )
  reply_of_total entry (ok (other_value, actions)) k = absurd k.0

  on_state_total :
      (fn : Handler S) (entry : StateEntry (Model S)) (event : Event) (r : Result Failure S)
      → ((s : S) → Keeps (fn s event))
      → Answered (on_state world fn entry event r)
  unfolding has ◌==◌
  on_state_total fn entry event (err f) k = (error_reply f.type f.message, refl, refl)
  on_state_total fn entry event (ok s) k = reply_of_total entry (fn s event) (k s)

  module _ (handlers : Dict (HandlerEntry (Handler S))) (states : Dict (StateEntry (Model S))) where
    with_state_total :
        (handler : HandlerEntry (Handler S)) (entry : StateEntry (Model S)) (event : Event)
        (state : Dict Value)
        → ((s : S) → Keeps (handler.fn s event))
        → Answered (with_state world handler entry event state)
    unfolding with_state run_handler has ◌==◌
    with_state_total handler entry event state k =
        elim (Bool-cases
          (drifted world.float_eq (get_or state version_key null) entry.schema_version)) [
            | inl old ↦ (
              error_reply (lit "SchemaVersionMismatch")
                  (mismatch world handler entry (get_or state version_key null)),
              rw old refl,
              refl,
            )
            | inr same ↦ rw same (on_state_total handler.fn entry event (entry.model _) k)
          ]

    -- Every registered handler keeps the contract.
    abbrev pub AllKeep : Type 0
    AllKeep =
        (key : Str) (handler : HandlerEntry (Handler S))
        → get handlers key ≡ some handler
        → (s : S) (event : Event) → Keeps (handler.fn s event)

    with_handler_total :
        (call : Call) (o : Option (HandlerEntry (Handler S)))
        → IsObject call.state
        → ((handler : HandlerEntry (Handler S))
            → o ≡ some handler
            → (s : S) (event : Event) → Keeps (handler.fn s event))
        → Answered (with_handler world handlers states call o)
    unfolding has ◌==◌
    with_handler_total call none h k =
        (error_reply (lit "HandlerNotRegistered") (unregistered world call), refl, refl)
    with_handler_total call (some handler) h k =
        elim (Option-cases (get states handler.actor_type)) [
          | inl missing ↦ (
            error_reply (lit "StateNotRegistered") (no_model world handler),
            rw (with_handler, missing) refl,
            refl,
          )
          | inr (entry, found) ↦ rw (with_handler, found) (with_object call.state h entry)
        ]
      where
        with_object :
            (v : Value)
            → IsObject v
            → (entry : StateEntry (Model S))
            → Answered (state_items v >>= with_state world handler entry call.event)
        with_object (obj fs) t entry =
            with_state_total handler entry call.event (fields fs) (λ s. k handler refl s call.event)
        with_object null t entry = absurd t
        with_object (bool b) t entry = absurd t
        with_object (int i) t entry = absurd t
        with_object (float r) t entry = absurd t
        with_object (str s) t entry = absurd t
        with_object (arr vs) t entry = absurd t

    on_key :
        (call : Call) (key : Value)
        → IsKey key
        → IsObject call.state
        → AllKeep
        → Answered (find_handler handlers key >>= with_handler world handlers states call)
    unfolding find_handler
    on_key call (str key) h t k =
        with_handler_total call (get handlers key) t (λ handler e. k key handler e)
    on_key call null h t k = with_handler_total call none t (λ handler e. absurd (cc e))
    on_key call (bool b) h t k = with_handler_total call none t (λ handler e. absurd (cc e))
    on_key call (int i) h t k = with_handler_total call none t (λ handler e. absurd (cc e))
    on_key call (float r) h t k = with_handler_total call none t (λ handler e. absurd (cc e))
    on_key call (arr vs) h t k = absurd h
    on_key call (obj fs) h t k = absurd h

    on_call_total :
        (payload : Value) (r : Result Exc Call)
        → IsAnswerable r
        → AllKeep
        → Answered (on_call world handlers states payload r)
    unfolding has ◌==◌
    on_call_total payload (err e) h k = (
      error_reply (lit "MalformedEnvelope") (world.text_of payload e),
      rw (on_call, h) refl,
      refl,
    )
    on_call_total payload (ok call) h k = on_key call call.handler h.0 h.1 k

    -- If reading a payload does not raise a `ValueError`, and what it reads has a handler that can be
    -- looked up and a state that is a dict, and if every registered handler raises or returns a state
    -- and actions, the call is answered, whatever the registries and the models are: there is a
    -- reply, and it has an error exactly if it has no new state.
    pub process_handler_call_total :
        (payload : Value)
        → IsAnswerable (read_call payload)
        → AllKeep
        → Answered (process_handler_call world handlers states payload)
    unfolding process_handler_call
    process_handler_call_total payload h k = on_call_total payload (read_call payload) h k
