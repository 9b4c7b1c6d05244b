-- ===== src/Worker/Faults.antt =====
-- What the worker replies to a call that it cannot serve, from what stands in the payload.
use esr.Base.{
  inl, inr, ◌⊎◌, Bool-cases, ◌≡◌, ◌≢◌, refl, ◌∙◌, false, none, some, ◌++◌, Str, lit, Dict, get,
  remove, eqb, arith, ap,
}
use esr.Base.Result.{ok, err, Exc, Failure}
use esr.Decimal.{ℤ, pos, negsuc, show_int}
use esr.Value.{Value, Fields, null, int, str, obj, fields, get_or, py_str}
use esr.Value.Access.{get_or-get, eq_int, same_int}
use esr.Actions.{Event}
use esr.Worker.Version.{eq_int_refl}
use esr.Registry.{HandlerEntry, StateEntry}
use esr.Worker.{
  Handler, Model, error_reply, find_handler, World, version_key, run_handler, with_state,
  with_handler, on_call, process_handler_call, reply_of,
}
use esr.Worker.Calls.{IsCall, NoCall, NoCall-is_malformed, read_call-NoCall, read_call-IsCall}

same_int-ne : (i j : ℤ) → i ≢ j → same_int i j ≡ false
same_int-ne (pos n) (pos m) other = elim (Bool-cases (eqb n m)) [
  | inl e ↦ absurd (other (ap pos (ground arith)))
  | inr e ↦ e
]
same_int-ne (negsuc n) (negsuc m) other = elim (Bool-cases (eqb n m)) [
  | inl e ↦ absurd (other (ap negsuc (ground arith)))
  | inr e ↦ e
]
same_int-ne i j other = refl

-- The state bears no version, or this one.
abbrev pub Bears : Fields → ℤ → Type 0
Bears state version =
    (get (fields state) version_key ≡ none)
    ⊎ (get (fields state) version_key ≡ some null)
    ⊎ (get (fields state) version_key ≡ some (int version))

module _ {S : Type 0} (world : World S) (handlers : Dict (HandlerEntry (Handler S)))
    (states : Dict (StateEntry (Model S))) where
  -- Why a payload is not served, with the class and the text of the error that is due.
  pub data Fault (payload : Value) : Str → Str → Type 0 where
    malformed :
        {e : Exc}
        → NoCall payload e
        → Fault payload (lit "MalformedEnvelope") (world.text_of payload e)
    no_handler :
        {key : Str} {state : Fields} {event : Event}
        → IsCall payload key state event
        → get handlers key ≡ none
        → Fault payload (lit "HandlerNotRegistered") (key ++ lit " not registered")
    unmodelled :
        {key : Str} {state : Fields} {event : Event} {handler : HandlerEntry (Handler S)}
        → IsCall payload key state event
        → get handlers key ≡ some handler
        → get states handler.actor_type ≡ none
        → Fault payload
            (lit "StateNotRegistered")
            ((lit "state model for actor_type ") ++ handler.actor_type ++ (lit " not registered"))
    outdated :
        {key : Str} {state : Fields} {event : Event} {handler : HandlerEntry (Handler S)}
        {entry : StateEntry (Model S)} {version : ℤ}
        → IsCall payload key state event
        → get handlers key ≡ some handler
        → get states handler.actor_type ≡ some entry
        → get (fields state) version_key ≡ some (int version)
        → version ≢ entry.schema_version
        → Fault payload (lit "SchemaVersionMismatch") (
            ((lit "state for ") ++ handler.actor_type)
            ++ (lit " is at schema_version ")
            ++ show_int version
            ++ (lit "; this worker expects ")
            ++ show_int entry.schema_version)
    invalid_state :
        {key : Str} {state : Fields} {event : Event} {handler : HandlerEntry (Handler S)}
        {entry : StateEntry (Model S)} {f : Failure}
        → IsCall payload key state event
        → get handlers key ≡ some handler
        → get states handler.actor_type ≡ some entry
        → Bears state entry.schema_version
        → entry.model (remove (fields state) version_key) ≡ err f
        → Fault payload f.type f.message
    handler_raised :
        {key : Str} {state : Fields} {event : Event} {handler : HandlerEntry (Handler S)}
        {entry : StateEntry (Model S)} {s : S} {f : Failure}
        → IsCall payload key state event
        → get handlers key ≡ some handler
        → get states handler.actor_type ≡ some entry
        → Bears state entry.schema_version
        → entry.model (remove (fields state) version_key) ≡ ok s
        → handler.fn s event ≡ err f
        → Fault payload f.type f.message

  process-IsCall :
      {payload : Value} {key : Str} {state : Fields} {event : Event}
      → IsCall payload key state event
      → process_handler_call world handlers states payload
        ≡ with_handler world handlers states
            (record { handler = str key; state = obj state; event = event })
            (get handlers key)
  unfolding process_handler_call find_handler
  process-IsCall {payload = payload} {key = key} {state = state} {event = event} h =
      rw (read_call-IsCall payload key state event h) refl

  process-state :
      {payload : Value} {key : Str} {state : Fields} {event : Event}
      {handler : HandlerEntry (Handler S)} {entry : StateEntry (Model S)}
      → IsCall payload key state event
      → get handlers key ≡ some handler
      → get states handler.actor_type ≡ some entry
      → process_handler_call world handlers states payload
        ≡ with_state world handler entry event (fields state)
  process-state h found modelled = process-IsCall h ∙ rw (found, with_handler, modelled) refl

  with_state-Bears :
      (handler : HandlerEntry (Handler S)) (entry : StateEntry (Model S)) (event : Event)
      (state : Fields)
      → Bears state entry.schema_version
      → with_state world handler entry event (fields state)
        ≡ run_handler world handler.fn entry (remove (fields state) version_key) event
  unfolding with_state
  with_state-Bears handler entry event state (inl missing) =
      let none_held : get_or (fields state) version_key null ≡ null = rw (get_or, missing) refl in
      rw none_held refl
  with_state-Bears handler entry event state (inr (inl missing)) =
      rw (get_or-get (fields state) version_key null missing) refl
  with_state-Bears handler entry event state (inr (inr bears)) =
      rw
        (
          get_or-get (fields state) version_key null bears,
          eq_int_refl world.float_eq entry.schema_version,
        )
        refl

  -- A payload that is no dict, names no handler, or has an event that is no dict, has no type or has
  -- null as its arguments, is answered by `MalformedEnvelope` with the text of what reading it raises.
  -- A call with a dict as its state, its event and its arguments is answered by an error, with the
  -- class and the text that are due, if its handler or the model of that handler's states is not
  -- registered, or its state bears an integer that is not the model's version; and if the model or
  -- the handler raises, by the class and the text of what was raised.
  pub process_handler_call-Fault :
      (payload : Value) (type message : Str)
      → Fault payload type message
      → process_handler_call world handlers states payload ≡ ok (error_reply type message)
  unfolding process_handler_call with_state run_handler reply_of eq_int
  process_handler_call-Fault payload type message (malformed {e = e} h) =
      rw (on_call, read_call-NoCall payload e h, NoCall-is_malformed payload e h) refl
  process_handler_call-Fault payload type message (no_handler h missing) =
      process-IsCall h ∙ rw (missing, with_handler) (unfold py_str in refl)
  process_handler_call-Fault payload type message (unmodelled h found missing) =
      process-IsCall h ∙ rw (found, with_handler, missing) refl
  process_handler_call-Fault payload type message
        (outdated {state = state} {entry = entry} {version = version} h found modelled bears
          other) =
      process-state h found modelled
      ∙ rw
          (
            get_or-get (fields state) version_key null bears,
            same_int-ne version entry.schema_version other,
          )
          (unfold py_str in refl)
  process_handler_call-Fault payload type message
        (invalid_state {state = state} {event = event} {handler = handler} {entry = entry} h found
          modelled bears failed) =
      process-state h found modelled
      ∙ with_state-Bears handler entry event state bears
      ∙ rw (run_handler, failed) refl
  process_handler_call-Fault payload type message
        (handler_raised {state = state} {event = event} {handler = handler} {entry = entry} h found
          modelled bears made failed) =
      process-state h found modelled
      ∙ with_state-Bears handler entry event state bears
      ∙ rw (run_handler, made, failed) refl
