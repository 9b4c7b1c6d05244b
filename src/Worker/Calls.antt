-- ===== src/Worker/Calls.antt =====
-- Which payloads are calls, by what stands in them, and what reading one gives.
use esr.Base.{◌≡◌, refl, true, none, some, [], Str, lit, get}
use esr.Base.Result.{ok, err, Exc, key_error, type_error}
use esr.Value.{Value, Fields, null, str, obj, dict, fields, get_or, value_get}
use esr.Value.Access.{index, index_dict, index_dict-get, dict_of}
use esr.Actions.{Event}
use esr.Worker.{read_call, is_malformed}

-- The value is no dict.
abbrev pub NotDict : Value → Type 0
NotDict (obj fs) = ⊥
NotDict _ = Unit

-- The payload names a handler, has a dict as its state and a dict as its event, if it has them, and
-- the event has a type and a dict of arguments, if any.
pub record IsCall (payload : Value) (handler : Str) (state : Fields) (event : Event) : Type 0 where
  pub parts : Fields
  pub event_parts : Fields
  pub args : Fields
  pub is_dict : payload ≡ obj parts
  pub names : get (fields parts) (lit "handler") ≡ some (str handler)
  pub holds : get_or (fields parts) (lit "state") (dict []) ≡ obj state
  pub tells : get_or (fields parts) (lit "event") (dict []) ≡ obj event_parts
  pub sent_by : event.source ≡ get_or (fields event_parts) (lit "source") (str [])
  pub typed : get (fields event_parts) (lit "event_type") ≡ some event.event_type
  pub given : get_or (fields event_parts) (lit "args") (dict []) ≡ obj args
  pub all : event.args ≡ fields args

-- Why a payload is no call, and what reading it raises.
pub data NoCall : Value → Exc → Type 0 where
  not_dict : {payload : Value} → NotDict payload → NoCall payload type_error
  no_handler_key :
      {parts : Fields} → get (fields parts) (lit "handler") ≡ none → NoCall (obj parts) key_error
  event_not_dict :
      {parts : Fields} {handler event : Value}
      → get (fields parts) (lit "handler") ≡ some handler
      → get (fields parts) (lit "event") ≡ some event
      → NotDict event
      → NoCall (obj parts) type_error
  no_event_type :
      {parts event : Fields} {handler : Value}
      → get (fields parts) (lit "handler") ≡ some handler
      → get_or (fields parts) (lit "event") (dict []) ≡ obj event
      → get (fields event) (lit "event_type") ≡ none
      → NoCall (obj parts) key_error
  null_args :
      {parts event : Fields} {handler event_type : Value}
      → get (fields parts) (lit "handler") ≡ some handler
      → get_or (fields parts) (lit "event") (dict []) ≡ obj event
      → get (fields event) (lit "event_type") ≡ some event_type
      → get (fields event) (lit "args") ≡ some null
      → NoCall (obj parts) type_error

index-NotDict : (v : Value) (k : Str) → NotDict v → index v k ≡ err type_error
unfolding index
index-NotDict (obj fs) k h = absurd h
index-NotDict v k h = refl

index-some :
    (fs : Fields) (k : Str) {v : Value} → get (fields fs) k ≡ some v → index (obj fs) k ≡ ok v
unfolding index
index-some fs k e = index_dict-get (fields fs) k e

index-none : (fs : Fields) (k : Str) → get (fields fs) k ≡ none → index (obj fs) k ≡ err key_error
unfolding index
index-none fs k e = rw (index_dict, e) refl

pub NoCall-is_malformed : (payload : Value) (e : Exc) → NoCall payload e → is_malformed e ≡ true
NoCall-is_malformed payload e (not_dict h) = refl
NoCall-is_malformed payload e (no_handler_key missing) = refl
NoCall-is_malformed payload e (event_not_dict named held h) = refl
NoCall-is_malformed payload e (no_event_type named held missing) = refl
NoCall-is_malformed payload e (null_args named held typed args) = refl

pub read_call-NoCall : (payload : Value) (e : Exc) → NoCall payload e → read_call payload ≡ err e
unfolding read_call value_get dict_of
read_call-NoCall payload e (not_dict h) = rw (index-NotDict payload (lit "handler") h) refl
read_call-NoCall (obj parts) e (no_handler_key missing) =
    rw (index-none parts (lit "handler") missing) refl
read_call-NoCall (obj parts) e (event_not_dict {event = event} named held h) =
    rw (index-some parts (lit "handler") named, held, index-NotDict event (lit "event_type") h) refl
read_call-NoCall (obj parts) e (no_event_type {event = event} named held missing) =
    rw (index-some parts (lit "handler") named, held, index-none event (lit "event_type") missing)
      refl
read_call-NoCall (obj parts) e (null_args {event = event} named held typed args) =
    rw
      (
        index-some parts (lit "handler") named,
        held,
        index-some event (lit "event_type") typed,
        args,
      )
      refl

pub read_call-IsCall :
    (payload : Value) (handler : Str) (state : Fields) (event : Event)
    → IsCall payload handler state event
    → read_call payload ≡ ok (record { handler = str handler; state = obj state; event = event })
unfolding read_call value_get dict_of
read_call-IsCall payload handler state event h =
    rw
      (
        h.is_dict,
        index-some h.parts (lit "handler") h.names,
        h.holds,
        h.tells,
        index-some h.event_parts (lit "event_type") h.typed,
        h.given,
        h.sent_by,
        h.all,
      )
      refl
