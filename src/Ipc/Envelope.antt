-- ===== src/Ipc/Envelope.antt =====
-- py/src/esr/ipc/envelope.py: the builders of envelopes. The fresh identifier and the time are
-- arguments.
use esr.Base.{
  ◌≡◌, refl, Bool, true, false, List, [], ◌∷◌, Str, lit, Dict, get, has, put, map, starts_with,
  if◌then◌else◌, ◌++◌, ◌==◌, not,
}
use esr.Base.Result.{Result, ok, err, Exc, value_error, ◌>>=◌}
use esr.Value.{Value, null, bool, str, dict, list, fields-to_fields, value_get}
use esr.Value.Access.{in_value, index, dict_of}
use esr.Actions.{from_envelope}

-- `_check_source`
unfoldable pub check_source : Str → Result Exc (Unit {0})
check_source source = if starts_with source (lit "esr://") then ok tt else err value_error

unfoldable pub make_event :
    (new_id now source : Str) (event_type : Value) (args : Dict Value)
    (principal_id workspace_name : Value)
    → Result Exc (Dict Value)
unfolding check_source
make_event new_id now source event_type args principal_id workspace_name = do
  _ ← check_source source
  ok (
      (lit "kind", str (lit "event"))
      ∷ (lit "id", str new_id)
      ∷ (lit "ts", str now)
      ∷ (lit "type", str (lit "event"))
      ∷ (lit "source", str source)
      ∷ (lit "principal_id", principal_id)
      ∷ (lit "workspace_name", workspace_name)
      ∷ (lit "payload", dict ((lit "event_type", event_type) ∷ (lit "args", dict args) ∷ []))
      ∷ [])

-- An optional dict under a key of the payload; `null` is the default `None`.
with_part : Dict Value → Str → Bool → Value → Result Exc (Dict Value)
with_part payload k false part = ok payload
with_part payload k true null = ok payload
with_part payload k true part = do d ← dict_of part; ok (put payload k (dict d))

unfoldable pub make_directive_ack :
    (now : Str) (id : Value) (source : Str) (is_ok : Bool) (result error : Value)
    → Result Exc (Dict Value)
unfolding check_source with_part
make_directive_ack now id source is_ok result error = do
  _ ← check_source source
  with_result ← with_part ((lit "ok", bool is_ok) ∷ []) (lit "result") is_ok result
  payload ← with_part with_result (lit "error") (not is_ok) error
  ok (
      (lit "kind", str (lit "directive_ack"))
      ∷ (lit "id", id)
      ∷ (lit "ts", str now)
      ∷ (lit "type", str (lit "directive_ack"))
      ∷ (lit "source", str source)
      ∷ (lit "payload", dict payload)
      ∷ [])

unfoldable pub make_handler_reply :
    (now source id : Str) (new_state : Dict Value) (actions : List (Dict Value))
    → Result Exc (Dict Value)
unfolding check_source
make_handler_reply now source id new_state actions = do
  _ ← check_source source
  let payload =
      (lit "new_state", dict new_state) ∷ (lit "actions", list (map (λ a. dict a) actions)) ∷ []
  ok (
      (lit "kind", str (lit "handler_reply"))
      ∷ (lit "id", str id)
      ∷ (lit "ts", str now)
      ∷ (lit "type", str (lit "handler_reply"))
      ∷ (lit "source", str source)
      ∷ (lit "payload", dict payload)
      ∷ [])

unfoldable pub make_handler_hello :
    (new_id now source : Str) (permissions : List Str) → Result Exc (Dict Value)
unfolding check_source
make_handler_hello new_id now source permissions = do
  _ ← check_source source
  ok (
      (lit "kind", str (lit "handler_hello"))
      ∷ (lit "id", str new_id)
      ∷ (lit "ts", str now)
      ∷ (lit "type", str (lit "handler_hello"))
      ∷ (lit "source", str source)
      ∷ (lit "payload", dict ((lit "permissions", list (map (λ p. str p) permissions)) ∷ []))
      ∷ [])

-- An envelope that `make_event` builds for a source that starts with `esr://`, whoever the principal
-- is, is read by `Event.from_envelope` as the event of that source, with the type and the arguments
-- that were given.
pub from_envelope-make_event :
    (new_id now rest : Str) (event_type : Value) (args : Dict Value)
    (principal_id workspace_name : Value)
    → (make_event new_id now (lit "esr://" ++ rest) event_type args principal_id workspace_name
        >>= from_envelope)
      ≡ ok (record { source = str (lit "esr://" ++ rest); event_type = event_type; args = args })
unfolding make_event from_envelope ◌==◌ starts_with get in_value index has value_get dict_of
from_envelope-make_event new_id now rest event_type args principal_id workspace_name =
    rw fields-to_fields refl

-- A source that does not start with `esr://` makes no envelope of any kind: every builder raises a
-- `ValueError`, whatever its other arguments are.
pub builders_refuse :
    (source : Str)
    → starts_with source (lit "esr://") ≡ false
    → (new_id now id : Str) (event_type directive_id : Value) (args : Dict Value)
      (principal_id workspace_name : Value)
    → (is_ok : Bool) (result error : Value) → (actions : List (Dict Value)) (permissions : List Str)
    → (make_event new_id now source event_type args principal_id workspace_name ≡ err value_error)
      × (make_directive_ack now directive_id source is_ok result error ≡ err value_error)
      × (make_handler_reply now source id args actions ≡ err value_error)
      × (make_handler_hello new_id now source permissions ≡ err value_error)
unfolding make_event make_directive_ack make_handler_reply make_handler_hello
builders_refuse source foreign new_id now id event_type directive_id args principal_id
      workspace_name is_ok result error actions permissions =
    (rw foreign refl, rw foreign refl, rw foreign refl, rw foreign refl)
