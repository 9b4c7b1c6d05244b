-- ===== src/Actions/Wire.antt =====
-- `serialise_action` and `deserialise_action` of py/src/esr/ipc/envelope.py.
use esr.Base.{
  Bool, false, ◌≡◌, refl, some, [], ◌∷◌, Str, lit, ◌==◌, Dict, get, if◌then◌else◌, arith, ◌≢◌,
  eq_iff,
}
use esr.Base.Result.{Result, ok, err, Exc, value_error, ◌>>=◌}
use esr.Value.{Value, null, str, dict, fields-to_fields, get_or}
use esr.Value.Access.{index_dict, dict_of}
use esr.Actions.{Action, emit, route, invoke_command, reply, send_input}

abbrev reply_to : Value → Dict Value
reply_to null = []
reply_to v = (lit "reply_to_message_id", v) ∷ []

unfoldable pub serialise_action : Action → Dict Value
serialise_action (emit adapter action args) =
    (lit "type", str (lit "emit"))
    ∷ (lit "adapter", adapter)
    ∷ (lit "action", action)
    ∷ (lit "args", dict args)
    ∷ []
serialise_action (route target msg) =
    (lit "type", str (lit "route")) ∷ (lit "target", target) ∷ (lit "msg", msg) ∷ []
serialise_action (invoke_command name params) =
    (lit "type", str (lit "invoke_command")) ∷ (lit "name", name) ∷ (lit "params", dict params) ∷ []
serialise_action (reply text id) =
    (lit "type", str (lit "reply")) ∷ (lit "text", text) ∷ reply_to id
serialise_action (send_input text) = (lit "type", str (lit "send_input")) ∷ (lit "text", text) ∷ []

-- `t == name` at a value that may be no text
abbrev is_text : Value → Str → Bool
is_text (str t) name = t == name
is_text _ name = false

unfoldable pub deserialise_action : Dict Value → Result Exc Action
unfolding index_dict
deserialise_action d =
    let t = get_or d (lit "type") null in
    if is_text t (lit "emit")
    then (do
      adapter ← index_dict d (lit "adapter")
      action ← index_dict d (lit "action")
      args ← dict_of (get_or d (lit "args") (dict []))
      ok (emit adapter action args))
    else if is_text t (lit "route")
    then (do
      target ← index_dict d (lit "target")
      msg ← index_dict d (lit "msg")
      ok (route target msg))
    else if is_text t (lit "invoke_command")
    then (do
      name ← index_dict d (lit "name")
      params ← dict_of (get_or d (lit "params") (dict []))
      ok (invoke_command name params))
    else if is_text t (lit "reply")
    then (do
      text ← index_dict d (lit "text")
      ok (reply text (get_or d (lit "reply_to_message_id") null)))
    else if is_text t (lit "send_input")
    then (do text ← index_dict d (lit "text"); ok (send_input text))
    else err value_error

-- Every action, serialised for the wire, is read back as it was.
pub deserialise-serialise : (a : Action) → deserialise_action (serialise_action a) ≡ ok a
unfolding deserialise_action serialise_action get ◌==◌ dict_of
deserialise-serialise (emit adapter action args) = rw fields-to_fields refl
deserialise-serialise (route target msg) = refl
deserialise-serialise (invoke_command name params) = rw fields-to_fields refl
deserialise-serialise (reply text null) = refl
deserialise-serialise (reply text id) = refl
deserialise-serialise (send_input text) = refl

-- A dict whose discriminator is a text other than the five is refused with a `ValueError`.
pub deserialise_unknown :
    (d : Dict Value) (t : Str)
    → get d (lit "type") ≡ some (str t)
    → t ≢ lit "emit"
    → t ≢ lit "route"
    → t ≢ lit "invoke_command"
    → t ≢ lit "reply"
    → t ≢ lit "send_input"
    → deserialise_action d ≡ err value_error
unfolding deserialise_action
deserialise_unknown d t e a b c f g = ground (
  arith,
  eq_iff t (lit "emit"),
  eq_iff t (lit "route"),
  eq_iff t (lit "invoke_command"),
  eq_iff t (lit "reply"),
  eq_iff t (lit "send_input"),
)
