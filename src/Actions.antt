-- ===== src/Actions.antt =====
-- py/src/esr/actions.py and py/src/esr/events.py: what a handler returns and what it receives. The
-- dataclasses check no field, so a field keeps its dynamic type; `None` is `null`.
pub mod Wire
use esr.Base.{[], none, some, Bool, true, false, Str, lit, Dict, get, has, if◌then◌else◌}
use esr.Base.Result.{Result, ok, err, Exc, ◌>>=◌}
use esr.Value.{Value, str, obj, fields, dict, value_get, get_or}
use esr.Value.Access.{index, index_dict, dict_of, in_value}

pub data Action : Type 0 where
  emit : (adapter action : Value) → (args : Dict Value) → Action
  route : (target msg : Value) → Action
  invoke_command : (name : Value) → (params : Dict Value) → Action
  reply : (text reply_to_message_id : Value) → Action
  send_input : (text : Value) → Action

pub record Event : Type 0 where
  pub source : Value
  pub event_type : Value
  pub args : Dict Value

pub record Directive : Type 0 where
  pub adapter : Value
  pub action : Value
  pub args : Dict Value

-- `envelope.get("payload", {})`, and the dict that holds the fields of the event
inner_of : Dict Value → Result Exc Value
inner_of envelope = elim (get envelope (lit "payload")) [
  | none ↦ ok (dict envelope)
  | some payload ↦ do
    full ← in_value (lit "event_type") payload
    ok (if full then payload else dict envelope)
]

unfoldable pub from_envelope : Dict Value → Result Exc Event
unfolding inner_of
from_envelope envelope = do
  inner ← inner_of envelope
  event_type ← index inner (lit "event_type")
  given ← value_get inner (lit "args") (dict [])
  args ← dict_of given
  ok (record {
    source = get_or envelope (lit "source") (str []);
    event_type = event_type;
    args = args;
  })
