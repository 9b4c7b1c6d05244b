-- ===== src/Ipc/Frame.antt =====
-- Frames of the Phoenix channel protocol, and py/src/_ipc_common/frame.py.
use esr.Base.{Bool, false, not, Option, List, [], ◌∷◌, ◌++◌, Str, ◌==◌, lit, Dict, if◌then◌else◌}
use esr.Value.{Value, null, str, obj, fields, get_or}

-- `[join_ref, ref, topic, event, payload]`
pub record Frame : Type 0 where
  pub join_ref : Option Str
  pub ref : Str
  pub topic : Str
  pub event : Str
  pub payload : Value

abbrev has_kind : Value → Str → Bool
has_kind (str k) kind = k == kind
has_kind _ kind = false

-- The callback of `make_envelope_filter`, on the queue that it fills. A frame of fewer than five
-- items, which it ignores, is no `Frame`.
unfoldable pub on_frame : Str → Frame → List (Dict Value) → List (Dict Value)
on_frame kind frame queue =
    if not (frame.event == lit "envelope") then queue else elim frame.payload [
      | obj fs ↦
          if has_kind (get_or (fields fs) (lit "kind") null) kind
          then queue ++ fields fs ∷ []
          else queue
      | _ ↦ queue
    ]
