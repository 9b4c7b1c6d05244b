-- ===== src/Bridge/Receive.antt =====
-- py/src/cc_channel_runner/phx_receive.py: what the bridge does with the frames that it receives. A
-- pending tool call is a future, by its request id: without a result, or with one.
pub mod Calls
use esr.Base.{
  Bool, true, false, not, ◌&&◌, Option, none, some, List, [], ◌∷◌, ◌++◌, Str, ◌==◌, lit, Dict, get,
  put, remove, if◌then◌else◌,
}
use esr.Value.{Value, null, str, obj, fields, get_or}
use esr.Bridge.Notification.{Params, build_notification_params}

-- A future: `done` holds its result.
pub data Future : Type 0 where
  waiting : Future
  done : Dict Value → Future

-- The calls that wait, the results that were given, and the notifications sent to the session.
pub record Bridge : Type 0 where
  pub pending : Dict Future
  pub resolved : List (Str × Dict Value)
  pub notified : List Params
  pub running : Bool

abbrev pub settle : Bridge → Str → Dict Value → Option Future → Bridge
settle b req_id payload none = b
settle b req_id payload (some (done r)) = record b { pending = remove b.pending req_id }
settle b req_id payload (some waiting) = record b {
  pending = remove b.pending req_id;
  resolved = b.resolved ++ (req_id, payload) ∷ [];
}

-- `_resolve_pending_tool_call`
unfoldable pub resolve_call : Bridge → Dict Value → Bridge
resolve_call b payload = elim (get_or payload (lit "req_id") null) [
  | str req_id ↦ settle b req_id payload (get b.pending req_id)
  | _ ↦ b
]

-- A call of a tool waits for its result.
unfoldable pub start_call : Bridge → Str → Bridge
start_call b req_id = record b { pending = put b.pending req_id waiting }

module _ (repr : Value → Str) where
  unfoldable pub notify_session : Bridge → Dict Value → Bridge
  notify_session b payload = record b {
    notified = b.notified ++ build_notification_params repr payload ∷ [];
  }

  -- The choice of `_dispatch_envelope`, on the kind.
  unfoldable pub on_kind : Bridge → Dict Value → Value → Bridge
  unfolding resolve_call notify_session
  on_kind b payload null = notify_session b payload
  on_kind b payload (str kind) =
      if kind == lit "tool_result"
      then resolve_call b payload
      else if kind == lit "session_killed"
      then record b { running = false }
      else if kind == lit "cleanup_check_requested"
      then notify_session b payload
      else if kind == lit "notification"
      then notify_session b payload
      else b
  on_kind b payload kind = b

  unfoldable pub dispatch_envelope : Bridge → Dict Value → Bridge
  unfolding on_kind
  dispatch_envelope b payload = on_kind b payload (get_or payload (lit "kind") null)

  -- One frame in `phx_receive_loop`: its event and its payload.
  unfoldable pub receive : Bridge → Str × Dict Value → Bridge
  unfolding dispatch_envelope
  receive b (event, payload) =
      if event == lit "envelope"
      then dispatch_envelope b payload
      else if event == lit "phx_close"
      then record b { running = false }
      else if event == lit "phx_error"
      then record b { running = false }
      else b

  -- `phx_receive_loop`: the exception that ends the bridge ends the loop.
  unfoldable pub receive_all : Bridge → List (Str × Dict Value) → Bridge
  unfolding receive
  receive_all b [] = b
  receive_all b (frame ∷ frames) =
      let rest = receive_all (receive b frame) frames in if b.running then rest else b
