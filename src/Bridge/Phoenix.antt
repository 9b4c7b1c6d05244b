-- ===== src/Bridge/Phoenix.antt =====
-- py/src/cc_channel_runner/phx_client.py: the bridge's client of the channel, as a state with a step
-- for each thing that happens to it. A method that waits for a reply is cut at the wait, and goes on
-- when its future is settled. `futures` is every future that was made, by the number of its frame;
-- `pending` is the numbers under which `_pending` has one. `loads` is `json.loads`, without a result
-- where it raises. `sent` is what was written to the socket.
pub mod History
pub mod Connect
pub mod Replies
pub mod Inbox
pub mod Shutdown
use esr.Base.{
  ℕ, ◌+◌, Bool, true, false, not, ◌&&◌, ◌||◌, Option, none, some, List, [], ◌∷◌, ◌++◌, Str, ◌==◌,
  lit, contains, Dict, get, put, if◌then◌else◌,
}
use esr.Base.Result.{
  Result, ok, err, ◌>>=◌, Exc, attribute_error, runtime_error, connection_error, Failure,
}
use esr.Decimal.{show_nat}
use esr.Value.{Value, null, str, arr, obj, dict, items, get_or, value_get}
use esr.Ipc.Client.{Socket, absent, opened, closed, drop_ref}
use esr.Ipc.Frame.{Frame}

-- A frame of the server: its parts are what the JSON holds.
pub record Inbound : Type 0 where
  pub join_ref : Value
  pub ref : Value
  pub topic : Value
  pub event : Value
  pub payload : Value

-- A future: `failed` has the exception of the shutdown, or was cancelled.
pub data Reply : Type 0 where
  waiting failed : Reply
  replied : Inbound → Reply

-- `receiving` and `beating` say whether the two tasks run.
pub record PhoenixChannelClient : Type 0 where
  pub ws : Socket
  pub ref_counter : ℕ
  pub join_refs : Dict Str
  pub pending : List Str
  pub futures : Dict Reply
  pub inbox : List Inbound
  pub is_closed : Bool
  pub receiving : Bool
  pub beating : Bool
  pub sent : List Frame

-- `__init__`
abbrev pub new_phx_client : PhoenixChannelClient
new_phx_client = record {
  ws = absent;
  ref_counter = 0;
  join_refs = [];
  pending = [];
  futures = [];
  inbox = [];
  is_closed = false;
  receiving = false;
  beating = false;
  sent = [];
}

-- `_RECONNECT_BACKOFF_SECS`
abbrev pub reconnect_backoff_secs : List ℕ
reconnect_backoff_secs = 1 ∷ 2 ∷ 4 ∷ []

abbrev pub online : PhoenixChannelClient → PhoenixChannelClient
online c = record c { ws = opened; receiving = true; beating = true }

-- What `connect` ends with, the pauses that it made, and the client; `last_exc` is none at first.
abbrev pub Connected : Type 0
Connected = Result (Option Failure) (Unit {0}) × List ℕ × PhoenixChannelClient

abbrev slept : ℕ → Connected → Connected
slept secs (outcome, pauses, c) = (outcome, secs ∷ pauses, c)

-- The loop of `connect`: `attempt` says how each attempt fails, if it does.
unfoldable pub connect_rounds :
    PhoenixChannelClient
    → (attempt : ℕ → Option Failure) → (round : ℕ) → (backoffs : List ℕ)
    → (last_exc : Option Failure) → Connected
connect_rounds c attempt round [] last_exc = (err last_exc, [], c)
connect_rounds c attempt round (backoff ∷ backoffs) last_exc = elim (attempt round) [
  | none ↦ (ok tt, [], online c)
  | some e ↦ slept backoff (connect_rounds c attempt (round + 1) backoffs (some e))
]

unfoldable pub connect : PhoenixChannelClient → (attempt : ℕ → Option Failure) → Connected
unfolding connect_rounds
connect c attempt = connect_rounds c attempt 0 reconnect_backoff_secs none

-- `_next_ref`
abbrev pub next_ref : PhoenixChannelClient → Str
next_ref c = show_nat (c.ref_counter + 1)

-- `_push_and_await` as far as its wait: a write to a socket that the other side closed raises.
unfoldable pub push_and_await : PhoenixChannelClient → Frame → Result Exc Str × PhoenixChannelClient
push_and_await c frame = elim c.ws [
  | opened ↦ (
    ok frame.ref,
    record c {
      pending = frame.ref ∷ c.pending;
      futures = put c.futures frame.ref waiting;
      sent = c.sent ++ frame ∷ [];
    },
  )
  | _ ↦ (err connection_error, c)
]

abbrev numbered : PhoenixChannelClient → PhoenixChannelClient
numbered c = record c { ref_counter = c.ref_counter + 1 }

-- `join` as far as its wait; the result is the number of its frame. No payload is an empty one.
unfoldable pub join :
    PhoenixChannelClient
    → (topic : Str) → (payload : Dict Value) → Result Exc Str × PhoenixChannelClient
unfolding push_and_await
join c topic payload =
    let ref = next_ref c in
    let joining : PhoenixChannelClient = record (numbered c) {
      join_refs = put c.join_refs topic ref;
    } in
    let frame : Frame = record {
      join_ref = some ref;
      ref = ref;
      topic = topic;
      event = lit "phx_join";
      payload = dict payload;
    } in
    elim c.ws [ absent ↦ (err runtime_error, c) | _ ↦ push_and_await joining frame ]

abbrev push_joined :
    PhoenixChannelClient
    → (topic event : Str) → (payload : Dict Value) → Option Str
    → Result Exc Str × PhoenixChannelClient
push_joined c topic event payload none = (err runtime_error, c)
push_joined c topic event payload (some join_ref) = push_and_await (numbered c) (record {
  join_ref = some join_ref;
  ref = next_ref c;
  topic = topic;
  event = event;
  payload = dict payload;
})

-- `push` as far as its wait.
unfoldable pub push :
    PhoenixChannelClient
    → (topic event : Str) → (payload : Dict Value) → Result Exc Str × PhoenixChannelClient
unfolding push_and_await
push c topic event payload = elim c.ws [
  | absent ↦ (err runtime_error, c)
  | _ ↦ push_joined c topic event payload (get c.join_refs topic)
]

abbrev settled : Option Reply → Option (Result Exc Inbound)
settled none = none
settled (some waiting) = none
settled (some failed) = some (err runtime_error)
settled (some (replied frame)) = some (ok frame)

-- What the wait for a frame's reply ends with, once it does.
unfoldable pub awaited : PhoenixChannelClient → (ref : Str) → Option (Result Exc Inbound)
awaited c ref = settled (get c.futures ref)

-- The `finally` of a wait that ended, or was cancelled.
abbrev cancelled : Option Reply → Reply
cancelled (some (replied frame)) = replied frame
cancelled _ = failed

unfoldable pub wait_ended : PhoenixChannelClient → (ref : Str) → PhoenixChannelClient
wait_ended c ref = record c {
  pending = drop_ref c.pending ref;
  futures = put c.futures ref (cancelled (get c.futures ref));
}

abbrev is_ok : Value → Bool
is_ok (str status) = status == lit "ok"
is_ok _ = false

-- The rest of `join`.
unfoldable pub join_result : Result Exc Inbound → Result Exc Value
unfolding value_get
join_result reply = do
  frame ← reply
  status ← value_get frame.payload (lit "status") null
  if is_ok status then value_get frame.payload (lit "response") (dict []) else err runtime_error

-- The rest of `push`.
unfoldable pub push_result : Result Exc Inbound → Result Exc Value
push_result reply = do frame ← reply; ok frame.payload

abbrev pub five : List Value → Option Inbound
five (join_ref ∷ ref ∷ topic ∷ event ∷ payload ∷ []) =
    some
      (record { join_ref = join_ref; ref = ref; topic = topic; event = event; payload = payload })
five _ = none

abbrev pub read_array : Value → Option Inbound
read_array (arr vs) = five (items vs)
read_array _ = none

abbrev pub is_reply : Value → Bool
is_reply (str event) = event == lit "phx_reply"
is_reply _ = false

abbrev pub to_inbox : PhoenixChannelClient → Inbound → PhoenixChannelClient
to_inbox c frame = record c { inbox = c.inbox ++ frame ∷ [] }

-- A future that is done is left alone.
abbrev settle_with : Inbound → Option Reply → Reply
settle_with frame (some (replied first)) = replied first
settle_with frame (some failed) = failed
settle_with frame _ = replied frame

abbrev pub set_result : PhoenixChannelClient → Str → Inbound → PhoenixChannelClient
set_result c ref frame = record c {
  futures = put c.futures ref (settle_with frame (get c.futures ref));
}

-- `ref in self._pending`: the test raises for a list and for a dict, and so the loop ends.
abbrev pub route_reply : PhoenixChannelClient → Inbound → Value → PhoenixChannelClient
route_reply c frame (str ref) =
    if contains c.pending ref then set_result c ref frame else to_inbox c frame
route_reply c frame (arr vs) = record c { receiving = false }
route_reply c frame (obj fs) = record c { receiving = false }
route_reply c frame _ = to_inbox c frame

abbrev pub route : PhoenixChannelClient → Inbound → PhoenixChannelClient
route c frame = if is_reply frame.event then route_reply c frame frame.ref else to_inbox c frame

abbrev route_read : PhoenixChannelClient → Option Inbound → PhoenixChannelClient
route_read c none = c
route_read c (some frame) = route c frame

abbrev pub read_raw : Option Value → Option Inbound
read_raw none = none
read_raw (some v) = read_array v

-- One message in `_recv_loop`.
unfoldable pub recv :
    (loads : Str → Option Value) → PhoenixChannelClient → (raw : Str) → PhoenixChannelClient
unfolding ◌==◌
recv loads c raw = if c.receiving then route_read c (read_raw (loads raw)) else c

-- One round of `_heartbeat_loop`, after its sleep.
unfoldable pub heartbeat : PhoenixChannelClient → PhoenixChannelClient
heartbeat c =
    let frame : Frame = record {
      join_ref = none;
      ref = next_ref c;
      topic = lit "phoenix";
      event = lit "heartbeat";
      payload = dict [];
    } in
    if not c.beating then c else if c.is_closed then record c { beating = false } else elim c.ws [
      | absent ↦ record c { beating = false }
      | opened ↦ record (numbered c) { sent = c.sent ++ frame ∷ [] }
      | closed ↦ record (numbered c) { beating = false }
    ]

abbrev fail_one : Dict Reply → Str → Option Reply → Dict Reply
fail_one futures ref (some waiting) = put futures ref failed
fail_one futures ref _ = futures

-- The loop at the end of `close`.
unfoldable pub fail_all : Dict Reply → List Str → Dict Reply
fail_all futures [] = futures
fail_all futures (ref ∷ refs) = fail_all (fail_one futures ref (get futures ref)) refs

unfoldable pub close : PhoenixChannelClient → PhoenixChannelClient
unfolding fail_all
close c = record c {
  is_closed = true;
  receiving = false;
  beating = false;
  ws = absent;
  futures = fail_all c.futures c.pending;
  pending = [];
}

abbrev lost : Socket → Socket
lost opened = closed
lost ws = ws

-- The other side closes the socket: `_recv_loop` returns.
abbrev pub ws_lost : PhoenixChannelClient → PhoenixChannelClient
ws_lost c = record c { ws = lost c.ws; receiving = false }

-- One round of `receive`: the frame that is yielded, if one is there.
abbrev pub take_frame : PhoenixChannelClient → List Inbound → Option Inbound × PhoenixChannelClient
take_frame c [] = (none, c)
take_frame c (frame ∷ frames) = (some frame, record c { inbox = frames })

unfoldable pub receive : PhoenixChannelClient → Option Inbound × PhoenixChannelClient
receive c = if c.is_closed then (none, c) else take_frame c c.inbox
