-- ===== src/Ipc/Client.antt =====
-- py/src/esr/ipc/channel_client.py: the `ChannelClient`, as a state with a step for each thing that
-- happens to it. A method that waits for the server is cut at the wait: the step that sends, and
-- the
-- step that takes the reply. `sent` is what was written to the socket.
-- A write to an open socket succeeds; one to a closed socket raises. During a reconnect the read
-- loop gets the replies to the joins, and nothing else.
pub mod Queue
pub mod Refs
pub mod Rejoin
pub mod Served
pub mod Heart
use esr.Base.{
  ℕ, ◌+◌, Bool, true, false, not, ◌&&◌, Option, none, some, List, [], ◌∷◌, ◌++◌, Str, ◌==◌, lit,
  Dict, get, put, remove, length, eqb, if◌then◌else◌,
}
use esr.Base.Result.{Result, ok, err, Exc, value_error, runtime_error, connection_error}
use esr.Decimal.{show_nat}
use esr.Value.{Value, str, arr, obj, dict}
use esr.Ipc.Frame.{Frame}

-- `self._ws`: none, open, or closed by the other side.
pub data Socket : Type 0 where
  absent opened closed : Socket

pub record Pushed : Type 0 where
  pub topic : Str
  pub event : Str
  pub payload : Value

-- What `_read_loop` reads of a frame of five items, which may be any values.
pub record Received : Type 0 where
  pub ref : Value
  pub topic : Value
  pub event : Value

abbrev pub event_is : Value → Str → Bool
event_is (str s) t = s == t
event_is _ t = false

-- `PENDING_PUSH_CAP`
abbrev pub pending_push_cap : ℕ
pending_push_cap = 1000

-- `H` is the type of the callbacks.
pub record Client (H : Type 0) : Type 0 where
  pub auto_reconnect : Bool
  pub ws : Socket
  pub reconnecting : Bool
  pub shutdown : Bool
  pub heart : Bool
  pub next_ref : ℕ
  pub join_refs : Dict Str
  pub handlers : Dict H
  pub pending_replies : List Str
  pub is_disconnected : Bool
  pub pending_pushes : List Pushed
  pub sent : List Frame

-- `self._pending_replies.pop(ref, None)`
unfoldable pub drop_ref : List Str → Str → List Str
drop_ref [] ref = []
drop_ref (r ∷ rs) ref = let rest = drop_ref rs ref in if r == ref then rest else r ∷ rest

-- The queue of a disconnected client: the oldest goes when it is full.
unfoldable pub enqueue : List Pushed → Pushed → List Pushed
enqueue [] p = p ∷ []
enqueue (oldest ∷ rest) p =
    if eqb (length (oldest ∷ rest)) pending_push_cap
    then rest ++ p ∷ []
    else (oldest ∷ rest) ++ p ∷ []

abbrev pub join_frame : Str → Pushed
join_frame topic = record { topic = topic; event = lit "phx_join"; payload = dict [] }

abbrev pub beat : Pushed
beat = record { topic = lit "phoenix"; event = lit "heartbeat"; payload = dict [] }

module _ {H : Type 0} where
  -- `__init__`
  abbrev pub new_client : Bool → Client H
  new_client auto_reconnect = record {
    auto_reconnect = auto_reconnect;
    ws = absent;
    reconnecting = false;
    shutdown = false;
    heart = false;
    next_ref = 1;
    join_refs = [];
    handlers = [];
    pending_replies = [];
    is_disconnected = false;
    pending_pushes = [];
    sent = [];
  }

  -- The property `connected`.
  abbrev pub connected : Client H → Bool
  connected c = elim c.ws [ opened ↦ true | _ ↦ false ]

  unfoldable pub connect : Client H → Client H
  connect c = record c { ws = opened; is_disconnected = false; heart = true }

  unfoldable pub close : Client H → Client H
  close c = record c { shutdown = true; reconnecting = false; heart = false; ws = absent }

  unfoldable pub send_frame : Client H → Frame → Result Exc (Unit {0}) × Client H
  send_frame c frame = elim c.ws [
    | opened ↦ (ok tt, record c { sent = c.sent ++ frame ∷ [] })
    | absent ↦ (err runtime_error, c)
    | closed ↦ (err connection_error, c)
  ]

  -- `str(next(self._ref_counter))` and the frame that bears it.
  unfoldable pub send_numbered :
      Client H → (join_ref : Str → Option Str) → Pushed → Result Exc (Unit {0}) × Client H
  unfolding send_frame
  send_numbered c join_ref p =
      let ref = show_nat c.next_ref in
      send_frame (record c { next_ref = c.next_ref + 1 })
        (record {
          join_ref = join_ref ref;
          ref = ref;
          topic = p.topic;
          event = p.event;
          payload = p.payload;
        })

  -- `_join_internal` as far as its wait.
  unfoldable pub join_send : Client H → Str → H → Result Exc (Unit {0}) × Client H
  unfolding send_numbered
  join_send c topic on_msg =
      let ref = show_nat c.next_ref in
      send_numbered
        (record c {
          join_refs = put c.join_refs topic ref;
          handlers = put c.handlers topic on_msg;
          pending_replies = ref ∷ c.pending_replies;
        })
        (λ r. some r) (join_frame topic)

  -- `join` as far as its wait.
  unfoldable pub join : Client H → Str → H → Result Exc (Unit {0}) × Client H
  unfolding join_send
  join c topic on_msg = elim c.ws [ absent ↦ (err runtime_error, c) | _ ↦ join_send c topic on_msg ]

  -- `_join_internal` from its wait on: the status of the reply is `ok`, or the topic is given up.
  unfoldable pub join_reply : Client H → Str → Bool → Result Exc (Unit {0}) × Client H
  join_reply c topic accepted = if accepted then (ok tt, c) else (
    err runtime_error,
    record c { join_refs = remove c.join_refs topic; handlers = remove c.handlers topic },
  )

  unfoldable pub push : Client H → Pushed → Result Exc (Unit {0}) × Client H
  unfolding send_numbered
  push c p = elim (get c.join_refs p.topic) [
    | none ↦ (err value_error, c)
    | some join_ref ↦
        if c.is_disconnected
        then (ok tt, record c { pending_pushes = enqueue c.pending_pushes p })
        else send_numbered c (λ r. some join_ref) p
  ]

  -- The `finally` of a call whose frame could not be sent.
  abbrev unless_sent : Str → Result Exc (Unit {0}) × Client H → Result Exc (Unit {0}) × Client H
  unless_sent ref (ok x, c) = (ok x, c)
  unless_sent ref (err e, c) =
      (err e, record c { pending_replies = drop_ref c.pending_replies ref })

  -- `call` as far as its wait.
  unfoldable pub call_send : Client H → Pushed → Result Exc (Unit {0}) × Client H
  unfolding send_numbered
  call_send c p = elim (get c.join_refs p.topic) [
    | none ↦ (err value_error, c)
    | some join_ref ↦
        let ref = show_nat c.next_ref in
        unless_sent ref (
          send_numbered (record c { pending_replies = ref ∷ c.pending_replies })
            (λ r. some join_ref) p)
  ]

  -- The `finally` of a call that was answered or timed out.
  unfoldable pub call_end : Client H → Str → Client H
  call_end c ref = record c { pending_replies = drop_ref c.pending_replies ref }

  -- One round of `_heartbeat_loop`, if its task runs, as `heart` says. It returns when it finds no
  -- open socket.
  unfoldable pub heartbeat : Client H → Client H
  unfolding send_numbered
  heartbeat c =
      if not c.heart
      then c
      else if connected c
      then (send_numbered c (λ r. none) beat).1
      else record c { heart = false }

  -- What follows the loop in `_read_loop`, however the loop ends.
  unfoldable pub stop_reading : Client H → Client H
  stop_reading c = record c {
    is_disconnected = true;
    reconnecting = if c.auto_reconnect && not c.shutdown then true else c.reconnecting;
  }

  -- One frame in `_read_loop`: the client, and the callback that is called, if one is. A reference or
  -- a topic that cannot be hashed raises, which ends the loop, with the socket as it is.
  unfoldable pub read_frame : Client H → Received → Client H × Option H
  unfolding stop_reading
  read_frame c frame =
      if event_is frame.event (lit "phx_reply")
      then elim frame.ref [
        | str ref ↦ (record c { pending_replies = drop_ref c.pending_replies ref }, none)
        | arr vs ↦ (stop_reading c, none)
        | obj fs ↦ (stop_reading c, none)
        | _ ↦ (c, none)
      ]
      else elim frame.topic [
        | str topic ↦ (c, get c.handlers topic)
        | arr vs ↦ (stop_reading c, none)
        | obj fs ↦ (stop_reading c, none)
        | _ ↦ (c, none)
      ]

  -- The end of `_read_loop` when the socket is closed.
  unfoldable pub read_end : Client H → Client H
  unfolding stop_reading
  read_end c = record (stop_reading c) { ws = elim c.ws [ opened ↦ closed | w ↦ w ] }

  -- The server's answer to the join of one topic, and what `_reconnect_loop` makes of it.
  unfoldable pub rejoin_one : (Str → Bool) → Client H → Str → H → Client H
  unfolding join_send join_reply
  rejoin_one accepts c topic on_msg =
      let joined = (join_send c topic on_msg).1 in
      let answered = record joined {
        pending_replies = drop_ref joined.pending_replies (show_nat c.next_ref);
      } in
      (join_reply answered topic (accepts topic)).1

  unfoldable pub rejoin_all : (Str → Bool) → Client H → Dict H → Client H
  rejoin_all accepts c [] = c
  rejoin_all accepts c ((topic, on_msg) ∷ rest) =
      rejoin_all accepts (rejoin_one accepts c topic on_msg) rest

  unfoldable pub flush_all : Client H → List Pushed → Client H
  flush_all c [] = c
  flush_all c (p ∷ rest) = flush_all (push (record c { pending_pushes = rest }) p).1 rest

  -- A successful round of `_reconnect_loop`.
  unfoldable pub reconnect : (Str → Bool) → Client H → Client H
  reconnect accepts c =
      let fresh = record c {
        ws = opened;
        is_disconnected = false;
        join_refs = [];
        handlers = [];
        reconnecting = false;
      } in
      let rejoined = rejoin_all accepts fresh c.handlers in
      flush_all rejoined rejoined.pending_pushes

  -- A round of `_reconnect_loop` in which no connection comes about: the old socket is closed.
  unfoldable pub fail_attempt : Client H → Client H
  fail_attempt c = record c { ws = elim c.ws [ opened ↦ closed | w ↦ w ] }

-- What happens to a client.
pub data Op (H : Type 0) : Type 0 where
  connecting closing beating losing failing : Op H
  joining : Str → H → Op H
  join_replied : Str → Bool → Op H
  pushing calling : Pushed → Op H
  call_ended : Str → Op H
  reading : Received → Op H
  reconnected : (Str → Bool) → Op H

module _ {H : Type 0} where
  unfoldable pub step : Client H → Op H → Client H
  step c connecting = connect c
  step c closing = close c
  step c beating = heartbeat c
  step c losing = read_end c
  step c failing = if c.reconnecting && not c.shutdown then fail_attempt c else c
  step c (joining topic on_msg) = (join c topic on_msg).1
  step c (join_replied topic accepted) = (join_reply c topic accepted).1
  step c (pushing p) = (push c p).1
  step c (calling p) = (call_send c p).1
  step c (call_ended ref) = call_end c ref
  step c (reading frame) = (read_frame c frame).0
  step c (reconnected accepts) = if c.reconnecting && not c.shutdown then reconnect accepts c else c

  -- A history of a client.
  abbrev pub run : Client H → List (Op H) → Client H
  run c [] = c
  run c (op ∷ ops) = run (step c op) ops
