-- ===== src/Bridge/Phoenix/Replies/First.antt =====
-- The first reply to a push is what the push returns.
use esr.Base.{
  ℕ, ◌+◌, ◌≤◌, ◌≡◌, refl, ap, inl, inr, true, false, Bool-cases, Option, none, some, Option-cases,
  List, [], ◌∷◌, Str, ◌==◌, eq_iff, eq_refl, contains, Dict, get, get-put, All, if_both, arith,
}
use mathlib.Core.Option
use esr.Base.Result.{ok, Failure}
use esr.Decimal.{show_nat}
use esr.Value.{Value, str, arr}
use esr.Ipc.Client.{opened}
use esr.Bridge.Phoenix.{
  PhoenixChannelClient, Inbound, Reply, waiting, failed, replied, is_reply, read_raw, next_ref,
  connect, connect_rounds, reconnect_backoff_secs, settle_with, set_result, cancelled, join, push,
  wait_ended, awaited, push_result, recv, route_read, route_reply, heartbeat, fail_one, fail_all,
  close, receive,
}
use esr.Bridge.Phoenix.History.{
  Op, connecting, joining, pushing, waking, received, beat, taking, losing, closing, step, run,
}
use esr.Bridge.Phoenix.Replies.{IsAwaited, Leaves, other_ref, recv-receiving, step-IsAwaited}

-- The `k`th frame was answered by `reply`.
record IsAnswered (k : ℕ) (reply : Inbound) (c : PhoenixChannelClient) : Type 0 where
  holds : get c.futures (show_nat k) ≡ some (replied reply)
  numbered : k ≤ c.ref_counter

awaited-IsAnswered :
    (k : ℕ) (reply : Inbound) (c : PhoenixChannelClient)
    → IsAnswered k reply c
    → awaited c (show_nat k) ≡ some (ok reply)
unfolding awaited
awaited-IsAnswered k reply c h = rw (awaited, h.holds) refl

get-fail_one :
    (futures : Dict Reply) (ref r : Str) (reply : Inbound)
    → get futures r ≡ some (replied reply)
    → get (fail_one futures ref (get futures ref)) r ≡ some (replied reply)
get-fail_one futures ref r reply h = elim (Bool-cases (ref == r)) [
  | inl same ↦ rw ((eq_iff ref r).0 same, h, fail_one) h
  | inr other ↦ other_kept (get futures ref) other
]
  where
    other_kept :
        (o : Option Reply)
        → (ref == r) ≡ false
        → get (fail_one futures ref o) r ≡ some (replied reply)
    other_kept none e = h
    other_kept (some waiting) e = rw (get-put, e) h
    other_kept (some failed) e = h
    other_kept (some (replied f)) e = h

get-fail_all :
    (futures : Dict Reply) (refs : List Str) (r : Str) (reply : Inbound)
    → get futures r ≡ some (replied reply)
    → get (fail_all futures refs) r ≡ some (replied reply)
unfolding fail_all
get-fail_all futures [] r reply h = h
get-fail_all futures (ref ∷ refs) r reply h =
    get-fail_all (fail_one futures ref (get futures ref)) refs r reply
      (get-fail_one futures ref r reply h)

connect_rounds-IsAnswered :
    (k : ℕ) (reply : Inbound) (c : PhoenixChannelClient) (attempt : ℕ → Option Failure) (round : ℕ)
    (backoffs : List ℕ) (last_exc : Option Failure)
    → IsAnswered k reply c
    → IsAnswered k reply (connect_rounds c attempt round backoffs last_exc).2
unfolding connect_rounds
connect_rounds-IsAnswered k reply c attempt round [] last_exc h = h
connect_rounds-IsAnswered k reply c attempt round (backoff ∷ backoffs) last_exc h =
    elim (Option-cases (attempt round)) [
      | inl up ↦ rw (up, connect_rounds) (record { holds = h.holds; numbered = h.numbered })
      | inr (e, down) ↦
          rw (down, connect_rounds)
            (connect_rounds-IsAnswered k reply c attempt (round + 1) backoffs (some e) h)
    ]

set_result-IsAnswered :
    (k : ℕ) (reply : Inbound) (c : PhoenixChannelClient) (ref : Str) (frame : Inbound)
    → IsAnswered k reply c
    → IsAnswered k reply (set_result c ref frame)
set_result-IsAnswered k reply c ref frame h = ground (
  arith,
  get-put c.futures ref (show_nat k) (settle_with frame (get c.futures ref)),
  eq_iff ref (show_nat k),
)

route_reply-IsAnswered :
    (k : ℕ) (reply : Inbound) (c : PhoenixChannelClient) (frame : Inbound) (ref : Value)
    → IsAnswered k reply c
    → IsAnswered k reply (route_reply c frame ref)
route_reply-IsAnswered k reply c frame (str ref) h = elim (Bool-cases (contains c.pending ref)) [
  | inl known ↦ rw known (set_result-IsAnswered k reply c ref frame h)
  | inr unknown ↦ rw unknown (ground arith)
]
route_reply-IsAnswered k reply c frame (arr vs) h = ground arith
route_reply-IsAnswered k reply c frame ref h = ground arith

route_read-IsAnswered :
    (k : ℕ) (reply : Inbound) (c : PhoenixChannelClient) (frame : Option Inbound)
    → IsAnswered k reply c
    → IsAnswered k reply (route_read c frame)
route_read-IsAnswered k reply c none h = h
route_read-IsAnswered k reply c (some frame) h =
    if_both (IsAnswered k reply) (is_reply frame.event)
      (route_reply-IsAnswered k reply c frame frame.ref h) (ground arith)

module _ (loads : Str → Option Value) where
  step-IsAnswered :
      (k : ℕ) (reply : Inbound) (c : PhoenixChannelClient) (op : Op)
      → IsAnswered k reply c
      → IsAnswered k reply (step loads c op)
  unfolding step
  step-IsAnswered k reply c (connecting attempt) h =
      unfold connect in connect_rounds-IsAnswered k reply c attempt 0 reconnect_backoff_secs none h
  step-IsAnswered k reply c (joining topic payload) h =
      unfold join in
      ground (
        arith,
        other_ref (c.ref_counter + 1) k,
        get-put c.futures (next_ref c) (show_nat k) waiting,
      )
  step-IsAnswered k reply c (pushing topic event payload) h =
      unfold push in
      ground (
        arith,
        other_ref (c.ref_counter + 1) k,
        get-put c.futures (next_ref c) (show_nat k) waiting,
      )
  step-IsAnswered k reply c (waking ref) h =
      unfold wait_ended in
      ground (
        arith,
        get-put c.futures ref (show_nat k) (cancelled (get c.futures ref)),
        eq_iff ref (show_nat k),
      )
  step-IsAnswered k reply c (received raw) h =
      unfold recv in
      if_both (IsAnswered k reply) c.receiving
        (route_read-IsAnswered k reply c (read_raw (loads raw)) h) h
  step-IsAnswered k reply c beat h = unfold heartbeat in ground arith
  step-IsAnswered k reply c taking h = unfold receive in ground arith
  step-IsAnswered k reply c losing h = record { holds = h.holds; numbered = h.numbered }
  step-IsAnswered k reply c closing h =
      unfold close in
      record {
        holds = get-fail_all c.futures c.pending (show_nat k) reply h.holds;
        numbered = h.numbered;
      }

  run-IsAnswered :
      (k : ℕ) (reply : Inbound) (c : PhoenixChannelClient) (ops : List Op)
      → IsAnswered k reply c
      → IsAnswered k reply (run loads c ops)
  run-IsAnswered k reply c [] h = h
  run-IsAnswered k reply c (op ∷ ops) h =
      run-IsAnswered k reply (step loads c op) ops (step-IsAnswered k reply c op h)

  run-IsAwaited :
      (k : ℕ) (c : PhoenixChannelClient) (ops : List Op)
      → All (Leaves loads (show_nat k)) ops
      → IsAwaited k c
      → IsAwaited k (run loads c ops)
  run-IsAwaited k c [] l h = h
  run-IsAwaited k c (op ∷ ops) l h =
      run-IsAwaited k (step loads c op) ops l.1 (step-IsAwaited loads k c op l.0 h)

  received-IsAnswered :
      (k : ℕ) (c : PhoenixChannelClient) (raw : Str) (reply : Inbound)
      → read_raw (loads raw) ≡ some reply
      → is_reply reply.event ≡ true
      → reply.ref ≡ str (show_nat k)
      → IsAwaited k c
      → IsAnswered k reply (step loads c (received raw))
  unfolding step
  received-IsAnswered k c raw reply read event ref h =
      rw (recv-receiving loads c raw h.reads, read, event, ref, h.registered)
        (record { holds = rw (get-put, eq_refl, h.waits) refl; numbered = h.numbered })

  push-IsAwaited_new :
      (c : PhoenixChannelClient) (topic event join_ref : Str) (payload : Dict Value)
      → c.ws ≡ opened
      → c.receiving ≡ true
      → get c.join_refs topic ≡ some join_ref
      → ((push c topic event payload).0 ≡ ok (next_ref c))
        × IsAwaited (c.ref_counter + 1) (push c topic event payload).1
  unfolding push contains
  push-IsAwaited_new c topic event join_ref payload up reads joined = (
    ground arith,
    ground (arith, eq_refl (next_ref c), get-put c.futures (next_ref c) (next_ref c) waiting),
  )

  -- A push to a topic that was joined, on an open socket whose messages are read, is sent, and
  -- whatever else happens until the first reply to it comes (other pushes and joins, their replies
  -- and the end of their waits, heartbeats, frames of any other kind), and whatever happens then
  -- (more replies to it, the loss of the connection or the end of the client), it returns the
  -- payload of that first reply. While it waits, the connection is not lost or closed, the wait is
  -- not cancelled, and no reply comes whose reference is a list or a dict.
  pub push_answered :
      (c : PhoenixChannelClient) (topic event join_ref : Str) (payload : Dict Value)
      (before after : List Op) (raw : Str) (reply : Inbound)
      → c.ws ≡ opened
      → c.receiving ≡ true
      → get c.join_refs topic ≡ some join_ref
      → All (Leaves loads (next_ref c)) before
      → read_raw (loads raw) ≡ some reply
      → is_reply reply.event ≡ true
      → reply.ref ≡ str (next_ref c)
      → ((push c topic event payload).0 ≡ ok (next_ref c))
        × (Option.map push_result (
              awaited
                (run loads
                  (step loads (run loads (push c topic event payload).1 before) (received raw))
                  after)
                (next_ref c))
            ≡ some (ok reply.payload))
  unfolding push_result
  push_answered c topic event join_ref payload before after raw reply up reads joined quiet read
        is_one to_it =
      let k = c.ref_counter + 1 in
      let (sent, waits) = push-IsAwaited_new c topic event join_ref payload up reads joined in
      let waiting_still = run-IsAwaited k (push c topic event payload).1 before quiet waits in
      let answered =
        received-IsAnswered k (run loads (push c topic event payload).1 before) raw reply read
          is_one to_it waiting_still in
      let kept =
        run-IsAnswered k reply
          (step loads (run loads (push c topic event payload).1 before) (received raw)) after
          answered in
      (sent, ap (Option.map push_result) (awaited-IsAnswered k reply _ kept))
