-- ===== src/Bridge/Phoenix/Replies.antt =====
-- The reply to a push finds it.
pub mod First
use esr.Base.{
  Dict, ℕ, ◌+◌, ◌<◌, ◌≤◌, ◌≡◌, refl, sym, ap, ◌∙◌, inl, inr, Bool, true, false, not, Bool-cases,
  Option, none, some, Option-cases, List, [], ◌∷◌, Str, ◌==◌, eq_iff, eq_refl, contains, get, put,
  get-put, All, if◌then◌else◌, arith,
}
use esr.Base.Result.{ok, err, Failure}
use esr.Ipc.Frame.{Frame}
use esr.Decimal.{show_nat, read_nat, read_nat-show_nat}
use esr.Value.{Value, null, bool, int, float, str, arr, obj}
use esr.Ipc.Client.{absent, opened, closed, drop_ref}
use esr.Bridge.Phoenix.{
  PhoenixChannelClient, Inbound, Reply, waiting, failed, replied, is_reply, read_raw, next_ref,
  connect, connect_rounds, numbered, settle_with, set_result, push_and_await, join, push,
  wait_ended, awaited, recv, route, route_read, route_reply, reconnect_backoff_secs, heartbeat,
  fail_all, close, receive,
}
use esr.Bridge.Phoenix.History.{
  Op, connecting, joining, pushing, waking, received, beat, taking, losing, closing, step, run,
}

pub other_ref : (n k : ℕ) → k < n → (show_nat n == show_nat k) ≡ false
other_ref n k l = elim (Bool-cases (show_nat n == show_nat k)) [
  | inr no_eq ↦ no_eq
  | inl same ↦
      let text : show_nat n ≡ show_nat k = (eq_iff (show_nat n) (show_nat k)).0 same in
      let e : some n ≡ some k =
        sym (read_nat-show_nat n) ∙ ap read_nat text ∙ read_nat-show_nat k in
      absurd (ground (arith, e))
]

-- Dropping another number leaves this one.
pub contains-drop_ref :
    (refs : List Str) (a b : Str)
    → (a == b) ≡ false
    → contains (drop_ref refs a) b ≡ contains refs b
unfolding contains drop_ref
contains-drop_ref [] a b h = refl
contains-drop_ref (r ∷ refs) a b h =
    ground (arith, eq_iff r a, eq_iff r b, eq_iff a b, contains-drop_ref refs a b h)

-- The wait for the `k`th frame goes on.
pub record IsAwaited (k : ℕ) (c : PhoenixChannelClient) : Type 0 where
  pub waits : get c.futures (show_nat k) ≡ some waiting
  pub registered : contains c.pending (show_nat k) ≡ true
  pub reads : c.receiving ≡ true
  pub numbered : k ≤ c.ref_counter

-- The frame of the server leaves the wait for `ref` alone, and the loop runs on.
abbrev pub leaves_ref : Str → Value → Bool
leaves_ref ref (str r) = not (r == ref)
leaves_ref ref (arr vs) = false
leaves_ref ref (obj fs) = false
leaves_ref ref _ = true

abbrev pub leaves : Str → Option Inbound → Bool
leaves ref none = true
leaves ref (some frame) = if is_reply frame.event then leaves_ref ref frame.ref else true

module _ (loads : Str → Option Value) where
  -- What may happen while the reply to `ref` has not come: all but the end of the connection, the
  -- end of the wait, and a frame that answers `ref` or ends the loop.
  abbrev pub Leaves : Str → Op → Type 0
  Leaves ref (waking r) = (r == ref) ≡ false
  Leaves ref (received raw) = leaves ref (read_raw (loads raw)) ≡ true
  Leaves ref losing = ⊥
  Leaves ref closing = ⊥
  Leaves ref _ = Unit

connect_rounds-IsAwaited :
    (k : ℕ) (c : PhoenixChannelClient) (attempt : ℕ → Option Failure) (round : ℕ)
    (backoffs : List ℕ) (last_exc : Option Failure)
    → IsAwaited k c
    → IsAwaited k (connect_rounds c attempt round backoffs last_exc).2
unfolding connect_rounds
connect_rounds-IsAwaited k c attempt round [] last_exc h = h
connect_rounds-IsAwaited k c attempt round (backoff ∷ backoffs) last_exc h =
    elim (Option-cases (attempt round)) [
      | inl up ↦
          rw (up, connect_rounds)
            (record {
              waits = h.waits;
              registered = h.registered;
              reads = refl;
              numbered = h.numbered;
            })
      | inr (e, down) ↦
          rw (down, connect_rounds)
            (connect_rounds-IsAwaited k c attempt (round + 1) backoffs (some e) h)
    ]

-- A frame with the next number is sent.
join-IsAwaited :
    (k : ℕ) (c : PhoenixChannelClient) (topic : Str) (payload : Dict Value)
    → IsAwaited k c
    → IsAwaited k (join c topic payload).1
unfolding join contains
join-IsAwaited k c topic payload h =
    ground
      (arith, other_ref (c.ref_counter + 1) k, get-put c.futures (next_ref c) (show_nat k) waiting)

push-IsAwaited :
    (k : ℕ) (c : PhoenixChannelClient) (topic event : Str) (payload : Dict Value)
    → IsAwaited k c
    → IsAwaited k (push c topic event payload).1
unfolding push contains
push-IsAwaited k c topic event payload h =
    ground
      (arith, other_ref (c.ref_counter + 1) k, get-put c.futures (next_ref c) (show_nat k) waiting)

wait_ended-IsAwaited :
    (k : ℕ) (c : PhoenixChannelClient) (ref : Str)
    → (ref == show_nat k) ≡ false
    → IsAwaited k c
    → IsAwaited k (wait_ended c ref)
unfolding wait_ended
wait_ended-IsAwaited k c ref e h = record {
  waits = rw (get-put, e) h.waits;
  registered = contains-drop_ref c.pending ref (show_nat k) e ∙ h.registered;
  reads = h.reads;
  numbered = h.numbered;
}

set_result-IsAwaited :
    (k : ℕ) (c : PhoenixChannelClient) (ref : Str) (frame : Inbound)
    → (ref == show_nat k) ≡ false
    → IsAwaited k c
    → IsAwaited k (set_result c ref frame)
set_result-IsAwaited k c ref frame e h = record {
  waits = rw (get-put, e) h.waits;
  registered = h.registered;
  reads = h.reads;
  numbered = h.numbered;
}

route_reply-IsAwaited :
    (k : ℕ) (c : PhoenixChannelClient) (frame : Inbound) (ref : Value)
    → leaves_ref (show_nat k) ref ≡ true
    → IsAwaited k c
    → IsAwaited k (route_reply c frame ref)
route_reply-IsAwaited k c frame (str ref) l h = elim (Bool-cases (contains c.pending ref)) [
  | inl known ↦ rw known (set_result-IsAwaited k c ref frame (ground arith) h)
  | inr unknown ↦ rw unknown (ground arith)
]
route_reply-IsAwaited k c frame (arr vs) l h = cc
route_reply-IsAwaited k c frame (obj fs) l h = cc
route_reply-IsAwaited k c frame null l h = ground arith
route_reply-IsAwaited k c frame (bool b) l h = ground arith
route_reply-IsAwaited k c frame (int i) l h = ground arith
route_reply-IsAwaited k c frame (float r) l h = ground arith

route_read-IsAwaited :
    (k : ℕ) (c : PhoenixChannelClient) (frame : Option Inbound)
    → leaves (show_nat k) frame ≡ true
    → IsAwaited k c
    → IsAwaited k (route_read c frame)
route_read-IsAwaited k c none l h = h
route_read-IsAwaited k c (some frame) l h = elim (Bool-cases (is_reply frame.event)) [
  | inl reply ↦ rw reply (route_reply-IsAwaited k c frame frame.ref (rw reply at l) h)
  | inr other ↦ rw other (ground arith)
]

module _ (loads : Str → Option Value) where
  pub recv-receiving :
      (c : PhoenixChannelClient) (raw : Str)
      → c.receiving ≡ true
      → recv loads c raw ≡ route_read c (read_raw (loads raw))
  unfolding recv
  recv-receiving c raw h = simp h

  pub step-IsAwaited :
      (k : ℕ) (c : PhoenixChannelClient) (op : Op)
      → Leaves loads (show_nat k) op
      → IsAwaited k c
      → IsAwaited k (step loads c op)
  unfolding step
  step-IsAwaited k c (connecting attempt) l h =
      unfold connect in connect_rounds-IsAwaited k c attempt 0 reconnect_backoff_secs none h
  step-IsAwaited k c (joining topic payload) l h = join-IsAwaited k c topic payload h
  step-IsAwaited k c (pushing topic event payload) l h = push-IsAwaited k c topic event payload h
  step-IsAwaited k c (waking ref) l h = wait_ended-IsAwaited k c ref l h
  step-IsAwaited k c (received raw) l h =
      rw (recv-receiving c raw h.reads) (route_read-IsAwaited k c (read_raw (loads raw)) l h)
  step-IsAwaited k c beat l h = unfold heartbeat in ground arith
  step-IsAwaited k c taking l h = unfold receive in ground arith
  step-IsAwaited k c losing l h = elim l [ ]
  step-IsAwaited k c closing l h = elim l [ ]
