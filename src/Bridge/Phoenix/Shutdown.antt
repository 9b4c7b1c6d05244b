-- ===== src/Bridge/Phoenix/Shutdown.antt =====
-- No wait outlives the client.
use esr.Base.{
  ℕ, ◌≡◌, ◌≢◌, refl, inl, inr, true, false, Bool-cases, Option, none, some, Option-cases, List, [],
  ◌∷◌, Str, ◌==◌, eq_iff, contains, Dict, get, get-put, arith, ◌+◌,
}
use esr.Base.Result.{Result, ok, err, Exc, runtime_error, Failure}
use esr.Value.{Value, null, str, arr, obj}
use esr.Bridge.Phoenix.{
  PhoenixChannelClient, Inbound, Reply, waiting, failed, replied, new_phx_client, is_reply,
  read_raw, next_ref, connect, connect_rounds, reconnect_backoff_secs, settle_with, set_result,
  cancelled, join, push, wait_ended, settled, awaited, recv, route_read, route_reply, heartbeat,
  fail_one, fail_all, close, receive,
}
use esr.Bridge.Phoenix.History.{
  Op, connecting, joining, pushing, waking, received, beat, taking, losing, closing, step, run,
}
use esr.Bridge.Phoenix.Replies.{contains-drop_ref}

-- A future that nothing settled is one of those that `close` would fail.
abbrev IsTracked : PhoenixChannelClient → Type 0
IsTracked c = (r : Str) → get c.futures r ≡ some waiting → contains c.pending r ≡ true

set_result-IsTracked :
    (c : PhoenixChannelClient) (ref : Str) (frame : Inbound)
    → IsTracked c
    → IsTracked (set_result c ref frame)
set_result-IsTracked c ref frame h r w =
    ground
      (arith, h r, get-put c.futures ref r (settle_with frame (get c.futures ref)), eq_iff ref r)

route_reply-IsTracked :
    (c : PhoenixChannelClient) (frame : Inbound) (ref : Value)
    → IsTracked c
    → IsTracked (route_reply c frame ref)
route_reply-IsTracked c frame (str ref) h = elim (Bool-cases (contains c.pending ref)) [
  | inl known ↦ rw known (set_result-IsTracked c ref frame h)
  | inr unknown ↦ rw unknown h
]
route_reply-IsTracked c frame (arr vs) h = h
route_reply-IsTracked c frame (obj fs) h = h
route_reply-IsTracked c frame null h = h
route_reply-IsTracked c frame ref h = ground (arith, h)

connect_rounds-IsTracked :
    (c : PhoenixChannelClient) (attempt : ℕ → Option Failure) (round : ℕ) (backoffs : List ℕ)
    (last_exc : Option Failure)
    → IsTracked c
    → IsTracked (connect_rounds c attempt round backoffs last_exc).2
unfolding connect_rounds
connect_rounds-IsTracked c attempt round [] last_exc h = h
connect_rounds-IsTracked c attempt round (backoff ∷ backoffs) last_exc h =
    elim (Option-cases (attempt round)) [
      | inl up ↦ rw (up, connect_rounds) h
      | inr (e, down) ↦
          rw (down, connect_rounds)
            (connect_rounds-IsTracked c attempt (round + 1) backoffs (some e) h)
    ]

join-IsTracked :
    (c : PhoenixChannelClient) (topic : Str) (payload : Dict Value)
    → IsTracked c
    → IsTracked (join c topic payload).1
unfolding join contains
join-IsTracked c topic payload h r w = ground (arith, h r, get-put c.futures (next_ref c) r waiting)

push-IsTracked :
    (c : PhoenixChannelClient) (topic event : Str) (payload : Dict Value)
    → IsTracked c
    → IsTracked (push c topic event payload).1
unfolding push contains
push-IsTracked c topic event payload h r w =
    ground (arith, h r, get-put c.futures (next_ref c) r waiting)

wait_ended-IsTracked :
    (c : PhoenixChannelClient) (ref : Str) → IsTracked c → IsTracked (wait_ended c ref)
unfolding wait_ended
wait_ended-IsTracked c ref h r w = ground (
  arith,
  h r,
  contains-drop_ref c.pending ref r,
  get-put c.futures ref r (cancelled (get c.futures ref)),
  eq_iff ref r,
)

route_read-IsTracked :
    (c : PhoenixChannelClient) (frame : Option Inbound)
    → IsTracked c
    → IsTracked (route_read c frame)
route_read-IsTracked c none h = h
route_read-IsTracked c (some frame) h = elim (Bool-cases (is_reply frame.event)) [
  | inl reply ↦ rw reply (route_reply-IsTracked c frame frame.ref h)
  | inr other ↦ rw other h
]

-- A future that still waits waited before, and was not in its turn.
waiting-fail_one :
    (futures : Dict Reply) (ref r : Str) (o : Option Reply)
    → get futures ref ≡ o
    → get (fail_one futures ref o) r ≡ some waiting
    → (get futures r ≡ some waiting) × ((ref == r) ≡ false)
waiting-fail_one futures ref r (some waiting) e w =
    ground (arith, get-put futures ref r failed, eq_iff ref r)
waiting-fail_one futures ref r none e w = ground (arith, eq_iff ref r)
waiting-fail_one futures ref r (some failed) e w = ground (arith, eq_iff ref r)
waiting-fail_one futures ref r (some (replied f)) e w = ground (arith, eq_iff ref r)

waiting-fail_all :
    (futures : Dict Reply) (refs : List Str) (r : Str)
    → get (fail_all futures refs) r ≡ some waiting
    → (get futures r ≡ some waiting) × (contains refs r ≡ false)
unfolding fail_all contains
waiting-fail_all futures [] r w = (w, refl)
waiting-fail_all futures (ref ∷ refs) r w =
    let (still, others) = waiting-fail_all (fail_one futures ref (get futures ref)) refs r w in
    let (before, other) = waiting-fail_one futures ref r (get futures ref) refl still in
    (before, rw (other, others) refl)

made-fail_one :
    (futures : Dict Reply) (ref r : Str) (o : Option Reply)
    → get futures r ≢ none
    → get (fail_one futures ref o) r ≢ none
made-fail_one futures ref r (some waiting) m = ground (arith, get-put futures ref r failed)
made-fail_one futures ref r none m = m
made-fail_one futures ref r (some failed) m = m
made-fail_one futures ref r (some (replied f)) m = m

made-fail_all :
    (futures : Dict Reply) (refs : List Str) (r : Str)
    → get futures r ≢ none
    → get (fail_all futures refs) r ≢ none
unfolding fail_all
made-fail_all futures [] r m = m
made-fail_all futures (ref ∷ refs) r m =
    made-fail_all (fail_one futures ref (get futures ref)) refs r
      (made-fail_one futures ref r (get futures ref) m)

settled_once :
    (o : Option Reply)
    → o ≢ none
    → o ≢ some waiting
    → (ended : Result Exc Inbound) × (settled o ≡ some ended)
settled_once none m w = absurd (m refl)
settled_once (some waiting) m w = absurd (w refl)
settled_once (some failed) m w = (err runtime_error, refl)
settled_once (some (replied f)) m w = (ok f, refl)

new-IsTracked : IsTracked new_phx_client
unfolding get
new-IsTracked r w = cc

heartbeat-IsTracked : (c : PhoenixChannelClient) → IsTracked c → IsTracked (heartbeat c)
unfolding heartbeat
heartbeat-IsTracked c h r w = ground (arith, h r)

receive-IsTracked : (c : PhoenixChannelClient) → IsTracked c → IsTracked (receive c).1
unfolding receive
receive-IsTracked c h r w = ground (arith, h r)

-- `close` leaves no wait.
close_settles :
    (c : PhoenixChannelClient) → IsTracked c → (r : Str) → get (close c).futures r ≢ some waiting
unfolding close
close_settles c h r w =
    let (waited, unlisted) = waiting-fail_all c.futures c.pending r w in
    let listed = h r waited in cc

module _ (loads : Str → Option Value) where
  step-IsTracked : (c : PhoenixChannelClient) (op : Op) → IsTracked c → IsTracked (step loads c op)
  unfolding step
  step-IsTracked c (connecting attempt) h =
      unfold connect in connect_rounds-IsTracked c attempt 0 reconnect_backoff_secs none h
  step-IsTracked c (joining topic payload) h = join-IsTracked c topic payload h
  step-IsTracked c (pushing topic event payload) h = push-IsTracked c topic event payload h
  step-IsTracked c (waking ref) h = wait_ended-IsTracked c ref h
  step-IsTracked c (received raw) h = elim (Bool-cases c.receiving) [
    | inl reads ↦ unfold recv in simp reads (route_read-IsTracked c (read_raw (loads raw)) h)
    | inr stopped ↦ unfold recv in simp stopped h
  ]
  step-IsTracked c beat h = heartbeat-IsTracked c h
  step-IsTracked c taking h = receive-IsTracked c h
  step-IsTracked c losing h = h
  step-IsTracked c closing h = λ r w. absurd (close_settles c h r w)

  run-IsTracked :
      (c : PhoenixChannelClient) (ops : List Op) → IsTracked c → IsTracked (run loads c ops)
  run-IsTracked c [] h = h
  run-IsTracked c (op ∷ ops) h = run-IsTracked (step loads c op) ops (step-IsTracked c op h)

  -- Whatever has happened to a client, if it is closed then, every join and every push that was sent
  -- has ended: with its reply or with an exception. None of them waits.
  pub run-close :
      (ops : List Op) (ref : Str) (future : Reply)
      → get (run loads new_phx_client ops).futures ref ≡ some future
      → (ended : Result Exc Inbound) × (awaited (close (run loads new_phx_client ops)) ref
          ≡ some ended)
  unfolding awaited
  run-close ops ref future made =
      let c = run loads new_phx_client ops in
      let tracked : IsTracked c = run-IsTracked new_phx_client ops new-IsTracked in
      settled_once (get (close c).futures ref)
        (unfold close in made-fail_all c.futures c.pending ref (λ missing. cc))
        (close_settles c tracked ref)
