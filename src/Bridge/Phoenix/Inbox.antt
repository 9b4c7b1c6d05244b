-- ===== src/Bridge/Phoenix/Inbox.antt =====
-- What the iterator of the bridge's client yields.
use esr.Base.{
  ℕ, ◌+◌, ◌≡◌, refl, sym, ap, ◌∙◌, inl, inr, Bool-cases, Option, none, some, Option-cases, List, [],
  ◌∷◌, ◌++◌, append-nil, append_assoc, Str, contains, if◌then◌else◌, arith,
}
use esr.Base.Result.{Failure}
use esr.Value.{Value, null, str, arr, obj}
use esr.Bridge.Phoenix.{
  PhoenixChannelClient, Inbound, new_phx_client, is_reply, read_raw, route_read, route_reply, recv,
  connect, connect_rounds, reconnect_backoff_secs, join, push, wait_ended, heartbeat, close,
  receive, take_frame,
}
use esr.Bridge.Phoenix.History.{
  Op, connecting, joining, pushing, waking, received, beat, taking, losing, closing, step, run,
}

-- A frame that is for no future: one that is no reply, or a reply to nothing that is pending.
abbrev pub unclaimed_reply : PhoenixChannelClient → Inbound → Value → List Inbound
unclaimed_reply c frame (str ref) = if contains c.pending ref then [] else frame ∷ []
unclaimed_reply c frame (arr vs) = []
unclaimed_reply c frame (obj fs) = []
unclaimed_reply c frame _ = frame ∷ []

abbrev pub unclaimed : PhoenixChannelClient → Option Inbound → List Inbound
unclaimed c none = []
unclaimed c (some frame) =
    if is_reply frame.event then unclaimed_reply c frame frame.ref else frame ∷ []

abbrev yielded_by : Option Inbound → List Inbound
yielded_by none = []
yielded_by (some frame) = frame ∷ []

route_reply-inbox :
    (c : PhoenixChannelClient) (frame : Inbound) (ref : Value)
    → (route_reply c frame ref).inbox ≡ c.inbox ++ unclaimed_reply c frame ref
route_reply-inbox c frame (str ref) = elim (Bool-cases (contains c.pending ref)) [
  | inl known ↦ rw known (sym (append-nil c.inbox))
  | inr unknown ↦ rw unknown
]
route_reply-inbox c frame (arr vs) = sym (append-nil c.inbox)
route_reply-inbox c frame (obj fs) = sym (append-nil c.inbox)
route_reply-inbox c frame null = refl
route_reply-inbox c frame _ = refl

route_read-inbox :
    (c : PhoenixChannelClient) (frame : Option Inbound)
    → (route_read c frame).inbox ≡ c.inbox ++ unclaimed c frame
route_read-inbox c none = sym (append-nil c.inbox)
route_read-inbox c (some frame) = elim (Bool-cases (is_reply frame.event)) [
  | inl reply ↦ rw reply (route_reply-inbox c frame frame.ref)
  | inr other ↦ rw other
]

take_frame-inbox :
    (c : PhoenixChannelClient) (frames : List Inbound)
    → c.inbox ≡ frames
    → yielded_by (take_frame c frames).0 ++ (take_frame c frames).1.inbox ≡ frames
take_frame-inbox c [] e = e
take_frame-inbox c (frame ∷ frames) e = refl

receive-inbox :
    (c : PhoenixChannelClient) → yielded_by (receive c).0 ++ (receive c).1.inbox ≡ c.inbox
unfolding receive
receive-inbox c = elim (Bool-cases c.is_closed) [
  | inl shut ↦ simp shut refl
  | inr up ↦ simp up (take_frame-inbox c c.inbox refl)
]

connect_rounds-inbox :
    (c : PhoenixChannelClient) (attempt : ℕ → Option Failure) (round : ℕ) (backoffs : List ℕ)
    (last_exc : Option Failure)
    → (connect_rounds c attempt round backoffs last_exc).2.inbox ≡ c.inbox
unfolding connect_rounds
connect_rounds-inbox c attempt round [] last_exc = refl
connect_rounds-inbox c attempt round (backoff ∷ backoffs) last_exc =
    elim (Option-cases (attempt round)) [
      | inl up ↦ rw (up, connect_rounds)
      | inr (e, down) ↦
          rw (down, connect_rounds) (connect_rounds-inbox c attempt (round + 1) backoffs (some e))
    ]

module _ (loads : Str → Option Value) where
  -- The frames that a step brings in for the iterator, and those that it yields.
  abbrev pub brings : PhoenixChannelClient → Op → List Inbound
  brings c (received raw) = if c.receiving then unclaimed c (read_raw (loads raw)) else []
  brings c _ = []

  abbrev pub yields : PhoenixChannelClient → Op → List Inbound
  yields c taking = yielded_by (receive c).0
  yields c _ = []

  abbrev pub brought : PhoenixChannelClient → List Op → List Inbound
  brought c [] = []
  brought c (op ∷ ops) = brings c op ++ brought (step loads c op) ops

  abbrev pub yielded : PhoenixChannelClient → List Op → List Inbound
  yielded c [] = []
  yielded c (op ∷ ops) = yields c op ++ yielded (step loads c op) ops

  step-inbox :
      (c : PhoenixChannelClient) (op : Op)
      → yields c op ++ (step loads c op).inbox ≡ c.inbox ++ brings c op
  unfolding step
  step-inbox c (connecting attempt) =
      unfold connect in
      connect_rounds-inbox c attempt 0 reconnect_backoff_secs none ∙ sym (append-nil c.inbox)
  step-inbox c (joining topic payload) = unfold join in ground (arith, append-nil c.inbox)
  step-inbox c (pushing topic event payload) = unfold push in ground (arith, append-nil c.inbox)
  step-inbox c (waking ref) = unfold wait_ended in sym (append-nil c.inbox)
  step-inbox c (received raw) =
      unfold recv in
      elim (Bool-cases c.receiving) [
        | inl reads ↦ simp reads (route_read-inbox c (read_raw (loads raw)))
        | inr stopped ↦ simp stopped (sym (append-nil c.inbox))
      ]
  step-inbox c beat = unfold heartbeat in ground (arith, append-nil c.inbox)
  step-inbox c taking = receive-inbox c ∙ sym (append-nil c.inbox)
  step-inbox c losing = sym (append-nil c.inbox)
  step-inbox c closing = unfold close in sym (append-nil c.inbox)

  run-inbox :
      (c : PhoenixChannelClient) (ops : List Op)
      → yielded c ops ++ (run loads c ops).inbox ≡ c.inbox ++ brought c ops
  run-inbox c [] = sym (append-nil c.inbox)
  run-inbox c (op ∷ ops) =
      let next = step loads c op in
      append_assoc (yields c op) (yielded next ops) (run loads next ops).inbox
      ∙ ap (λ l. yields c op ++ l) (run-inbox next ops)
      ∙ sym (append_assoc (yields c op) next.inbox (brought next ops))
      ∙ ap (λ l. l ++ brought next ops) (step-inbox c op)
      ∙ append_assoc c.inbox (brings c op) (brought next ops)

  -- In any history of a new client, what its iterator has yielded, followed by what waits in its inbox,
  -- is what the receive loop has read and was for no future, in the order in which it came: nothing of
  -- that is lost, repeated or overtaken, and no reply to a frame that is pending is among it.
  pub yielded_in_order :
      (ops : List Op)
      → yielded new_phx_client ops ++ (run loads new_phx_client ops).inbox
        ≡ brought new_phx_client ops
  yielded_in_order ops = run-inbox new_phx_client ops
