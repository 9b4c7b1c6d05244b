-- ===== src/Ipc/Client/Refs.antt =====
-- The numbers of the frames.
use esr.Base.{
  inl, inr, ℕ, ◌+◌, ◌<◌, ◌≡◌, refl, ap, ◌⊎◌, Bool, false, not, ◌&&◌, Option, none, some, List, [],
  ◌∷◌, ◌++◌, map, map-append, Str, eq_iff, Dict, get, contains, Distinct, Distinct-append, All,
  All-append, Bool-cases, arith,
}
use esr.Decimal.{show_nat, read_nat, read_nat-show_nat}
use esr.Ipc.Frame.{Frame}
use esr.Ipc.Client.{
  Client, opened, Pushed, join_frame, beat, Op, pushing, joining, calling, reconnected, new_client,
  push, join, join_reply, call_send, call_end, connect, close, heartbeat, read_frame, read_end,
  rejoin_one, rejoin_all, flush_all, reconnect, fail_attempt, stop_reading, step, run,
}

-- The frame bears a number below `n`.
abbrev pub Below : ℕ → Frame → Type 0
Below n f = (k : ℕ) × (read_nat f.ref ≡ some k) × (k < n)

abbrev pub refs : List Frame → List Str
refs fs = map (λ f. f.ref) fs

-- The frames bear different numbers, all of which are below the next.
abbrev pub Numbered : ℕ → List Frame → Type 0
Numbered n fs = All (Below n) fs × Distinct (refs fs)

Below-next : (n : ℕ) (fs : List Frame) → All (Below n) fs → All (Below (n + 1)) fs
Below-next n [] h = tt
Below-next n (f ∷ fs) ((k, e, l), h) = ((k, e, omega arith), Below-next n fs h)

fresh_ref : (n : ℕ) (fs : List Frame) → All (Below n) fs → contains (refs fs) (show_nat n) ≡ false
unfolding contains
fresh_ref n [] h = refl
fresh_ref n (f ∷ fs) ((k, e, l), h) =
    ground (arith, eq_iff f.ref (show_nat n), read_nat-show_nat n, ap read_nat, fresh_ref n fs h)

Numbered-next : (n : ℕ) (fs : List Frame) → Numbered n fs → Numbered (n + 1) fs
Numbered-next n fs h = (Below-next n fs h.0, h.1)

Numbered-append :
    (n : ℕ) (fs : List Frame) (f : Frame)
    → f.ref ≡ show_nat n
    → Numbered n fs
    → Numbered (n + 1) (fs ++ f ∷ [])
Numbered-append n fs f e h = (
  All-append (Below (n + 1)) fs (f ∷ []) (Below-next n fs h.0)
      ((n, rw e (read_nat-show_nat n), omega arith), tt),
  rw map-append (Distinct-append (refs fs) f.ref h.1 (rw e (fresh_ref n fs h.0))),
)

module _ {H : Type 0} where
  abbrev pub IsNumbered : Client H → Type 0
  IsNumbered c = Numbered c.next_ref c.sent

  -- The frame that the client would send next.
  abbrev numbered : Client H → Option Str → Pushed → Frame
  numbered c join_ref p = record {
    join_ref = join_ref;
    ref = show_nat c.next_ref;
    topic = p.topic;
    event = p.event;
    payload = p.payload;
  }

  -- Between two states nothing was sent, a number was lost, or this frame was sent.
  abbrev Wrote : Frame → Client H → Client H → Type 0
  Wrote f c d =
      ((d.next_ref ≡ c.next_ref) × (d.sent ≡ c.sent))
      ⊎ (((d.next_ref ≡ c.next_ref + 1) × (d.sent ≡ c.sent))
          ⊎ ((d.next_ref ≡ c.next_ref + 1) × (d.sent ≡ c.sent ++ f ∷ [])))

  Wrote-IsNumbered :
      (f : Frame) (c d : Client H)
      → f.ref ≡ show_nat c.next_ref
      → IsNumbered c
      → Wrote f c d
      → IsNumbered d
  Wrote-IsNumbered f c d e h (inl (n, same)) = rw (n, same) h
  Wrote-IsNumbered f c d e h (inr (inl (n, same))) =
      rw (n, same) (Numbered-next c.next_ref c.sent h)
  Wrote-IsNumbered f c d e h (inr (inr (n, more))) =
      rw (n, more) (Numbered-append c.next_ref c.sent f e h)

  -- The frame of an operation that sends at most one.
  abbrev op_frame : Client H → Op H → Frame
  op_frame c (joining topic on_msg) = numbered c (some (show_nat c.next_ref)) (join_frame topic)
  op_frame c (pushing p) = numbered c (get c.join_refs p.topic) p
  op_frame c (calling p) = numbered c (get c.join_refs p.topic) p
  op_frame c _ = numbered c none beat

  op_frame-ref : (c : Client H) (op : Op H) → (op_frame c op).ref ≡ show_nat c.next_ref
  op_frame-ref c (joining topic on_msg) = refl
  op_frame-ref c op = refl

  -- What the steps but the reconnect send.
  abbrev IsSimple : Op H → Type 0
  IsSimple (reconnected accepts) = ⊥
  IsSimple op = Unit

  step-Wrote : (c : Client H) (op : Op H) → IsSimple op → Wrote (op_frame c op) c (step c op)
  unfolding step connect close heartbeat read_end join join_reply call_send call_end read_frame push
      fail_attempt stop_reading
  step-Wrote c (reconnected accepts) h = elim h [ ]
  step-Wrote c (pushing p) h = ground arith
  step-Wrote c op h = ground arith

  rejoin_one-IsNumbered :
      (accepts : Str → Bool) (c : Client H) (topic : Str) (on_msg : H)
      → IsNumbered c
      → IsNumbered (rejoin_one accepts c topic on_msg)
  rejoin_one-IsNumbered accepts c topic on_msg h =
      let f : Frame = numbered c (some (show_nat c.next_ref)) (join_frame topic) in
      let d : Client H = rejoin_one accepts c topic on_msg in
      let wrote : Wrote f c d = unfold rejoin_one in ground arith in
      Wrote-IsNumbered f c d refl h wrote

  rejoin_all-IsNumbered :
      (accepts : Str → Bool) (c : Client H) (hs : Dict H)
      → IsNumbered c
      → IsNumbered (rejoin_all accepts c hs)
  unfolding rejoin_all
  rejoin_all-IsNumbered accepts c [] h = h
  rejoin_all-IsNumbered accepts c ((topic, on_msg) ∷ hs) h =
      rejoin_all-IsNumbered accepts (rejoin_one accepts c topic on_msg) hs
        (rejoin_one-IsNumbered accepts c topic on_msg h)

  flush_all-IsNumbered :
      (c : Client H) (ps : List Pushed) → IsNumbered c → IsNumbered (flush_all c ps)
  unfolding flush_all
  flush_all-IsNumbered c [] h = h
  flush_all-IsNumbered c (p ∷ ps) h =
      let d : Client H = record c { pending_pushes = ps } in
      flush_all-IsNumbered (push d p).1 ps (
        Wrote-IsNumbered (op_frame d (pushing p)) d (push d p).1 refl h
          (unfold step in step-Wrote d (pushing p) tt))

  reconnect-IsNumbered :
      (accepts : Str → Bool) (c : Client H) → IsNumbered c → IsNumbered (reconnect accepts c)
  unfolding reconnect
  reconnect-IsNumbered accepts c h =
      let fresh : Client H = record c {
        ws = opened;
        is_disconnected = false;
        join_refs = [];
        handlers = [];
        reconnecting = false;
      } in
      let rejoined : Client H = rejoin_all accepts fresh c.handlers in
      flush_all-IsNumbered rejoined rejoined.pending_pushes
        (rejoin_all-IsNumbered accepts fresh c.handlers h)

  step-IsNumbered : (c : Client H) (op : Op H) → IsNumbered c → IsNumbered (step c op)
  step-IsNumbered c (reconnected accepts) h = elim (Bool-cases (c.reconnecting && not c.shutdown)) [
    | inl go ↦ unfold step in rw go (reconnect-IsNumbered accepts c h)
    | inr stay ↦ unfold step in rw stay h
  ]
  step-IsNumbered c op h =
      Wrote-IsNumbered (op_frame c op) c (step c op) (op_frame-ref c op) h (step-Wrote c op tt)

  run-IsNumbered_from : (c : Client H) (ops : List (Op H)) → IsNumbered c → IsNumbered (run c ops)
  run-IsNumbered_from c [] h = h
  run-IsNumbered_from c (op ∷ ops) h = run-IsNumbered_from (step c op) ops (step-IsNumbered c op h)

  -- Whatever happens to a new client, the frames that it has sent bear different numbers, each of
  -- them below the next.
  pub run-IsNumbered :
      (auto_reconnect : Bool) (ops : List (Op H)) → IsNumbered (run (new_client auto_reconnect) ops)
  run-IsNumbered auto_reconnect ops = run-IsNumbered_from (new_client auto_reconnect) ops (tt, tt)
