-- ===== src/Ipc/Client/Queue.antt =====
-- The pushes that wait for a connection.
use esr.Base.{
  inl, inr, suc, ℕ, ◌-◌, ◌≤◌, ◌≡◌, refl, sym, ap, ◌∙◌, Bool, true, false, Option, some, List, [],
  ◌∷◌, ◌++◌, append_assoc, append-nil, map, Str, Dict, get, length, length-append, drop, eqb, All,
  Bool-cases, arith,
}
use esr.Ipc.Client.{
  Client, opened, Pushed, Op, pushing, connecting, reconnected, pending_push_cap, enqueue,
  new_client, push, send_numbered, join, join_send, join_reply, call_send, call_end, connect, close,
  heartbeat, read_frame, read_end, rejoin_one, rejoin_all, flush_all, reconnect, fail_attempt,
  stop_reading, step, run,
}

-- The last `n` items.
abbrev pub keep_last : ℕ → List Pushed → List Pushed
keep_last n l = drop (length l - n) l

keep_last_cons :
    (n : ℕ) (p : Pushed) (l : List Pushed) → n ≤ length l → keep_last n (p ∷ l) ≡ keep_last n l
keep_last_cons n p l h =
    let one_more : length (p ∷ l) - n ≡ suc (length l - n) = omega arith in rw one_more refl

keep_last_all : (n : ℕ) (l : List Pushed) → length l ≤ n → keep_last n l ≡ l
keep_last_all n l h = let none_less : length l - n ≡ 0 = omega arith in rw none_less refl

abbrev pub enqueue_all : List Pushed → List Pushed → List Pushed
enqueue_all q [] = q
enqueue_all q (p ∷ ps) = enqueue_all (enqueue q p) ps

pub enqueue_bounded :
    (q : List Pushed) (p : Pushed)
    → length q ≤ pending_push_cap
    → length (enqueue q p) ≤ pending_push_cap
unfolding enqueue
enqueue_bounded [] p h = ground arith
enqueue_bounded (o ∷ q) p h = ground (arith, length-append q (p ∷ []))

enqueue_all-keep_last :
    (q ps : List Pushed)
    → length q ≤ pending_push_cap
    → enqueue_all q ps ≡ keep_last pending_push_cap (q ++ ps)
unfolding enqueue
enqueue_all-keep_last q [] h = rw append-nil (sym (keep_last_all pending_push_cap q h))
enqueue_all-keep_last [] (p ∷ ps) h = enqueue_all-keep_last (p ∷ []) ps (omega arith)
enqueue_all-keep_last (o ∷ q) (p ∷ ps) h =
    elim (Bool-cases (eqb (length (o ∷ q)) pending_push_cap)) [
      | inl full ↦
          let room : length (q ++ p ∷ []) ≤ pending_push_cap =
            ground (arith, length-append q (p ∷ [])) in
          let long : pending_push_cap ≤ length (q ++ p ∷ ps) =
            ground (arith, length-append q (p ∷ ps)) in
          rw (full, keep_last_cons pending_push_cap o (q ++ p ∷ ps) long)
            (enqueue_all-keep_last (q ++ p ∷ []) ps room
              ∙ ap (keep_last pending_push_cap) (append_assoc q (p ∷ []) ps))
      | inr free ↦
          let room : length ((o ∷ q) ++ p ∷ []) ≤ pending_push_cap =
            ground (arith, length-append q (p ∷ [])) in
          rw free (
            enqueue_all-keep_last ((o ∷ q) ++ p ∷ []) ps room
            ∙ ap (keep_last pending_push_cap) (append_assoc (o ∷ q) (p ∷ []) ps))
    ]

module _ {H : Type 0} where
  -- The topic of a push is joined.
  abbrev pub IsJoined : Client H → Pushed → Type 0
  IsJoined c p = (ref : Str) × (get c.join_refs p.topic ≡ some ref)

  step-pushing :
      (c : Client H) (p : Pushed)
      → c.is_disconnected ≡ true
      → IsJoined c p
      → step c (pushing p) ≡ record c { pending_pushes = enqueue c.pending_pushes p }
  unfolding step push
  step-pushing c p down (ref, e) = ground arith

  run-enqueue_all :
      (c : Client H) (ps : List Pushed)
      → c.is_disconnected ≡ true
      → All (IsJoined c) ps
      → run c (map pushing ps) ≡ record c { pending_pushes = enqueue_all c.pending_pushes ps }
  run-enqueue_all c [] down joined = refl
  run-enqueue_all c (p ∷ ps) down joined =
      ap (λ (d : Client H). run d (map pushing ps)) (step-pushing c p down joined.0)
      ∙ run-enqueue_all (record c { pending_pushes = enqueue c.pending_pushes p }) ps down joined.1

  -- While a client is disconnected, pushes to joined topics are taken in order: of the pushes that
  -- waited, of which there were at most `pending_push_cap`, and the new ones, the last
  -- `pending_push_cap` wait now. Nothing else changes, and nothing is sent.
  pub run-pushing :
      (c : Client H) (ps : List Pushed)
      → c.is_disconnected ≡ true
      → length c.pending_pushes ≤ pending_push_cap
      → All (IsJoined c) ps
      → run c (map pushing ps)
        ≡ record c { pending_pushes = keep_last pending_push_cap (c.pending_pushes ++ ps) }
  run-pushing c ps down bound joined =
      rw (run-enqueue_all c ps down joined, enqueue_all-keep_last c.pending_pushes ps bound) refl

  -- The queue is within its bound.
  abbrev pub IsBounded : Client H → Type 0
  IsBounded c = length c.pending_pushes ≤ pending_push_cap

  pending_pushes-send_numbered :
      (c : Client H) (f : Str → Option Str) (p : Pushed)
      → (send_numbered c f p).1.pending_pushes ≡ c.pending_pushes
  unfolding send_numbered
  pending_pushes-send_numbered c f p = ground arith

  push-IsBounded : (c : Client H) (p : Pushed) → IsBounded c → IsBounded (push c p).1
  unfolding push
  push-IsBounded c p h = ground (arith, enqueue_bounded c.pending_pushes p)

  pending_pushes-rejoin_all :
      (accepts : Str → Bool) (c : Client H) (hs : Dict H)
      → (rejoin_all accepts c hs).pending_pushes ≡ c.pending_pushes
  unfolding rejoin_all rejoin_one
  pending_pushes-rejoin_all accepts c [] = refl
  pending_pushes-rejoin_all accepts c ((t, on_msg) ∷ hs) =
      pending_pushes-rejoin_all accepts (rejoin_one accepts c t on_msg) hs ∙ (ground arith)

  flush_all-IsBounded :
      (c : Client H) (ps : List Pushed)
      → IsBounded c
      → length ps ≤ pending_push_cap
      → IsBounded (flush_all c ps)
  unfolding flush_all
  flush_all-IsBounded c [] h k = h
  flush_all-IsBounded c (p ∷ ps) h k =
      flush_all-IsBounded (push (record c { pending_pushes = ps }) p).1 ps
        (push-IsBounded (record c { pending_pushes = ps }) p (omega arith)) (omega arith)

  reconnect-IsBounded :
      (accepts : Str → Bool) (c : Client H) → IsBounded c → IsBounded (reconnect accepts c)
  unfolding reconnect
  reconnect-IsBounded accepts c h =
      let fresh : Client H = record c {
        ws = opened;
        is_disconnected = false;
        join_refs = [];
        handlers = [];
        reconnecting = false;
      } in
      let same : (rejoin_all accepts fresh c.handlers).pending_pushes ≡ c.pending_pushes =
        pending_pushes-rejoin_all accepts fresh c.handlers in
      let rejoined : Client H = rejoin_all accepts fresh c.handlers in
      flush_all-IsBounded rejoined rejoined.pending_pushes (rw same h) (rw same h)

  step-IsBounded : (c : Client H) (op : Op H) → IsBounded c → IsBounded (step c op)
  unfolding step connect close heartbeat read_end join join_send join_reply call_send call_end
      read_frame send_numbered fail_attempt stop_reading
  step-IsBounded c connecting h = h
  step-IsBounded c (pushing p) h = push-IsBounded c p h
  step-IsBounded c (reconnected accepts) h = ground (arith, reconnect-IsBounded accepts c h)
  step-IsBounded c op h = ground arith

  run-IsBounded_from : (c : Client H) (ops : List (Op H)) → IsBounded c → IsBounded (run c ops)
  run-IsBounded_from c [] h = h
  run-IsBounded_from c (op ∷ ops) h = run-IsBounded_from (step c op) ops (step-IsBounded c op h)

  -- Whatever happens to a new client, at most `pending_push_cap` pushes wait.
  pub run-IsBounded :
      (auto_reconnect : Bool) (ops : List (Op H)) → IsBounded (run (new_client auto_reconnect) ops)
  run-IsBounded auto_reconnect ops =
      run-IsBounded_from (new_client auto_reconnect) ops (omega arith)
