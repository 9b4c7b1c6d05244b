-- ===== src/Ipc/Client/Heart.antt =====
-- The task that keeps the connection alive, through outages and reconnects.
use esr.Base.{◌≡◌, refl, ◌∙◌, Bool, true, false, List, [], ◌∷◌, Str, Dict, All, arith}
use esr.Ipc.Client.{
  Client, opened, Pushed, Op, connecting, beating, pushing, reconnected, connected, connect, close,
  heartbeat, read_frame, read_end, join, join_send, join_reply, push, send_numbered, call_send,
  call_end, rejoin_one, rejoin_all, flush_all, reconnect, fail_attempt, stop_reading, step, run,
}

module _ {H : Type 0} where
  abbrev pub is_connecting : Op H → Bool
  is_connecting connecting = true
  is_connecting _ = false

  heart-rejoin_all :
      (accepts : Str → Bool) (c : Client H) (hs : Dict H)
      → (rejoin_all accepts c hs).heart ≡ c.heart
  unfolding rejoin_all rejoin_one
  heart-rejoin_all accepts c [] = refl
  heart-rejoin_all accepts c ((t, on_msg) ∷ hs) =
      heart-rejoin_all accepts (rejoin_one accepts c t on_msg) hs ∙ (ground arith)

  heart-push : (c : Client H) (p : Pushed) → (push c p).1.heart ≡ c.heart
  unfolding push
  heart-push c p = ground arith

  heart-flush_all : (c : Client H) (ps : List Pushed) → (flush_all c ps).heart ≡ c.heart
  unfolding flush_all
  heart-flush_all c [] = refl
  heart-flush_all c (p ∷ ps) =
      heart-flush_all (push (record c { pending_pushes = ps }) p).1 ps
      ∙ heart-push (record c { pending_pushes = ps }) p

  heart-reconnect : (accepts : Str → Bool) (c : Client H) → (reconnect accepts c).heart ≡ c.heart
  unfolding reconnect
  heart-reconnect accepts c =
      let fresh : Client H = record c {
        ws = opened;
        is_disconnected = false;
        join_refs = [];
        handlers = [];
        reconnecting = false;
      } in
      let again : Client H = rejoin_all accepts fresh c.handlers in
      heart-flush_all again again.pending_pushes ∙ heart-rejoin_all accepts fresh c.handlers

  heart-step :
      (c : Client H) (op : Op H)
      → is_connecting op ≡ false
      → c.heart ≡ false
      → (step c op).heart ≡ false
  unfolding step connect close heartbeat read_end join join_send join_reply call_send call_end
      read_frame send_numbered fail_attempt stop_reading
  heart-step c connecting h stopped = cc
  heart-step c (pushing p) h stopped = heart-push c p ∙ stopped
  heart-step c (reconnected accepts) h stopped = ground (arith, heart-reconnect accepts c)
  heart-step c op h stopped = ground arith

  heart-run :
      (c : Client H) (ops : List (Op H))
      → All (λ op. is_connecting op ≡ false) ops
      → c.heart ≡ false
      → (run c ops).heart ≡ false
  heart-run c [] h stopped = stopped
  heart-run c (op ∷ ops) h stopped = heart-run (step c op) ops h.1 (heart-step c op h.0 stopped)

  heart-outage : (c : Client H) → connected c ≡ false → (step c beating).heart ≡ false
  unfolding step heartbeat
  heart-outage c down = ground arith

  beat_stopped : (c : Client H) → c.heart ≡ false → step c beating ≡ c
  unfolding step heartbeat
  beat_stopped c stopped = rw stopped refl

  -- If a beat falls into an outage, then no later beat sends anything, whatever happens meanwhile, a
  -- successful reconnect included, until `connect` is called again.
  pub no_beat_after_outage :
      (c : Client H) (ops : List (Op H))
      → connected c ≡ false
      → All (λ op. is_connecting op ≡ false) ops
      → step (run (step c beating) ops) beating ≡ run (step c beating) ops
  no_beat_after_outage c ops down quiet =
      beat_stopped (run (step c beating) ops)
        (heart-run (step c beating) ops quiet (heart-outage c down))
