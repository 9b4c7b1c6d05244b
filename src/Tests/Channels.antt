-- ===== src/Tests/Channels.antt =====
-- The client of channels at concrete histories.
use esr.Base.{◌≡◌, refl, Bool, true, false, List, [], ◌∷◌, ◌++◌, ◌==◌, Str, lit, map, get, arith}
use esr.Value.{dict}
use esr.Ipc.Client.{
  Client, closed, Pushed, Op, connecting, joining, join_replied, pushing, losing, beating,
  reconnected, step, pending_push_cap, join_frame, new_client, reconnect, run,
}
use esr.Ipc.Client.Heart.{no_beat_after_outage}
use esr.Ipc.Client.Queue.{keep_last, run-pushing}
use esr.Ipc.Client.Refs.{IsNumbered, run-IsNumbered}
use esr.Ipc.Client.Rejoin.{is_some, said, keep_if, topics, back, reconnect_lem}

abbrev topic : Str
topic = lit "adapter:feishu/app"

abbrev push_of : Str → Pushed
push_of event = record { topic = topic; event = event; payload = dict [] }

-- A client whose connection was lost after it had joined a topic.
abbrev lost : Client Bool
lost = record {
  auto_reconnect = true;
  ws = closed;
  reconnecting = true;
  shutdown = false;
  heart = true;
  next_ref = 2;
  join_refs = (topic, lit "1") ∷ [];
  handlers = (topic, true) ∷ [];
  pending_replies = [];
  is_disconnected = true;
  pending_pushes = [];
  sent = [];
}

abbrev history : List (Op Bool)
history =
    connecting
    ∷ joining topic true
    ∷ join_replied topic true
    ∷ losing
    ∷ pushing (push_of (lit "event"))
    ∷ []

run-pushing_example :
    run lost (map pushing (push_of (lit "event") ∷ push_of (lit "envelope") ∷ [])) ≡ record lost {
      pending_pushes =
          keep_last pending_push_cap ([] ++ push_of (lit "event") ∷ push_of (lit "envelope") ∷ []);
    }
unfolding get ◌==◌
run-pushing_example =
    run-pushing lost (push_of (lit "event") ∷ push_of (lit "envelope") ∷ []) refl (omega arith)
      ((lit "1", refl), ((lit "1", refl), tt))

run-IsNumbered_example : IsNumbered (run (new_client true) history)
run-IsNumbered_example = run-IsNumbered true history

abbrev waiting : Client Bool
waiting = record lost { pending_pushes = push_of (lit "event") ∷ push_of (lit "envelope") ∷ [] }

abbrev accept_all : Str → Bool
accept_all t = true

reconnect_lem_example :
    ((reconnect accept_all waiting).pending_pushes ≡ [])
    × (said (reconnect accept_all waiting).sent
        ≡ said waiting.sent
          ++ map join_frame (topics waiting.handlers)
          ++ keep_if (λ p. back accept_all waiting.handlers p.topic) waiting.pending_pushes)
    × ((t : Str)
        → is_some (get (reconnect accept_all waiting).join_refs t)
          ≡ back accept_all waiting.handlers t)
reconnect_lem_example = reconnect_lem accept_all waiting

abbrev meanwhile : List (Op Bool)
meanwhile = reconnected accept_all ∷ pushing (push_of (lit "event")) ∷ []

no_beat_after_outage_example :
    step (run (step lost beating) meanwhile) beating ≡ run (step lost beating) meanwhile
no_beat_after_outage_example = no_beat_after_outage lost meanwhile refl (refl, (refl, tt))

-- What happens to the client after its connection has ended.
abbrev afterwards : List (Op Bool)
afterwards = pushing (push_of (lit "late")) ∷ beating ∷ losing ∷ []
