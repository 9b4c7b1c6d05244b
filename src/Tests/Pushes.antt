-- ===== src/Tests/Pushes.antt =====
-- The bridge's client of the channel at concrete histories.
use esr.Base.{
  Bool, false, ◌↔◌, All, ◌++◌, ℕ, zero, suc, true, ◌<◌, ◌≡◌, refl, ◌⊎◌, Option, none, some, List,
  [], ◌∷◌, Str, ◌==◌, lit, get, take,
}
use mathlib.Core.Option
use esr.Base.Result.{runtime_error, Result, ok, err, Exc, Failure}
use esr.Decimal.{show_nat}
use esr.Value.{Value, str, list, dict}
use esr.Ipc.Client.{opened}
use esr.Bridge.Phoenix.{
  Reply, PhoenixChannelClient, Inbound, reconnect_backoff_secs, new_phx_client, online, connect,
  push, push_result, awaited,
}
use esr.Bridge.Phoenix.History.{
  taking, Op, connecting, joining, pushing, waking, received, beat, losing, closing, step, run,
}
use esr.Bridge.Phoenix.Connect.{FailBefore, connect_lem}
use esr.Bridge.Phoenix.Replies.First.{push_answered}
use esr.Bridge.Phoenix.Inbox.{brought, yielded, yielded_in_order}
use esr.Bridge.Main.{IsFine, main, main_lem}

abbrev refusal : Failure
refusal = record { type = lit "ConnectionRefusedError"; message = lit "refused" }

-- The first attempt fails.
abbrev second_try : ℕ → Option Failure
second_try zero = some refusal
second_try (suc n) = none

connect_second : (connect new_phx_client second_try).1 ≡ 1 ∷ []
unfolding connect
connect_second = refl

connect_lem_example :
    ((k : ℕ) × (k < 3)
      × FailBefore second_try k
      × (second_try k ≡ none)
      × (connect new_phx_client second_try
          ≡ (ok tt, take k reconnect_backoff_secs, online new_phx_client)))
    ⊎ (FailBefore second_try 3
        × ((e : Failure) × (second_try 2 ≡ some e)
            × (connect new_phx_client second_try ≡ (err (some e), 1 ∷ 2 ∷ 4 ∷ [], new_phx_client))))
connect_lem_example = connect_lem second_try new_phx_client

abbrev reply_to : Str → Value
reply_to ref = list (
    str (lit "1")
    ∷ str ref
    ∷ str (lit "t")
    ∷ str (lit "phx_reply")
    ∷ dict ((lit "status", str (lit "ok")) ∷ [])
    ∷ [])

-- A message of the server is the number that it answers, or no JSON.
abbrev loads : Str → Option Value
loads [] = none
loads (c ∷ s) = some (reply_to (c ∷ s))

abbrev answer : Inbound
answer = record {
  join_ref = str (lit "1");
  ref = str (lit "2");
  topic = str (lit "t");
  event = str (lit "phx_reply");
  payload = dict ((lit "status", str (lit "ok")) ∷ []);
}

-- A client that has joined a topic.
abbrev joined : PhoenixChannelClient
joined = record new_phx_client {
  ws = opened;
  ref_counter = 1;
  join_refs = (lit "t", lit "1") ∷ [];
  receiving = true;
  beating = true;
}

abbrev meanwhile : List Op
meanwhile =
    beat
    ∷ pushing (lit "t") (lit "envelope") []
    ∷ received (lit "4")
    ∷ received []
    ∷ waking (lit "4")
    ∷ []

push_answered_example :
    ((push joined (lit "t") (lit "envelope") []).0 ≡ ok (lit "2"))
    × (Option.map push_result (
          awaited
            (run loads
              (step loads
                (run loads (push joined (lit "t") (lit "envelope") []).1 meanwhile)
                (received (lit "2")))
              (received (lit "2") ∷ losing ∷ closing ∷ []))
            (lit "2"))
        ≡ some (ok (dict ((lit "status", str (lit "ok")) ∷ []))))
unfolding get ◌==◌ show_nat
push_answered_example =
    push_answered loads joined (lit "t") (lit "envelope") (lit "1") [] meanwhile
      (received (lit "2") ∷ losing ∷ closing ∷ []) (lit "2") answer refl refl refl
      (tt, (tt, (refl, (refl, (refl, tt))))) refl refl refl

-- Two replies that no push waits for, of which the iterator has yielded the first.
abbrev unasked : List Op
unasked = connecting second_try ∷ received (lit "7") ∷ beat ∷ received (lit "8") ∷ taking ∷ []

yielded_in_order_example :
    yielded loads new_phx_client unasked ++ (run loads new_phx_client unasked).inbox
    ≡ brought loads new_phx_client unasked
yielded_in_order_example = yielded_in_order loads unasked

abbrev is_killed : Exc → Bool
is_killed runtime_error = true
is_killed _ = false

abbrev lost_history : List Op
lost_history = connecting second_try ∷ joining (lit "t") [] ∷ losing ∷ []

-- The server's task has returned, and the other one was told to shut down.
main_lem_example :
    (((main is_killed (none ∷ some runtime_error ∷ []) (run loads new_phx_client lost_history)).0
        ≡ ok tt)
      ↔ All (IsFine is_killed) (none ∷ some runtime_error ∷ []))
    × ((ref : Str) (future : Reply)
        → get (run loads new_phx_client lost_history).futures ref ≡ some future
        → (ended : Result Exc Inbound) × (awaited
              (main is_killed
                (none ∷ some runtime_error ∷ [])
                (run loads new_phx_client lost_history)).1
              ref
            ≡ some ended))
main_lem_example = main_lem is_killed loads lost_history (none ∷ some runtime_error ∷ [])
