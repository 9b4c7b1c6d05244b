-- ===== src/Tests/Runners.antt =====
-- The runner of an adapter at concrete turns.
use esr.Base.{
  ◌≡◌, refl, Bool, true, false, List, [], ◌∷◌, ◌++◌, ◌==◌, Str, lit, get, starts_with, Dict,
}
use esr.Base.Result.{Result, ok, err, Failure}
use esr.Value.{Value, str, dict, to_fields}
use esr.Ipc.Client.{Client, opened}
use esr.Ipc.Client.Rejoin.{said}
use esr.Runner.{Pusher, Turn, directive, event, Running, run_turns}
use esr.Runner.Answers.{due_pushes, said-run_turns}

-- An adapter that reacts to its first directive and fails after it.
abbrev once : Bool → (action args : Value) → Result Failure (Dict Value) × Bool
once true action args = (ok ((lit "reaction_id", str (lit "r1")) ∷ []), false)
once false action args = (err (record { type = lit "ValueError"; message = lit "spent" }), false)

abbrev pusher : Pusher
pusher = record {
  topic = lit "adapter:feishu/app";
  source_uri = lit "esr://localhost/adapters/feishu/app";
}

abbrev served : Client Bool
served = record {
  auto_reconnect = false;
  ws = opened;
  reconnecting = false;
  shutdown = false;
  heart = true;
  next_ref = 2;
  join_refs = (lit "adapter:feishu/app", lit "1") ∷ [];
  handlers = (lit "adapter:feishu/app", true) ∷ [];
  pending_replies = [];
  is_disconnected = false;
  pending_pushes = [];
  sent = [];
}

abbrev react_payload : Dict Value
react_payload = (lit "action", str (lit "react")) ∷ (lit "args", dict []) ∷ []

abbrev react : Str → Dict Value
react id = (lit "id", str id) ∷ (lit "payload", dict react_payload) ∷ []

abbrev received : Dict Value
received = (lit "event_type", str (lit "msg_received")) ∷ []

abbrev rounds : List Turn
rounds =
    directive (lit "t1") (react (lit "d-1"))
    ∷ event (lit "e-1") (lit "t2") received
    ∷ directive (lit "t3") (react (lit "d-2"))
    ∷ []

abbrev start : Running Bool Bool
start = record { client = served; adapter = true }

said-run_turns_example :
    ((run_turns once pusher start rounds).0 ≡ ok tt)
    × (said (run_turns once pusher start rounds).1.client.sent
        ≡ [] ++ due_pushes once pusher true rounds)
unfolding get ◌==◌ starts_with
said-run_turns_example =
    said-run_turns once pusher start rounds refl ((refl, refl), refl)
      (
        (to_fields react_payload, str (lit "d-1"), str (lit "react"), refl, refl, refl),
        (
          (str (lit "msg_received"), to_fields [], refl, refl),
          ((to_fields react_payload, str (lit "d-2"), str (lit "react"), refl, refl, refl), tt),
        ),
      )

abbrev no_decode : Str → Dict Str
no_decode s = []

abbrev no_encode : Dict Value → Str
no_encode d = []
