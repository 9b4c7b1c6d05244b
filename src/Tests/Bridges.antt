-- ===== src/Tests/Bridges.antt =====
-- The bridge, the registry and the start of a connection at concrete inputs.
use esr.Base.{refl, get, ℕ, ◌≡◌, Bool, true, List, [], ◌∷◌, Str, lit, Dict}
use esr.Value.{Value, str}
use esr.Bridge.Receive.{Bridge}
use esr.Base.Result.{ok}
use esr.Bridge.Tools.{dispatch_tool}
use esr.Bridge.Tools.Verdicts.{first_result}
use esr.Bridge.Tools.Answers.{outcome_of_push, dispatch_tool_lem}
use esr.Registry.{HandlerEntry}
use esr.Ipc.Reconnect.{}

abbrev blank_repr : Value → Str
blank_repr v = []

abbrev idle : Bridge
idle = record { pending = []; resolved = []; notified = []; running = true }

abbrev result_frame : Str × Dict Value
result_frame =
    (lit "envelope", (lit "kind", str (lit "tool_result")) ∷ (lit "req_id", str (lit "r1")) ∷ [])

abbrev kill_frame : Str × Dict Value
kill_frame = (lit "envelope", (lit "kind", str (lit "session_killed")) ∷ [])

abbrev user_payload : Dict Value
user_payload = (lit "user", str (lit "ou_1")) ∷ (lit "content", str (lit "hi")) ∷ []

abbrev old_registry : Dict (HandlerEntry Bool)
old_registry = []

abbrev new_registry : Dict (HandlerEntry Bool)
new_registry =
    (
      lit "cc_proxy.on_msg",
      record {
        actor_type = lit "cc_proxy";
        name = lit "on_msg";
        fn = true;
        permissions = lit "msg.send" ∷ [];
      },
    )
    ∷ []

abbrev environment : Dict Str
environment = (lit "ESR_RUNTIME_URL", []) ∷ []

abbrev one_delay : List ℕ
one_delay = 4 ∷ []

abbrev two_delays : List ℕ
two_delays = 2 ∷ one_delay

abbrev accepted : Dict Value
accepted = (lit "status", str (lit "ok")) ∷ []

dispatch_tool_lem_example :
    (dispatch_tool blank_repr blank_repr idle true
      (lit "r1")
      (lit "reply")
      (ok accepted)
      (result_frame ∷ [])
      (kill_frame ∷ [])).0
    ≡ outcome_of_push blank_repr blank_repr
        (lit "reply")
        (ok accepted)
        (first_result (lit "r1") (result_frame ∷ kill_frame ∷ []))
unfolding get
dispatch_tool_lem_example =
    dispatch_tool_lem blank_repr blank_repr idle (lit "r1") (lit "reply") (ok accepted)
      (result_frame ∷ []) (kill_frame ∷ []) refl refl
