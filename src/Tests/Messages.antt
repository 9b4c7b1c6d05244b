-- ===== src/Tests/Messages.antt =====
-- The handlers, the actions and the envelopes at concrete inputs.
use esr.Base.{
  ◌≡◌, refl, none, some, List, [], ◌∷◌, ◌≤◌, ◌==◌, Str, lit, All, length, contains, get,
  starts_with, strip, words, arith,
}
use esr.Value.{Value, str, py_str}
use esr.Actions.{Event}
use esr.Handlers.Thread.{ThreadState, arg, is_type, notify}
use esr.Handlers.Thread
use esr.Handlers.Thread.Dedup.{IsTracked, on_msg-IsTracked}
use esr.Handlers.Thread.Window.{deliver, redelivery_ignored}
use esr.Handlers.App.{AppState, to_thread, Options, session_params, no_options}
use esr.Handlers.App
use esr.Handlers.App.Bound.{IsBound, Allowed, on_msg-IsBound, on_msg-Allowed}
use esr.Handlers.App.Active.{run_all}
use esr.Handlers.App.Routing.{session_then_plain}
use esr.Handlers.Session.{SessionState, RunnerState}

-- No value of these inputs is a list or a dict of which the text is asked.
abbrev no_repr : Value → Str
no_repr v = []

abbrev message : Str → Str → Event
message id content = record {
  source = str (lit "esr://localhost/adapters/feishu/app");
  event_type = str (lit "msg_received");
  args =
      (lit "message_id", str id)
      ∷ (lit "chat_id", str (lit "oc_1"))
      ∷ (lit "content", str content)
      ∷ [];
}

abbrev event_of : Str → Event
event_of type = record {
  source = str [];
  event_type = str type;
  args = (lit "text", str (lit "done")) ∷ [];
}

abbrev new_thread : ThreadState
new_thread = record {
  thread_id = lit "t1";
  chat_id = lit "oc_1";
  dedup = [];
  dedup_order = [];
  ack_msg_id = none;
}

new_thread-IsTracked : IsTracked new_thread
unfolding contains
new_thread-IsTracked = record { same = λ x. refl; distinct = tt; bounded = omega arith }

on_msg-IsTracked_example :
    IsTracked (Thread.on_msg no_repr new_thread (message (lit "om_1") (lit "hi"))).0
on_msg-IsTracked_example =
    on_msg-IsTracked no_repr new_thread (message (lit "om_1") (lit "hi")) new_thread-IsTracked

abbrev between : List Event
between = message (lit "om_2") (lit "more") ∷ event_of (lit "cc_output") ∷ []

redelivery_ignored_example :
    Thread.on_msg no_repr
      (deliver no_repr
        (Thread.on_msg no_repr new_thread (message (lit "om_1") (lit "hi"))).0
        between)
      (message (lit "om_1") (lit "hi again"))
    ≡ (
      deliver no_repr
          (Thread.on_msg no_repr new_thread (message (lit "om_1") (lit "hi"))).0
          between,
      [],
    )
unfolding ◌==◌ contains py_str get
redelivery_ignored_example =
    redelivery_ignored no_repr new_thread (message (lit "om_1") (lit "hi"))
      (message (lit "om_1") (lit "hi again")) between new_thread-IsTracked refl refl refl
      (omega arith) refl refl

abbrev new_app : AppState
new_app = record {
  app_id = lit "app";
  bound_threads = lit "main" ∷ [];
  active_thread_by_chat = [];
  last_chat_id = [];
}

new_app-IsBound : IsBound new_app
unfolding get
new_app-IsBound = record { at_chat = λ c t e. cc }

abbrev start : Event
start = message (lit "om_1") (lit "/new-session dev name=build cwd=/srv")

on_msg-IsBound_example : IsBound (App.on_msg no_repr new_app start).0
on_msg-IsBound_example = on_msg-IsBound no_repr new_app start new_app-IsBound

on_msg-Allowed_example :
    All (Allowed (App.on_msg no_repr new_app start).0) (App.on_msg no_repr new_app start).1
    × (length (App.on_msg no_repr new_app start).1 ≤ 1)
on_msg-Allowed_example = on_msg-Allowed no_repr new_app start

abbrev build_options : Options
build_options = record { name = lit "build"; cwd = lit "/srv"; worktree = [] }

abbrev meanwhile : List Event
meanwhile = message (lit "om_3") (lit "@main hello") ∷ event_of (lit "cc_output") ∷ []

session_then_plain_example :
    (thread : Str) × (get
        (session_params no_repr start (lit "dev") build_options (lit "build"))
        (lit "thread_id")
      ≡ some (str thread))
    × ((App.on_msg no_repr
          (run_all no_repr (App.on_msg no_repr new_app start).0 meanwhile)
          (message (lit "om_2") (lit "make it"))).1
        ≡ to_thread thread (message (lit "om_2") (lit "make it")).args ∷ [])
unfolding App.on_msg App.dispatch App.handle_new_session App.start_session App.read_command
    App.read_option App.read_options App.session_name ◌==◌ contains py_str get starts_with strip
    words App.with_last_chat_id
session_then_plain_example =
    session_then_plain no_repr new_app start meanwhile (message (lit "om_2") (lit "make it"))
      (str (lit "feishu-thread-session"))
      (session_params no_repr start (lit "dev") build_options (lit "build")) refl refl
      (refl, (refl, tt)) refl refl (refl, refl, refl)

abbrev a_session : SessionState
a_session = record { session_name = lit "build"; parent_thread = lit "t1"; pending_outputs = [] }

abbrev a_runner : RunnerState
a_runner = record { message_count = 3 }
