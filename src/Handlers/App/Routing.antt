-- ===== src/Handlers/App/Routing.antt =====
-- A session that was started in a chat receives what is said there, until another is started.
use esr.Base.{
  ◌≢◌, ◌≡◌, refl, ap, inl, inr, true, false, All, Option, some, List, [], ◌∷◌, Str, ◌==◌, lit,
  length, Dict, get, cut, drop, take, starts_with, words, strip, Bool-cases, arith,
}
use esr.Value.{Value, str, nonempty}
use esr.Actions.{Action, invoke_command, Event}
use esr.Handlers.Thread.{arg, is_type}
use esr.Handlers.App.{
  AppState, Options, or_text, after_underscore, read_command, session_name, bind_thread,
  session_params, start_session, handle_new_session, to_thread, handle_at_routed, to_active,
  note_chat, dispatch, on_msg,
}
use esr.Handlers.App.Active.{
  IsActive, bind_thread-IsActive, IsActive-note_chat, IsNoCommand, run_all, run_all-kept,
}

or_text-nonempty : (s t : Str) → nonempty t ≡ true → nonempty (or_text s t) ≡ true
or_text-nonempty [] t h = h
or_text-nonempty (c ∷ s) t h = refl

session_name_nonempty : (name mid : Str) → nonempty (session_name name mid) ≡ true
unfolding session_name
session_name_nonempty name mid =
    or_text-nonempty name _
      (or_text-nonempty (take 12 (after_underscore mid (cut b'_' mid))) (lit "sess") refl)

-- The content is no command of the app.
abbrev pub IsPlain : Str → Type 0
IsPlain content =
    (starts_with content (lit "/new-session ") ≡ false)
    × (starts_with content (lit "/new-thread ") ≡ false)
    × (starts_with content (lit "@") ≡ false)

module _ (repr : Value → Str) where
  plain_goes_to_active :
      (s : AppState) (event : Event) (thread : Str)
      → IsActive s (arg repr event (lit "chat_id")) thread
      → is_type event (lit "msg_received") ≡ true
      → IsPlain (arg repr event (lit "content"))
      → (on_msg repr s event).1 ≡ to_thread thread event.args ∷ []
  unfolding on_msg dispatch
  plain_goes_to_active s event thread active typed plain =
      let chat : Str = arg repr event (lit "chat_id") in
      let (found, bound, named) = IsActive-note_chat s chat chat thread active in
      rw (typed, plain.0, plain.1, plain.2, found, bound, named) refl

  -- What the start of a session shows of the state that it leaves.
  abbrev Started : AppState → Event → Dict Value → AppState → Type 0
  Started s event params after =
      (name : Str) × (after ≡ bind_thread s (arg repr event (lit "chat_id")) name)
      × (nonempty name ≡ true)
      × (get params (lit "thread_id") ≡ some (str name))

  -- The parameters of a lone command.
  abbrev command_params : List Action → Dict Value
  command_params (invoke_command n params ∷ []) = params
  command_params _ = []

  start_session-Started :
      (s : AppState) (event : Event) (command : Str × Options) (n : Value) (params : Dict Value)
      → (start_session repr s event command).1 ≡ invoke_command n params ∷ []
      → Started s event params (start_session repr s event command).0
  unfolding start_session get ◌==◌
  start_session-Started s event (workspace, o) n params e = elim (Bool-cases (nonempty workspace)) [
    | inl full ↦
        let name : Str = session_name o.name (arg repr event (lit "message_id")) in
        let same : session_params repr event workspace o name ≡ params =
          ap command_params (rw full at e) in
        (
          name,
          rw full refl,
          session_name_nonempty o.name (arg repr event (lit "message_id")),
          rw (← same) refl,
        )
    | inr empty ↦
        absurd
          (let h : ◌≡◌ {A = List Action} [] (invoke_command n params ∷ []) = rw empty at e in cc)
  ]

  new_session-Started :
      (s : AppState) (event : Event) (content prefix workspace : Str) (n : Value)
      (params : Dict Value)
      → (handle_new_session repr s event content prefix workspace).1 ≡ invoke_command n params ∷ []
      → Started s event params (handle_new_session repr s event content prefix workspace).0
  unfolding handle_new_session
  new_session-Started s event content prefix workspace n params e =
      let body : Str = strip (drop (length prefix) content) in
      elim (Bool-cases (nonempty body)) [
        | inl full ↦ rw full (
            start_session-Started s event (read_command workspace (words body)) n params
              (rw full at e))
        | inr empty ↦
            absurd (
              let h : ◌≡◌ {A = List Action} [] (invoke_command n params ∷ []) = rw empty at e in cc)
      ]

  -- No other branch starts a session.
  at_routed-no_start :
      (s : AppState) (event : Event) (content : Str) (n : Value) (params : Dict Value)
      → (handle_at_routed s event content).1 ≢ invoke_command n params ∷ []
  unfolding handle_at_routed
  at_routed-no_start s event content n params = ground arith

  to_active-no_start :
      (s : AppState) (event : Event) (o : Option Str) (n : Value) (params : Dict Value)
      → (to_active s event o).1 ≢ invoke_command n params ∷ []
  to_active-no_start s event o n params = ground arith

  dispatch-Started :
      (s : AppState) (event : Event) (content chat : Str) (n : Value) (params : Dict Value)
      → (dispatch repr s event content chat).1 ≡ invoke_command n params ∷ []
      → Started s event params (dispatch repr s event content chat).0
  unfolding dispatch
  dispatch-Started s event content chat n params e =
      elim (Bool-cases (starts_with content (lit "/new-session "))) [
        | inl a ↦
            rw a (new_session-Started s event content (lit "/new-session ") [] n params (rw a at e))
        | inr a ↦ elim (Bool-cases (starts_with content (lit "/new-thread "))) [
          | inl b ↦
              rw (a, b)
                (new_session-Started s event content (lit "/new-thread ") (lit "legacy") n params
                  (rw (a, b) at e))
          | inr b ↦ elim (Bool-cases (starts_with content (lit "@"))) [
            | inl c ↦ absurd (at_routed-no_start s event content n params (rw (a, b, c) at e))
            | inr c ↦ absurd (
                to_active-no_start s event (get s.active_thread_by_chat chat) n params
                  (rw (a, b, c) at e))
          ]
        ]
      ]

  started :
      (s : AppState) (event : Event) (n : Value) (params : Dict Value)
      → (on_msg repr s event).1 ≡ invoke_command n params ∷ []
      → Started (note_chat s (arg repr event (lit "chat_id"))) event params (on_msg repr s event).0
  unfolding on_msg
  started s event n params e = elim (Bool-cases (is_type event (lit "msg_received"))) [
    | inl typed ↦ rw typed (
        dispatch-Started (note_chat s (arg repr event (lit "chat_id"))) event
          (arg repr event (lit "content")) (arg repr event (lit "chat_id")) n params
          (rw typed at e))
    | inr other ↦
        absurd
          (let h : ◌≡◌ {A = List Action} [] (invoke_command n params ∷ []) = rw other at e in cc)
  ]

  -- If an event in a chat started a session, and then come any events, of which those in that chat
  -- are no `/new-session` or `/new-thread`, then a message in that chat that is no command goes to
  -- the thread that was named to the runtime, with its arguments as they are.
  pub session_then_plain :
      (s : AppState) (event : Event) (between : List Event) (next : Event) (n : Value)
      (params : Dict Value)
      → (on_msg repr s event).1 ≡ invoke_command n params ∷ []
      → nonempty (arg repr event (lit "chat_id")) ≡ true
      → All (IsNoCommand repr (arg repr event (lit "chat_id"))) between
      → arg repr next (lit "chat_id") ≡ arg repr event (lit "chat_id")
      → is_type next (lit "msg_received") ≡ true
      → IsPlain (arg repr next (lit "content"))
      → (thread : Str) × (get params (lit "thread_id") ≡ some (str thread))
        × ((on_msg repr (run_all repr (on_msg repr s event).0 between) next).1
            ≡ to_thread thread next.args ∷ [])
  session_then_plain s event between next n params e full quiet same typed plain =
      let chat : Str = arg repr event (lit "chat_id") in
      let (name, after, named, told) = started s event n params e in
      let active : IsActive (on_msg repr s event).0 chat name =
        rw after (bind_thread-IsActive (note_chat s chat) chat name full named) in
      (
        name,
        told,
        plain_goes_to_active (run_all repr (on_msg repr s event).0 between) next name
            (rw same (run_all-kept repr (on_msg repr s event).0 between chat name quiet active))
            typed plain,
      )
