-- ===== src/Handlers/App/Active.antt =====
-- Which events leave the active thread of a chat as it is.
use esr.Base.{
  ◌≡◌, refl, ◌∙◌, inl, inr, true, false, ◌&&◌, ◌||◌, All, Option, some, List, [], ◌∷◌, Str, ◌==◌,
  eq_refl, lit, contains, length, get, get-put, drop, starts_with, words, strip, Bool-cases, arith,
}
use esr.Value.{Value, nonempty}
use esr.Actions.{Event}
use esr.Handlers.Thread.{arg, is_type}
use esr.Handlers.Thread.Dedup.{contains-set_add}
use esr.Handlers.App.{
  AppState, with_added_thread, with_active_thread, with_last_chat_id, Options, read_command,
  session_name, bind_thread, start_session, handle_new_session, handle_at_routed, to_active,
  note_chat, dispatch, on_msg,
}

-- The chat's active thread is bound, and it is this one.
abbrev pub IsActive : AppState → Str → Str → Type 0
IsActive s chat thread =
    (get s.active_thread_by_chat chat ≡ some thread)
    × (contains s.bound_threads thread ≡ true)
    × (nonempty thread ≡ true)

pub bind_thread-IsActive :
    (s : AppState) (chat name : Str)
    → nonempty chat ≡ true
    → nonempty name ≡ true
    → IsActive (bind_thread s chat name) chat name
unfolding with_added_thread with_active_thread
bind_thread-IsActive s chat name full named = rw full (
  get-put s.active_thread_by_chat chat chat name ∙ (rw (eq_refl chat) refl),
  contains-set_add s.bound_threads name name ∙ (rw (eq_refl name) refl),
  named,
)

pub IsActive-note_chat :
    (s : AppState) (c chat thread : Str)
    → IsActive s chat thread
    → IsActive (note_chat s c) chat thread
unfolding with_last_chat_id
IsActive-note_chat s c chat thread h = ground arith

module _ (repr : Value → Str) where
  -- The event names no session to the chat: it is in another chat, or no command that starts one.
  abbrev pub IsNoCommand : Str → Event → Type 0
  IsNoCommand chat event =
      (arg repr event (lit "chat_id") == chat
        && (starts_with (arg repr event (lit "content")) (lit "/new-session ")
            || starts_with (arg repr event (lit "content")) (lit "/new-thread ")))
      ≡ false

  -- The state after a sequence of events.
  abbrev pub run_all : AppState → List Event → AppState
  run_all s [] = s
  run_all s (event ∷ events) = run_all (on_msg repr s event).0 events

  bind_thread-kept :
      (s : AppState) (c name chat thread : Str)
      → (c == chat) ≡ false
      → IsActive s chat thread
      → IsActive (bind_thread s c name) chat thread
  unfolding with_added_thread with_active_thread
  bind_thread-kept s c name chat thread other h = ground (
    arith,
    get-put s.active_thread_by_chat c chat name,
    contains-set_add s.bound_threads name thread,
    h.0,
    h.1,
    h.2,
  )

  start_session-kept :
      (s : AppState) (event : Event) (command : Str × Options) (chat thread : Str)
      → (arg repr event (lit "chat_id") == chat) ≡ false
      → IsActive s chat thread
      → IsActive (start_session repr s event command).0 chat thread
  unfolding start_session
  start_session-kept s event (workspace, o) chat thread other h =
      let name = session_name o.name (arg repr event (lit "message_id")) in
      let bound = bind_thread-kept s (arg repr event (lit "chat_id")) name chat thread other h in
      elim (Bool-cases (nonempty workspace)) [ inl full ↦ rw full bound | inr empty ↦ rw empty h ]

  new_session-kept :
      (s : AppState) (event : Event) (content prefix workspace chat thread : Str)
      → (arg repr event (lit "chat_id") == chat) ≡ false
      → IsActive s chat thread
      → IsActive (handle_new_session repr s event content prefix workspace).0 chat thread
  unfolding handle_new_session
  new_session-kept s event content prefix workspace chat thread other h =
      let body : Str = strip (drop (length prefix) content) in
      elim (Bool-cases (nonempty body)) [
        | inl full ↦
            rw full
              (start_session-kept s event (read_command workspace (words body)) chat thread other h)
        | inr empty ↦ rw empty h
      ]

  at_routed-kept :
      (s : AppState) (event : Event) (content : Str) → (handle_at_routed s event content).0 ≡ s
  unfolding handle_at_routed
  at_routed-kept s event content = ground arith

  to_active-kept : (s : AppState) (event : Event) (o : Option Str) → (to_active s event o).0 ≡ s
  to_active-kept s event o = ground arith

  dispatch-kept :
      (s : AppState) (event : Event) (chat thread : Str)
      → IsNoCommand chat event
      → IsActive s chat thread
      → IsActive
          (dispatch repr s event
            (arg repr event (lit "content"))
            (arg repr event (lit "chat_id"))).0
          chat
          thread
  unfolding dispatch
  dispatch-kept s event chat thread quiet h =
      let content : Str = arg repr event (lit "content") in
      elim (Bool-cases (starts_with content (lit "/new-session "))) [
        | inl a ↦
            rw a (
              new_session-kept s event content (lit "/new-session ") [] chat thread (ground arith)
                h)
        | inr a ↦ elim (Bool-cases (starts_with content (lit "/new-thread "))) [
          | inl b ↦
              rw (a, b)
                (new_session-kept s event content (lit "/new-thread ") (lit "legacy") chat thread
                  (ground arith) h)
          | inr b ↦ elim (Bool-cases (starts_with content (lit "@"))) [
            | inl c ↦ rw (a, b, c, at_routed-kept s event content) h
            | inr c ↦
                rw
                  (
                    a,
                    b,
                    c,
                    to_active-kept s event
                        (get s.active_thread_by_chat (arg repr event (lit "chat_id"))),
                  )
                  h
          ]
        ]
      ]

  on_msg-kept :
      (s : AppState) (event : Event) (chat thread : Str)
      → IsNoCommand chat event
      → IsActive s chat thread
      → IsActive (on_msg repr s event).0 chat thread
  unfolding on_msg
  on_msg-kept s event chat thread quiet h =
      let noted = note_chat s (arg repr event (lit "chat_id")) in
      let active = IsActive-note_chat s (arg repr event (lit "chat_id")) chat thread h in
      elim (Bool-cases (is_type event (lit "msg_received"))) [
        | inl typed ↦ rw typed (dispatch-kept noted event chat thread quiet active)
        | inr other ↦ rw other h
      ]

  pub run_all-kept :
      (s : AppState) (events : List Event) (chat thread : Str)
      → All (IsNoCommand chat) events
      → IsActive s chat thread
      → IsActive (run_all s events) chat thread
  run_all-kept s [] chat thread quiet h = h
  run_all-kept s (event ∷ events) chat thread quiet h =
      run_all-kept (on_msg repr s event).0 events chat thread quiet.1
        (on_msg-kept s event chat thread quiet.0 h)
