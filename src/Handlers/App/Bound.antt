-- ===== src/Handlers/App/Bound.antt =====
-- The threads of an app: what is bound, what is active, and where messages go.
use esr.Base.{
  ◌≤◌, ◌≡◌, refl, inl, inr, Bool, true, false, not, ◌&&◌, Option, none, some, List, [], ◌∷◌, ◌++◌,
  Str, ◌==◌, eq_iff, eq_refl, lit, contains, length, Dict, get, put, get-put, cut, drop, words,
  strip, All, Bool-cases, Option-cases, if◌then◌else◌, arith,
}
use esr.Value.{Value, str, nonempty}
use esr.Actions.{Action, route, invoke_command, Event}
use esr.Handlers.Thread.{arg, is_type}
use esr.Handlers.Thread.Dedup.{contains-set_add}
use esr.Handlers.App.{
  AppState, with_added_thread, with_active_thread, with_last_chat_id, Options, read_command,
  session_name, bind_thread, start_session, handle_new_session, to_thread, handle_at_routed,
  to_active, note_chat, dispatch, on_msg,
}

-- The active thread of every chat is bound.
pub record IsBound (s : AppState) : Type 0 where
  pub at_chat :
      (chat thread : Str)
      → get s.active_thread_by_chat chat ≡ some thread
      → contains s.bound_threads thread ≡ true

-- What an app may ask of the runtime: to start a session, or to pass a message to a bound thread.
abbrev pub Allowed : AppState → Action → Type 0
Allowed s (route target msg) =
    (thread : Str) × (target ≡ str (lit "thread:" ++ thread))
    × (contains s.bound_threads thread ≡ true)
Allowed s (invoke_command name params) = name ≡ str (lit "feishu-thread-session")
Allowed s _ = ⊥

-- The result of a branch: a well-formed state, in which the old threads are bound still, and at
-- most one action, which is allowed there.
pub record IsAnswer (s : AppState) (r : AppState × List Action) : Type 0 where
  pub bound : IsBound s → IsBound r.0
  pub kept :
      (thread : Str)
      → contains s.bound_threads thread ≡ true
      → contains r.0.bound_threads thread ≡ true
  pub allowed : All (Allowed r.0) r.1
  pub single : length r.1 ≤ 1

IsAnswer-silent : (s : AppState) → IsAnswer s (s, [])
IsAnswer-silent s = record { bound = λ b. b; kept = λ t h. h; allowed = tt; single = omega arith }

IsAnswer-to_thread :
    (s : AppState) (thread : Str) (args : Dict Value)
    → contains s.bound_threads thread ≡ true
    → IsAnswer s (s, to_thread thread args ∷ [])
IsAnswer-to_thread s thread args h = record {
  bound = λ b. b;
  kept = λ t k. k;
  allowed = ((thread, refl, h), tt);
  single = omega arith;
}

bind_thread-IsBound :
    (s : AppState) (chat name : Str) → IsBound s → IsBound (bind_thread s chat name)
unfolding with_added_thread with_active_thread
bind_thread-IsBound s chat name b = record {
  at_chat = λ c t e. ground (
    arith,
    contains-set_add s.bound_threads name t,
    get-put s.active_thread_by_chat chat c name,
    b.at_chat c t,
    eq_iff chat c,
    eq_refl name,
  );
}

bind_thread-kept :
    (s : AppState) (chat name t : Str)
    → contains s.bound_threads t ≡ true
    → contains (bind_thread s chat name).bound_threads t ≡ true
unfolding with_added_thread with_active_thread
bind_thread-kept s chat name t h = ground (arith, contains-set_add s.bound_threads name t)

module _ (repr : Value → Str) where
  IsAnswer-start_session :
      (s : AppState) (event : Event) (command : Str × Options)
      → IsAnswer s (start_session repr s event command)
  unfolding start_session
  IsAnswer-start_session s event (workspace, o) = elim (Bool-cases (nonempty workspace)) [
    | inl full ↦
        let chat : Str = arg repr event (lit "chat_id") in
        let name : Str = session_name o.name (arg repr event (lit "message_id")) in
        rw full (record {
          bound = bind_thread-IsBound s chat name;
          kept = bind_thread-kept s chat name;
          allowed = (refl, tt);
          single = omega arith;
        })
    | inr empty ↦ rw empty (IsAnswer-silent s)
  ]

  IsAnswer-new_session :
      (s : AppState) (event : Event) (content prefix workspace : Str)
      → IsAnswer s (handle_new_session repr s event content prefix workspace)
  unfolding handle_new_session
  IsAnswer-new_session s event content prefix workspace =
      elim (Bool-cases (nonempty (strip (drop (length prefix) content)))) [
        | inl full ↦ rw full (
            IsAnswer-start_session s event
              (read_command workspace (words (strip (drop (length prefix) content)))))
        | inr empty ↦ rw empty (IsAnswer-silent s)
      ]

IsAnswer-at_routed :
    (s : AppState) (event : Event) (content : Str) → IsAnswer s (handle_at_routed s event content)
unfolding handle_at_routed
IsAnswer-at_routed s event content = elim (Option-cases (cut b' ' (drop 1 content))) [
  | inl e ↦ rw e (IsAnswer-silent s)
  | inr ((tag, body), e) ↦ elim (Bool-cases (contains s.bound_threads tag)) [
    | inl known ↦
        rw (e, known) (IsAnswer-to_thread s tag (put event.args (lit "content") (str body)) known)
    | inr unknown ↦ rw (e, unknown) (IsAnswer-silent s)
  ]
]

IsAnswer-to_active :
    (s : AppState) (event : Event) (o : Option Str) → IsAnswer s (to_active s event o)
IsAnswer-to_active s event none = IsAnswer-silent s
IsAnswer-to_active s event (some t) = elim (Bool-cases (nonempty t && contains s.bound_threads t)) [
  | inl known ↦ rw known (IsAnswer-to_thread s t event.args (ground arith))
  | inr unknown ↦ rw unknown (IsAnswer-silent s)
]

IsAnswer-if :
    (s : AppState) (b : Bool) (r t : AppState × List Action)
    → IsAnswer s r
    → IsAnswer s t
    → IsAnswer s (if b then r else t)
IsAnswer-if s true r t h k = h
IsAnswer-if s false r t h k = k

IsAnswer-note_chat :
    (s : AppState) (chat : Str) (r : AppState × List Action)
    → IsAnswer (note_chat s chat) r
    → IsAnswer s r
unfolding with_last_chat_id
IsAnswer-note_chat s chat r a = elim (Bool-cases (nonempty chat && not (chat == s.last_chat_id))) [
  | inl new ↦
      let b : IsAnswer (record s { last_chat_id = chat }) r = rw new at a in
      record {
        bound = λ h. b.bound (record { at_chat = h.at_chat });
        kept = b.kept;
        allowed = b.allowed;
        single = b.single;
      }
  | inr old ↦ rw old at a
]

module _ (repr : Value → Str) where
  IsAnswer-dispatch :
      (s : AppState) (event : Event) (content chat : Str)
      → IsAnswer s (dispatch repr s event content chat)
  unfolding dispatch
  IsAnswer-dispatch s event content chat =
      IsAnswer-if s _ _ _ (IsAnswer-new_session repr s event content (lit "/new-session ") []) (
        IsAnswer-if s _ _ _
          (IsAnswer-new_session repr s event content (lit "/new-thread ") (lit "legacy"))
          (IsAnswer-if s _ _ _ (IsAnswer-at_routed s event content)
            (IsAnswer-to_active s event (get s.active_thread_by_chat chat))))

  on_msg-IsAnswer : (s : AppState) (event : Event) → IsAnswer s (on_msg repr s event)
  unfolding on_msg
  on_msg-IsAnswer s event =
      let chat : Str = arg repr event (lit "chat_id") in
      let content : Str = arg repr event (lit "content") in
      IsAnswer-if s (not (is_type event (lit "msg_received"))) (s, []) _ (IsAnswer-silent s)
        (IsAnswer-note_chat s chat _ (IsAnswer-dispatch (note_chat s chat) event content chat))

  -- If the active thread of every chat is bound, then it is so after any event.
  pub on_msg-IsBound : (s : AppState) (event : Event) → IsBound s → IsBound (on_msg repr s event).0
  on_msg-IsBound s event = (on_msg-IsAnswer s event).bound

  -- Whatever event an app handles, it causes at most one action, which starts a session or passes a
  -- message to a thread that is bound afterwards.
  pub on_msg-Allowed :
      (s : AppState) (event : Event)
      → All (Allowed (on_msg repr s event).0) (on_msg repr s event).1
        × (length (on_msg repr s event).1 ≤ 1)
  on_msg-Allowed s event = ((on_msg-IsAnswer s event).allowed, (on_msg-IsAnswer s event).single)

  -- A thread that is bound stays bound.
  pub on_msg-kept :
      (s : AppState) (event : Event) (thread : Str)
      → contains s.bound_threads thread ≡ true
      → contains (on_msg repr s event).0.bound_threads thread ≡ true
  on_msg-kept s event = (on_msg-IsAnswer s event).kept
