-- ===== src/Handlers/App.antt =====
-- handlers/feishu_app: `FeishuAppState` and the handler `on_msg` of an app, which starts sessions,
-- routes by `@tag` and by the chat's active thread.
pub mod Bound
pub mod Active
pub mod Routing
use esr.Base.{
  ℕ, Bool, true, false, not, ◌&&◌, Option, none, some, List, [], ◌∷◌, ◌++◌, Str, ◌==◌, lit,
  contains, Dict, get, put, drop, take, length, cut, starts_with, strip, words, if◌then◌else◌,
}
use esr.Value.{Value, str, nonempty, py_str, get_or, dict}
use esr.Actions.{Action, route, invoke_command, Event}
use esr.Handlers.Thread.{set_add, arg, is_type}

pub record AppState : Type 0 where
  pub app_id : Str
  pub bound_threads : List Str
  pub active_thread_by_chat : Dict Str
  pub last_chat_id : Str

unfoldable pub with_added_thread : AppState → Str → AppState
with_added_thread s thread_id = record s { bound_threads = set_add s.bound_threads thread_id }

unfoldable pub with_active_thread : AppState → Str → Str → AppState
with_active_thread s chat_id thread_id = record s {
  active_thread_by_chat = put s.active_thread_by_chat chat_id thread_id;
}

unfoldable pub with_last_chat_id : AppState → Str → AppState
with_last_chat_id s chat_id = record s { last_chat_id = chat_id }

-- The arguments of a command.
pub record Options : Type 0 where
  pub name : Str
  pub cwd : Str
  pub worktree : Str

abbrev pub no_options : Options
no_options = record { name = []; cwd = []; worktree = [] }

unfoldable pub read_option : Options → Str → Options
read_option o p =
    if starts_with p (lit "name=")
    then record o { name = drop 5 p }
    else if starts_with p (lit "cwd=")
    then record o { cwd = drop 4 p }
    else if starts_with p (lit "worktree=")
    then record o { worktree = drop (length (lit "worktree=")) p }
    else if starts_with p (lit "tag=")
    then (if not (nonempty o.name) then record o { name = drop 4 p } else o)
    else o

unfoldable pub read_options : Options → List Str → Options
read_options o [] = o
read_options o (p ∷ ps) = read_options (read_option o p) ps

-- The workspace, and the arguments: those of `/new-thread` if there is a default workspace.
unfoldable pub read_command : Str → List Str → Str × Options
read_command default_workspace parts =
    if nonempty default_workspace
    then elim parts [
      | [] ↦ ([], no_options)
      | p ∷ ps ↦ (default_workspace, record no_options { name = p })
    ]
    else elim parts [ [] ↦ ([], no_options) | p ∷ ps ↦ (p, read_options no_options ps) ]

abbrev pub after_underscore : Str → Option (Str × Str) → Str
after_underscore mid none = mid
after_underscore mid (some (_, slug)) = slug

abbrev pub or_text : Str → Str → Str
or_text [] t = t
or_text (c ∷ s) t = c ∷ s

-- The name of a session, by default a short slug of the message id.
unfoldable pub session_name : Str → Str → Str
session_name name mid =
    or_text name (or_text (take 12 (after_underscore mid (cut b'_' mid))) (lit "sess"))

abbrev pub bind_thread : AppState → Str → Str → AppState
bind_thread s chat_id name =
    let added = with_added_thread s name in
    if nonempty chat_id then with_active_thread added chat_id name else added

-- A message that goes on to a thread.
abbrev pub to_thread : Str → Dict Value → Action
to_thread thread_id args =
    route (str (lit "thread:" ++ thread_id))
      (dict ((lit "event_type", str (lit "msg_received")) ∷ (lit "args", dict args) ∷ []))

abbrev pub at_parts : AppState → Event → Option (Str × Str) → AppState × List Action
at_parts s event none = (s, [])
at_parts s event (some (tag, body)) =
    if not (contains s.bound_threads tag)
    then (s, [])
    else (s, to_thread tag (put event.args (lit "content") (str body)) ∷ [])

unfoldable pub handle_at_routed : AppState → Event → Str → AppState × List Action
handle_at_routed s event content = at_parts s event (cut b' ' (drop 1 content))

abbrev pub to_active : AppState → Event → Option Str → AppState × List Action
to_active s event none = (s, [])
to_active s event (some thread_id) =
    if nonempty thread_id && contains s.bound_threads thread_id
    then (s, to_thread thread_id event.args ∷ [])
    else (s, [])

abbrev pub note_chat : AppState → Str → AppState
note_chat s chat_id =
    if nonempty chat_id && not (chat_id == s.last_chat_id) then with_last_chat_id s chat_id else s

module _ (repr : Value → Str) where
  abbrev pub session_params : Event → Str → Options → Str → Dict Value
  session_params event workspace o name =
      ((lit "thread_id", str name)
        ∷ (lit "chat_id", str (arg repr event (lit "chat_id")))
        ∷ (lit "workspace", str workspace)
        ∷ (lit "tag", str name)
        ∷ (lit "name", str name)
        ∷ (lit "cwd", str o.cwd)
        ∷ (lit "worktree", str o.worktree)
        ∷ [])

  abbrev pub session_command : Event → Str → Options → Str → Action
  session_command event workspace o name =
      invoke_command (str (lit "feishu-thread-session")) (session_params event workspace o name)

  unfoldable pub start_session : AppState → Event → Str × Options → AppState × List Action
  start_session s event (workspace, o) =
      if not (nonempty workspace)
      then (s, [])
      else let name = session_name o.name (arg repr event (lit "message_id")) in
        (
          bind_thread s (arg repr event (lit "chat_id")) name,
          session_command event workspace o name ∷ [],
        )

  unfoldable pub handle_new_session :
      AppState → Event → (content prefix default_workspace : Str) → AppState × List Action
  handle_new_session s event content prefix default_workspace =
      let body = strip (drop (length prefix) content) in
      if not (nonempty body)
      then (s, [])
      else start_session s event (read_command default_workspace (words body))

  -- The branches on the content.
  unfoldable pub dispatch : AppState → Event → (content chat_id : Str) → AppState × List Action
  dispatch s event content chat_id =
      if starts_with content (lit "/new-session ")
      then handle_new_session s event content (lit "/new-session ") []
      else if starts_with content (lit "/new-thread ")
      then handle_new_session s event content (lit "/new-thread ") (lit "legacy")
      else if starts_with content (lit "@")
      then handle_at_routed s event content
      else to_active s event (get s.active_thread_by_chat chat_id)

  unfoldable pub on_msg : AppState → Event → AppState × List Action
  on_msg s event =
      if not (is_type event (lit "msg_received"))
      then (s, [])
      else let chat_id = arg repr event (lit "chat_id") in
        dispatch (note_chat s chat_id) event (arg repr event (lit "content")) chat_id
