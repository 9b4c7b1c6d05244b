-- ===== src/Feishu/Messages/Paths.antt =====
-- The live path and that of the local stand-in, compared.
use esr.Base.{◌≡◌, refl, sym, ap, false, none, some, [], ◌∷◌, Str, lit, Dict, get, contains, ◌==◌}
use esr.Base.Result.{Result, ok, Exc, ◌>>=◌, >>=-eq-ok, ok_inj}
use esr.Value.{value_get, truthy, Value, str, dict, or_else}
use esr.Adapters.{AdapterConfig, attribute}
use esr.Feishu.Inbound.{downloadable}
use esr.Feishu.Messages.{
  workspace_of, WorkspaceMap, Received, extract_text, build_msg_received_envelope, common_args,
  live_event, receive, mock_received, mock_files, mock_event,
}

-- A message of texts, and its frame on both paths.
pub record Sent : Type 0 where
  pub chat_id : Str
  pub message_id : Str
  pub content : Str
  pub message_type : Str
  pub open_id : Str
  pub sender_type : Str
  pub thread_id : Str
  pub root_id : Str

abbrev pub frame : Sent → Value
frame s = dict (
    (
      lit "event",
      dict (
          (
            lit "message",
            dict (
                (lit "chat_id", str s.chat_id)
                ∷ (lit "message_id", str s.message_id)
                ∷ (lit "content", str s.content)
                ∷ (lit "message_type", str s.message_type)
                ∷ (lit "thread_id", str s.thread_id)
                ∷ (lit "root_id", str s.root_id)
                ∷ []),
          )
          ∷ (
            lit "sender",
            dict (
                (lit "sender_id", dict ((lit "open_id", str s.open_id) ∷ []))
                ∷ (lit "sender_type", str s.sender_type)
                ∷ []),
          )
          ∷ []),
    )
    ∷ [])

abbrev pub says : Sent → Received
says s = record {
  chat_id = str s.chat_id;
  message_id = str s.message_id;
  raw_content = str s.content;
  msg_type = str s.message_type;
  sender_id = str s.open_id;
  sender_type = str s.sender_type;
  thread_id = str s.thread_id;
  root_id = str s.root_id;
}

or_else_text : (s : Str) → or_else (str s) (str []) ≡ str s
unfolding truthy
or_else_text [] = refl
or_else_text (c ∷ s) = refl

module _ (loads : Value → Result Exc Value) (actor_id : Str) (config : AdapterConfig)
    (workspaces : WorkspaceMap) where
  receive-frame : (s : Sent) → receive loads actor_id config workspaces (frame s) ≡ ok (says s)
  unfolding receive get ◌==◌
  receive-frame s =
      rw
        (
          or_else_text s.chat_id,
          or_else_text s.message_id,
          or_else_text s.content,
          or_else_text s.message_type,
          or_else_text s.open_id,
          or_else_text s.sender_type,
          or_else_text s.thread_id,
          or_else_text s.root_id,
        )
        refl

  mock_received-frame :
      (s : Sent) → mock_received loads actor_id config workspaces (frame s) ≡ ok (says s)
  unfolding mock_received get ◌==◌ value_get truthy
  mock_received-frame s = rw (or_else_text s.chat_id, or_else_text s.open_id) refl

  -- A message of texts whose type is none of those that can be downloaded makes the same event on
  -- the path of the local stand-in as on the live path.
  pub mock_event-frame :
      (repr : Value → Str) (s : Sent)
      → contains downloadable s.message_type ≡ false
      → mock_event loads actor_id config workspaces repr (frame s) ≡ (
          receive loads actor_id config workspaces (frame s)
          >>= live_event loads actor_id config workspaces)
  unfolding mock_event live_event
  mock_event-frame repr s plain =
      rw (mock_received-frame s, receive-frame s, mock_files, plain) refl

  -- No event of the live paths has a file's key or a file's name among its arguments, whatever the
  -- type of the message is.
  pub live_event_no_file :
      (r : Received) (event : Dict Value)
      → live_event loads actor_id config workspaces r ≡ ok event
      → (args : Dict Value) × (get event (lit "args") ≡ some (dict args))
        × (get args (lit "file_key") ≡ none)
        × (get args (lit "file_name") ≡ none)
  unfolding live_event build_msg_received_envelope get ◌==◌
  live_event_no_file r event e =
      let (content, extracted, built) =
        >>=-eq-ok (extract_text loads r.raw_content r.msg_type) _ e in
      let (app_id, configured, rest) = >>=-eq-ok (attribute config (lit "app_id")) _ built in
      let (workspace_name, looked_up, shape) =
        >>=-eq-ok (workspace_of workspaces (or_else r.chat_id (str [])) app_id) _ rest in
      let args = common_args loads actor_id config workspaces r content in
      (args, ap (λ d. get d (lit "args")) (sym (ok_inj shape)), refl, refl)
