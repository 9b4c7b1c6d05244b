-- ===== src/Feishu/Messages.antt =====
-- The messages that come in through adapters/feishu/src/esr_feishu/adapter.py, and the map from chats
-- to workspaces. An object of the service's library is given by its attributes; `loads` is
-- `json.loads`.
pub mod Chats
pub mod Paths
use esr.Base.{
  Bool, true, false, ◌&&◌, not, Option, none, some, List, [], ◌∷◌, ◌++◌, Str, lit, Dict, get,
  contains, ◌==◌, if◌then◌else◌,
}
use esr.Base.Result.{Result, ok, err, Exc, value_error, type_error, attribute_error, ◌>>=◌}
use esr.Value.{Value, null, str, arr, obj, dict, fields, value_get, get_or, or_else, truthy}
use esr.Adapters.{AdapterConfig, attribute}
use esr.Workspaces.{Workspace, read_workspaces}
use esr.Feishu.Parsers.{is_text}
use esr.Feishu.Inbound.{is_downloadable, or_empty, file_args}

-- `(chat_id, app_id) → workspace_name`
abbrev pub WorkspaceMap : Type 0
WorkspaceMap = List ((Str × Str) × Str)

abbrev pub same_key : Str × Str → Str × Str → Bool
same_key a b = a.0 == b.0 && a.1 == b.1

unfoldable pub map_get : WorkspaceMap → Str × Str → Option Str
unfolding ◌==◌
map_get [] k = none
map_get ((j, name) ∷ m) k = if same_key j k then some name else map_get m k

unfoldable pub map_put : WorkspaceMap → Str × Str → Str → WorkspaceMap
unfolding ◌==◌
map_put [] k name = (k, name) ∷ []
map_put ((j, old) ∷ m) k name = if same_key j k then (j, name) ∷ m else (j, old) ∷ map_put m k name

-- A chat is put in if both of its identifiers are texts.
abbrev pub put_chat : WorkspaceMap → (chat_id app_id : Value) → (name : Str) → WorkspaceMap
put_chat m (str chat_id) (str app_id) name = map_put m (chat_id, app_id) name
put_chat m _ _ name = m

unfoldable pub add_chats : WorkspaceMap → (name : Str) → List Value → Result Exc WorkspaceMap
unfolding map_put
add_chats m name [] = ok m
add_chats m name (chat ∷ chats) = do
  chat_id ← value_get chat (lit "chat_id") null
  app_id ← value_get chat (lit "app_id") null
  add_chats (put_chat m chat_id app_id name) name chats

unfoldable pub add_workspaces : WorkspaceMap → Dict Workspace → Result Exc WorkspaceMap
unfolding add_chats
add_workspaces m [] = ok m
add_workspaces m ((key, ws) ∷ rest) = do
  more ← add_chats m ws.name ws.chats
  add_workspaces more rest

-- A table that could not be read makes an empty map.
abbrev pub map_of : Result Exc (Dict Workspace) → Result Exc WorkspaceMap
map_of (err e) = ok []
map_of (ok workspaces) = add_workspaces [] workspaces

-- `_load_workspace_map`, of the document that was read, or what reading it raised.
unfoldable pub load_workspace_map : Result Exc Value → Result Exc WorkspaceMap
unfolding add_workspaces
load_workspace_map doc = map_of (doc >>= read_workspaces)

-- `self._workspace_of.get((chat_id, app_id))`: a list and a dict are no keys.
abbrev name_or_null : Option Str → Value
name_or_null none = null
name_or_null (some name) = str name

unfoldable pub workspace_of : WorkspaceMap → (chat_id app_id : Value) → Result Exc Value
unfolding map_get
workspace_of m (arr vs) app_id = err type_error
workspace_of m (obj fs) app_id = err type_error
workspace_of m chat_id (arr vs) = err type_error
workspace_of m chat_id (obj fs) = err type_error
workspace_of m (str chat_id) (str app_id) = ok (name_or_null (map_get m (chat_id, app_id)))
workspace_of m _ _ = ok null

-- `getattr(x, name, default)` of an object, or of something else, which has no such attribute.
abbrev pub attr : Value → Str → (default : Value) → Value
attr (obj fs) name default = get_or (fields fs) name default
attr v name default = default

-- `getattr(x, name, "") or ""`
abbrev pub attr_text : Value → Str → Value
attr_text v name = or_else (attr v name (str [])) (str [])

-- `x.name`
abbrev pub required : Value → Str → Result Exc Value
required (obj fs) name = elim (get (fields fs) name) [ none ↦ err attribute_error | some v ↦ ok v ]
required v name = err attribute_error

-- The text of what was decoded, if it is a dict with one.
abbrev decoded_text : (raw_content parsed : Value) → Value
decoded_text raw_content (obj fs) = elim (get_or (fields fs) (lit "text") null) [
  | str t ↦ str t
  | _ ↦ raw_content
]
decoded_text raw_content _ = raw_content

abbrev text_or_raw : (raw_content : Value) → Result Exc Value → Result Exc Value
text_or_raw raw_content (err value_error) = ok raw_content
text_or_raw raw_content (err type_error) = ok raw_content
text_or_raw raw_content (err e) = err e
text_or_raw raw_content (ok parsed) = ok (decoded_text raw_content parsed)

-- What a message says of itself, before its content is read.
pub record Received : Type 0 where
  pub chat_id : Value
  pub message_id : Value
  pub raw_content : Value
  pub msg_type : Value
  pub sender_id : Value
  pub sender_type : Value
  pub thread_id : Value
  pub root_id : Value

module _ (loads : Value → Result Exc Value) where
  unfoldable pub extract_text : (raw_content msg_type : Value) → Result Exc Value
  unfolding ◌==◌
  extract_text raw_content msg_type =
      if not (truthy raw_content)
      then ok (str [])
      else if is_text msg_type (lit "text")
      then text_or_raw raw_content (loads raw_content)
      else ok raw_content

  module _ (actor_id : Str) (config : AdapterConfig) (workspaces : WorkspaceMap) where
    unfoldable pub build_msg_received_envelope :
        (args : Dict Value) → (sender_open_id : Value) → Result Exc (Dict Value)
    unfolding attribute
    build_msg_received_envelope args sender_open_id = do
      app_id ← attribute config (lit "app_id")
      workspace_name ←
          workspace_of workspaces (or_else (get_or args (lit "chat_id") null) (str [])) app_id
      ok (
          (lit "event_type", str (lit "msg_received"))
          ∷ (lit "args", dict args)
          ∷ (lit "principal_id", or_else sender_open_id null)
          ∷ (lit "workspace_name", workspace_name)
          ∷ [])

    -- The arguments that all three paths give to the event.
    abbrev pub common_args : Received → (content : Value) → Dict Value
    common_args r content =
        (lit "chat_id", r.chat_id)
        ∷ (lit "app_id", str actor_id)
        ∷ (lit "message_id", r.message_id)
        ∷ (lit "content", content)
        ∷ (lit "raw_content", r.raw_content)
        ∷ (lit "msg_type", r.msg_type)
        ∷ (lit "sender_id", r.sender_id)
        ∷ (lit "sender_type", r.sender_type)
        ∷ (lit "thread_id", r.thread_id)
        ∷ (lit "root_id", r.root_id)
        ∷ []

    -- The event of a message, on the two paths to the live service.
    unfoldable pub live_event : Received → Result Exc (Dict Value)
    live_event r = do
      content ← extract_text r.raw_content r.msg_type
      build_msg_received_envelope (common_args r content) r.sender_id

    -- `_handle_receive`, up to the queue: an exception is passed over.
    unfoldable pub receive : (received : Value) → Result Exc Received
    receive x = do
      event ← required x (lit "event")
      message ← required event (lit "message")
      sender ← required event (lit "sender")
      ok (record {
        chat_id = attr_text message (lit "chat_id");
        message_id = attr_text message (lit "message_id");
        raw_content = attr_text message (lit "content");
        msg_type = attr_text message (lit "message_type");
        sender_id = attr_text (attr sender (lit "sender_id") null) (lit "open_id");
        sender_type = attr_text sender (lit "sender_type");
        thread_id = attr_text message (lit "thread_id");
        root_id = attr_text message (lit "root_id");
      })

    abbrev pub if_ok : Result Exc (Dict Value) → Option (Dict Value)
    if_ok (ok e) = some e
    if_ok (err raised) = none

    unfoldable pub handle_receive : (received : Value) → Option (Dict Value)
    handle_receive x = if_ok (receive x >>= live_event)

    -- `_message_to_envelope`
    unfoldable pub listed_message : (m : Value) → (chat_id : Value) → Received
    listed_message m chat_id =
        let body = attr m (lit "body") null in
        let sender = attr m (lit "sender") null in
        record {
          chat_id = chat_id;
          message_id = attr_text m (lit "message_id");
          raw_content = attr body (lit "content") (str []);
          msg_type = attr_text m (lit "msg_type");
          sender_id = attr_text (attr sender (lit "id") null) (lit "open_id");
          sender_type = attr sender (lit "sender_type") (str []);
          thread_id = attr_text m (lit "thread_id");
          root_id = attr_text m (lit "root_id");
        }

    unfoldable pub message_to_envelope : (m : Value) → (chat_id : Value) → Result Exc (Dict Value)
    message_to_envelope m chat_id = live_event (listed_message m chat_id)

    -- A frame of the local stand-in, from which `_emit_events_mock` takes what a message says.
    unfoldable pub mock_received : (envelope : Value) → Result Exc Received
    mock_received envelope = do
      given_event ← value_get envelope (lit "event") null
      let event = or_else given_event (dict [])
      given_message ← value_get event (lit "message") null
      given_sender ← value_get event (lit "sender") null
      let message = or_else given_message (dict [])
      let sender = or_else given_sender (dict [])
      given_id ← value_get sender (lit "sender_id") null
      raw_content ← value_get message (lit "content") (str [])
      msg_type ← value_get message (lit "message_type") (str [])
      open_id ← value_get (or_else given_id (dict [])) (lit "open_id") (str [])
      chat_id ← value_get message (lit "chat_id") (str [])
      message_id ← value_get message (lit "message_id") (str [])
      sender_type ← value_get sender (lit "sender_type") (str [])
      thread_id ← value_get message (lit "thread_id") (str [])
      root_id ← value_get message (lit "root_id") (str [])
      ok (record {
        chat_id = or_else chat_id (str []);
        message_id = message_id;
        raw_content = raw_content;
        msg_type = msg_type;
        sender_id = or_else open_id (str []);
        sender_type = sender_type;
        thread_id = thread_id;
        root_id = root_id;
      })

    -- The key and the name of a file, where the type is in the set of those that have one: a list and
    -- a dict are in no set.
    abbrev pub mock_files : (repr : Value → Str) → Received → Result Exc (Dict Value)
    mock_files repr r = elim (is_downloadable r.msg_type) [
      | false ↦ (elim r.msg_type [ arr vs ↦ err type_error | obj fs ↦ err type_error | _ ↦ ok [] ])
      | true ↦ (or_empty (loads r.raw_content) >>= file_args repr loads r.msg_type)
    ]

    unfoldable pub mock_event : (repr : Value → Str) → (envelope : Value) → Result Exc (Dict Value)
    mock_event repr envelope = do
      r ← mock_received envelope
      content ← extract_text r.raw_content r.msg_type
      more ← mock_files repr r
      build_msg_received_envelope (common_args r content ++ more) r.sender_id
