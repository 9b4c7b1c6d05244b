-- ===== src/Bridge/Server.antt =====
-- The state and the list of tools of py/src/cc_channel_runner/mcp_server.py. The client is there or not;
-- `written` is the notifications that were written to the stream of the session, while it is open.
use esr.Base.{
  ◌≡◌, refl, Bool, true, false, ◌&&◌, Bool-cases, inl, inr, Option, none, some, List, [], ◌∷◌, ◌++◌,
  map, Str, ◌==◌, eq_iff, lit, contains, Dict, if◌then◌else◌, arith,
}
use esr.Base.Result.{Result, ok, Failure}
use esr.Value.{Value, str, dict, list}
use esr.Bridge.Notification.{Params}
use esr.Bridge.Receive.{Bridge}
use esr.Bridge.Tools.{dispatch_tool, call_tool}

pub record BridgeMcpServer : Type 0 where
  pub phx_client : Bool
  pub session_id : Option Str
  pub topic : Option Str
  pub write_stream : Bool
  pub written : List Params

-- `__init__`
abbrev pub new_server : BridgeMcpServer
new_server = record {
  phx_client = false;
  session_id = none;
  topic = none;
  write_stream = false;
  written = [];
}

abbrev pub set_phx_client : BridgeMcpServer → BridgeMcpServer
set_phx_client s = record s { phx_client = true }

abbrev pub set_session_id : BridgeMcpServer → (session_id : Str) → BridgeMcpServer
set_session_id s session_id = record s {
  session_id = some session_id;
  topic = some (lit "cli:channel/" ++ session_id);
}

-- The stream of `start`, from when it is open, and after it.
abbrev pub stream_opened : BridgeMcpServer → BridgeMcpServer
stream_opened s = record s { write_stream = true }

abbrev pub stream_closed : BridgeMcpServer → BridgeMcpServer
stream_closed s = record s { write_stream = false }

-- Without a stream a notification is dropped.
unfoldable pub send_channel_notification : BridgeMcpServer → Params → BridgeMcpServer
send_channel_notification s params =
    if s.write_stream then record s { written = s.written ++ params ∷ [] } else s

abbrev is_some : Option Str → Bool
is_some none = false
is_some (some s) = true

-- The guard of `_dispatch_tool`.
abbrev pub configured : BridgeMcpServer → Bool
configured s = s.phx_client && is_some s.topic

pub record Tool : Type 0 where
  pub name : Str
  pub description : Str
  pub input_schema : Dict Value

-- A property that is a text.
abbrev pub text_property : (description : Str) → Value
text_property description =
    dict ((lit "type", str (lit "string")) ∷ (lit "description", str description) ∷ [])

abbrev pub object_schema : (properties : Dict Value) → (required : List Str) → Dict Value
object_schema properties required =
    (lit "type", str (lit "object"))
    ∷ (lit "properties", dict properties)
    ∷ (lit "required", list (map (λ s. str s) required))
    ∷ []

abbrev pub reply_tool : Tool
reply_tool = record {
  name = lit "reply";
  description =
      lit
        "Send a message to a chat the channel adapter routes for. The user reads the channel (Feishu, etc.), not this CC session — anything the user must see goes through this tool. chat_id comes from the inbound <channel> tag.";
  input_schema =
      object_schema
        ((lit "chat_id", text_property (lit "Channel chat ID (e.g. Feishu oc_xxx)"))
          ∷ (lit "text", text_property (lit "Message text"))
          ∷ (
            lit "current_session_id",
            text_property (
                lit
                  "Optional. Session id from the inbound notification meta — used for multi-session-per-instance routing."),
          )
          ∷ [])
        (lit "chat_id" ∷ lit "text" ∷ []);
}

abbrev pub send_file_tool : Tool
send_file_tool = record {
  name = lit "send_file";
  description =
      lit
        "Send a local file to a channel chat. The adapter uploads it to the channel (Feishu, etc.) and posts it as an attachment.";
  input_schema =
      object_schema
        ((lit "chat_id", text_property (lit "Channel chat ID"))
          ∷ (lit "file_path", text_property (lit "Absolute path to the local file to send"))
          ∷ (lit "current_session_id", text_property (lit "Optional. Session id for routing."))
          ∷ [])
        (lit "chat_id" ∷ lit "file_path" ∷ []);
}

abbrev pub submit_slash_tool : Tool
submit_slash_tool = record {
  name = lit "submit_slash";
  description =
      lit
        "Submit a slash command to the ESR runtime as if the user had typed it. Output is delivered back via the channel.";
  input_schema =
      object_schema
        ((lit "command", text_property (lit "Full slash command including leading '/'"))
          ∷ (lit "chat_id", text_property (lit "Channel chat to route the response to"))
          ∷ (lit "current_session_id", text_property (lit "Optional. Session id for routing."))
          ∷ [])
        (lit "command" ∷ []);
}

-- `_TOOL_SCHEMAS`, which `_list_tools` returns.
abbrev pub tool_schemas : List Tool
tool_schemas = reply_tool ∷ send_file_tool ∷ submit_slash_tool ∷ []

eq_comm : (s t : Str) → (s == t) ≡ (t == s)
eq_comm s t = ground (arith, eq_iff s t, eq_iff t s)

module _ (repr dumps : Value → Str) where
  -- The calls of the tools in the list are dispatched, and no other: a call of any other name is answered
  -- by a text that says so, and leaves the bridge as it is.
  pub call_tool_lem :
      (b : Bridge) (s : BridgeMcpServer) (req_id name : Str)
      (push_ended : Result Failure (Dict Value)) (meanwhile later : List (Str × Dict Value))
      → call_tool repr dumps b (configured s) req_id name push_ended meanwhile later ≡ (
          if contains (map (λ t. t.name) tool_schemas) name
          then dispatch_tool repr dumps b (configured s) req_id name push_ended meanwhile later
          else (
            ok ((lit "{\"ok\": false, \"error\": \"unknown_tool: " ++ (name ++ lit "\"}")) ∷ []),
            b,
          ))
  unfolding call_tool contains
  call_tool_lem b s req_id name push_ended meanwhile later =
      rw
        (
          eq_comm (lit "reply") name,
          eq_comm (lit "send_file") name,
          eq_comm (lit "submit_slash") name,
        )
        (elim (Bool-cases (name == lit "reply")) [
          | inl first ↦ rw first
          | inr no_reply ↦ rw no_reply (elim (Bool-cases (name == lit "send_file")) [
            | inl second ↦ rw second
            | inr no_file ↦ rw no_file (elim (Bool-cases (name == lit "submit_slash")) [
              | inl third ↦ rw third
              | inr unknown ↦ rw unknown refl
            ])
          ])
        ])
