-- ===== src/Tests/Feishus.antt =====
-- The adapter of the chat service at concrete inputs. The world is the number of requests made.
use esr.Base.{
  List, ℕ, zero, suc, ◌≤◌, ◌<◌, ◌≡◌, refl, true, false, not, ◌&&◌, ◌||◌, none, some, [], ◌∷◌, ◌++◌,
  ◌==◌, Str, lit, Dict, get, contains, All, Distinct, length, starts_with, has,
}
use esr.Base.Result.{Result, ok, Exc, ◌>>=◌}
use esr.Decimal.{pos}
use esr.Value.{list, nonempty, Value, Fields, null, bool, int, str, dict, to_fields, get_or, truthy}
use esr.Value.Access.{index, index_dict}
use esr.Adapters.{AdapterConfig, getattr}
use esr.Feishu.Inbound.{parse_msg_received, is_downloadable}
use esr.Feishu.Inbound.Files.{parse_msg_received_total}
use esr.Feishu.Retry.{
  Outcome, error_ack, with_ratelimit_retry, within, total, retry_deadline,
  with_ratelimit_retry-within,
}
use esr.Feishu.Services.{Io, Services, Files, Response, HttpReply, answered, local_url}
use esr.Feishu.Download.{on_directive}
use esr.Feishu.Effects.{retried, on_directive-within, send_file_refuses}
use esr.Workspaces.{Workspace, read_workspaces}
use esr.Feishu.Messages.Chats.{last_workspace, load_workspace_map_lem}
use esr.Feishu.Messages.{
  WorkspaceMap, map_get, load_workspace_map, Received, live_event, receive, mock_event,
}
use esr.Feishu.Messages.Paths.{Sent, frame, says, mock_event-frame}
use esr.Feishu.Stream.{
  text, untyped, closed, failed, Connection, relay, emit_events_mock, emit_events_mock_lem,
}
use esr.Feishu.Poll.{polls, start}
use esr.Feishu.Poll.Once.{ids, listed, polls_once}

abbrev no_repr : Value → Str
no_repr v = []

-- Every text decodes to a dict without items.
abbrev empty_loads : Value → Result Exc Value
empty_loads v = ok (dict [])

abbrev photo : Dict Value
photo =
    (
      lit "message",
      dict ((lit "message_type", str (lit "image")) ∷ (lit "content", str (lit "{}")) ∷ []),
    )
    ∷ (lit "sender", dict ((lit "sender_id", dict ((lit "open_id", str (lit "ou_1")) ∷ [])) ∷ []))
    ∷ []

abbrev photo_message : Fields
photo_message =
    to_fields ((lit "message_type", str (lit "image")) ∷ (lit "content", str (lit "{}")) ∷ [])

abbrev photo_sender : Fields
photo_sender = to_fields ((lit "sender_id", dict ((lit "open_id", str (lit "ou_1")) ∷ [])) ∷ [])

parse_msg_received_total_example :
    (args : Dict Value) × (parse_msg_received no_repr empty_loads photo
      ≡ ok ((lit "event_type", str (lit "msg_received")) ∷ (lit "args", dict args) ∷ []))
    × ((not (is_downloadable (str (lit "image"))) || truthy (get_or args (lit "file_name") null))
        ≡ true)
unfolding get ◌==◌ truthy
parse_msg_received_total_example =
    parse_msg_received_total no_repr empty_loads photo photo_message photo_sender (to_fields [])
      (lit "image") refl refl refl refl

abbrev reaction : Dict Value
reaction = (lit "message_id", str (lit "om_1")) ∷ []

-- The service refuses the first two requests for their rate.
abbrev accepted_response : Response
accepted_response = record {
  success = true;
  attributes = [];
  data_attributes = (lit "message_id", str (lit "om_2")) ∷ [];
  item_ids = [];
  file = lit "bytes";
}

abbrev busy_response : Response
busy_response = record {
  success = false;
  attributes = (lit "msg", str (lit "too many")) ∷ (lit "code", int (pos 429)) ∷ [];
  data_attributes = [];
  item_ids = [];
  file = [];
}

abbrev answer_at : ℕ → Response
answer_at zero = busy_response
answer_at (suc zero) = busy_response
answer_at (suc (suc n)) = accepted_response

abbrev services : Services ℕ
services = record {
  lark = λ request n. (ok (answer_at n), suc n);
  http = λ request n. (ok (answered (dict [])), suc n);
  describe = λ e. record { type = lit "KeyError"; message = [] };
  dumps = λ v. [];
  float_eq = λ r i. false;
  repr = no_repr;
  b64decode = λ v. ok (lit "bytes");
  b64encode = λ s. s;
  sha256 = λ s. lit "digest";
}

abbrev files : Files ℕ
files = record {
  suffix = λ name. lit ".png";
  fetch = λ url n. (ok none, n);
  write_temp = λ suffix bytes n. (ok (lit "/tmp/a.png"), suc n);
  store = λ type path meta n. (ok (ok (dict [])), suc n);
  unlink = λ path n. suc n;
}

abbrev config : AdapterConfig
config = (lit "app_id", str (lit "cli_1")) ∷ []

abbrev try_once : ℕ → Outcome × ℕ
try_once n = (ok ((lit "ok", bool false) ∷ (lit "code", int (pos 429)) ∷ []), suc n)

with_ratelimit_retry-within_example :
    ((
      (with_ratelimit_retry services.float_eq try_once 0).answer,
      (with_ratelimit_retry services.float_eq try_once 0).after,
    )
      ≡ within services.float_eq try_once 5 0)
    × (length (with_ratelimit_retry services.float_eq try_once 0).sleeps < 5)
    × (total services.float_eq try_once (with_ratelimit_retry services.float_eq try_once 0).sleeps
        ≤ retry_deadline)
with_ratelimit_retry-within_example = with_ratelimit_retry-within services.float_eq try_once 0

abbrev message_args : Value
message_args = dict ((lit "chat_id", str (lit "oc_1")) ∷ (lit "content", str (lit "hi")) ∷ [])

on_directive-within_example :
    All
      (λ c.
        on_directive services files (lit "app") config (str c.0) message_args 0
        ≡ within services.float_eq (c.1 message_args) 5 0)
      (retried services files (lit "app") config)
unfolding getattr has ◌==◌ get truthy starts_with esr.Feishu.Services.is_local
on_directive-within_example =
    on_directive-within services files (lit "app") config message_args 0 refl

abbrev file_args_of : Value
file_args_of = dict (
    (lit "chat_id", str (lit "oc_1"))
    ∷ (lit "file_name", str (lit "a.txt"))
    ∷ (lit "content_b64", str (lit "Yg=="))
    ∷ (lit "sha256", str (lit "other"))
    ∷ [])

send_file_refuses_example :
    (error : Str) × (on_directive services files
        (lit "app")
        config
        (str (lit "send_file"))
        file_args_of
        0
      ≡ (ok (error_ack error), 0))
unfolding index get ◌==◌ index_dict
send_file_refuses_example =
    send_file_refuses services files (lit "app") config file_args_of (str (lit "oc_1"))
      (str (lit "a.txt")) (str (lit "Yg==")) (str (lit "other")) 0 refl refl refl refl refl

abbrev download_args : Value
download_args = dict (
    (lit "msg_id", str (lit "om_1"))
    ∷ (lit "file_key", str (lit "k1"))
    ∷ (lit "file_name", str (lit "a.png"))
    ∷ (lit "msg_type", str (lit "image"))
    ∷ [])

abbrev said_hi : Sent
said_hi = record {
  chat_id = lit "oc_1";
  message_id = lit "om_1";
  content = lit "{}";
  message_type = lit "text";
  open_id = lit "ou_1";
  sender_type = lit "user";
  thread_id = [];
  root_id = [];
}

mock_event-frame_example : mock_event empty_loads (lit "app") config [] no_repr (frame said_hi) ≡ (
    receive empty_loads (lit "app") config [] (frame said_hi)
    >>= live_event empty_loads (lit "app") config [])
unfolding contains ◌==◌
mock_event-frame_example = mock_event-frame empty_loads (lit "app") config [] no_repr said_hi refl

-- An image, as the live path reports it.
abbrev an_image : Received
an_image = says (record said_hi { message_type = lit "image" })

abbrev image_event : Dict Value
image_event =
    (lit "event_type", str (lit "msg_received"))
    ∷ (
      lit "args",
      dict (
          (lit "chat_id", str (lit "oc_1"))
          ∷ (lit "app_id", str (lit "app"))
          ∷ (lit "message_id", str (lit "om_1"))
          ∷ (lit "content", str (lit "{}"))
          ∷ (lit "raw_content", str (lit "{}"))
          ∷ (lit "msg_type", str (lit "image"))
          ∷ (lit "sender_id", str (lit "ou_1"))
          ∷ (lit "sender_type", str (lit "user"))
          ∷ (lit "thread_id", str [])
          ∷ (lit "root_id", str [])
          ∷ []),
    )
    ∷ (lit "principal_id", str (lit "ou_1"))
    ∷ (lit "workspace_name", null)
    ∷ []

abbrev message : Str → Value
message id = dict ((lit "message_id", str id) ∷ [])

polls_once_example :
    Distinct (
      ids (
        polls start (
          (none ∷ [])
          ++ some (message (lit "a") ∷ [])
            ∷ some (message (lit "b") ∷ message (lit "a") ∷ [])
            ∷ [])))
    × ((x : Str)
        → contains
            (ids (
              polls start (
                (none ∷ [])
                ++ some (message (lit "a") ∷ [])
                  ∷ some (message (lit "b") ∷ message (lit "a") ∷ [])
                  ∷ [])))
            x
          ≡ (nonempty x
              && listed (some (message (lit "b") ∷ message (lit "a") ∷ []) ∷ []) x
              && not (contains (ids (message (lit "a") ∷ [])) x)))
polls_once_example =
    polls_once (none ∷ []) (message (lit "a")) []
      (some (message (lit "b") ∷ message (lit "a") ∷ []) ∷ []) (tt, tt)

abbrev frame_loads : Value → Result Exc Value
frame_loads v = ok (frame said_hi)

abbrev two_connections : List Connection
two_connections =
    record { messages = text (lit "a") ∷ untyped ∷ []; ending = failed }
    ∷ record { messages = text (lit "b") ∷ []; ending = closed }
    ∷ []

emit_events_mock_lem_example :
    ((emit_events_mock frame_loads (lit "app") config [] no_repr two_connections).events
      ≡ (relay frame_loads
          (lit "app")
          config
          []
          no_repr
          (text (lit "a") ∷ untyped ∷ text (lit "b") ∷ [])).events)
    × ((emit_events_mock frame_loads (lit "app") config [] no_repr two_connections).raised
        ≡ (relay frame_loads
            (lit "app")
            config
            []
            no_repr
            (text (lit "a") ∷ untyped ∷ text (lit "b") ∷ [])).raised)
    × ((emit_events_mock frame_loads (lit "app") config [] no_repr two_connections).raised ≡ none
        → (emit_events_mock frame_loads (lit "app") config [] no_repr two_connections).pauses ≡ 1)
emit_events_mock_lem_example =
    emit_events_mock_lem frame_loads (lit "app") config [] no_repr two_connections

abbrev a_chat : Value
a_chat = dict ((lit "chat_id", str (lit "oc_1")) ∷ (lit "app_id", str (lit "cli_1")) ∷ [])

abbrev chat_table : Value
chat_table = dict (
    (lit "workspaces", dict ((lit "dev", dict ((lit "chats", list (a_chat ∷ [])) ∷ [])) ∷ [])) ∷ [])

abbrev dev : Workspace
dev = record {
  name = lit "dev";
  owner = null;
  start_cmd = str [];
  role = str (lit "dev");
  chats = a_chat ∷ [];
  env = [];
}

load_workspace_map_lem_example :
    (m : WorkspaceMap) × (load_workspace_map (ok chat_table) ≡ ok m)
    × ((k : Str × Str) → map_get m k ≡ last_workspace ((lit "dev", dev) ∷ []) k none)
unfolding read_workspaces get esr.Value.value_get truthy esr.Workspaces.read_row esr.Value.iter
    esr.Value.Access.dict_of esr.Base.put
load_workspace_map_lem_example =
    load_workspace_map_lem (ok chat_table) ((lit "dev", dev) ∷ []) refl (
      (
        (
          to_fields ((lit "chat_id", str (lit "oc_1")) ∷ (lit "app_id", str (lit "cli_1")) ∷ []),
          refl,
        ),
        tt,
      ),
      tt,
    )
