-- ===== src/Feishu/Inbound.antt =====
-- The second half of adapters/feishu/src/esr_feishu/parsers.py: the events of the service's socket as
-- the events of the adapter. `loads` is `json.loads`, of any value.
pub mod Files
use esr.Base.{
  Bool, true, false, ◌||◌, Option, none, some, List, [], ◌∷◌, ◌++◌, Str, lit, Dict, contains, ◌==◌,
  if◌then◌else◌,
}
use esr.Base.Result.{Result, ok, err, Exc, value_error, type_error, ◌>>=◌}
use esr.Value.{Value, null, str, obj, dict, fields, value_get, get_or, or_else, truthy}
use esr.Feishu.Parsers.{parse_content, shown, is_text}

-- The types that can be downloaded.
abbrev pub downloadable : List Str
downloadable = lit "image" ∷ lit "file" ∷ lit "audio" ∷ lit "media" ∷ []

abbrev pub is_downloadable : Value → Bool
is_downloadable (str t) = contains downloadable t
is_downloadable _ = false

-- `except (ValueError, TypeError)`
abbrev pub or_empty : Result Exc Value → Result Exc Value
or_empty (err value_error) = ok (dict [])
or_empty (err type_error) = ok (dict [])
or_empty r = r

module _ (repr : Value → Str) (loads : Value → Result Exc Value) where
  abbrev pub sender_of : (sender sender_id_field : Value) → Result Exc Value
  sender_of sender (obj fs) = ok (get_or (fields fs) (lit "open_id") (str []))
  sender_of sender _ = do
    open_id ← value_get sender (lit "open_id") (str [])
    ok (str (shown repr open_id))

  -- The name of a file that came without one.
  abbrev pub default_name : (msg_type file_key : Value) → Value
  default_name msg_type file_key =
      if is_text msg_type (lit "image")
      then (if truthy file_key
          then str (shown repr file_key ++ (lit ".png"))
          else str (lit "unknown.png"))
      else or_else file_key (str (lit "unknown"))

  -- The key and the name of the file that the content names.
  unfoldable pub file_args : (msg_type content : Value) → Result Exc (Dict Value)
  unfolding ◌==◌
  file_args msg_type content = do
    image_key ← value_get content (lit "image_key") null
    other_key ← value_get content (lit "file_key") null
    given_name ← value_get content (lit "file_name") null
    let file_key = or_else (or_else image_key other_key) (str [])
    let file_name = if truthy given_name then given_name else default_name msg_type file_key
    ok ((lit "file_key", file_key) ∷ (lit "file_name", file_name) ∷ [])

  abbrev pub more_args : (msg_type content : Value) → Result Exc (Dict Value)
  more_args msg_type content = elim (is_downloadable msg_type) [
    | true ↦ file_args msg_type content
    | false ↦ ok []
  ]

  abbrev pub content_of : Value → Result Exc Value
  content_of content_str =
      or_empty (elim (truthy content_str) [ true ↦ loads content_str | false ↦ ok (dict []) ])

  abbrev pub args_of :
      (msg_id chat_id msg_type : Value) (text : Str) (sender_id content : Value)
      → Dict Value
      → Dict Value
  args_of msg_id chat_id msg_type text sender_id content more =
      (lit "msg_id", msg_id)
      ∷ (lit "chat_id", chat_id)
      ∷ (lit "msg_type", msg_type)
      ∷ (lit "text", str text)
      ∷ (lit "sender_id", sender_id)
      ∷ (lit "content", content)
      ∷ more

  -- The arguments of the event `msg_received`.
  unfoldable pub msg_received_args : Dict Value → Result Exc (Dict Value)
  msg_received_args raw = do
    let message = or_else (get_or raw (lit "message") null) (dict [])
    message_type ← value_get message (lit "message_type") null
    old_type ← value_get message (lit "msg_type") null
    let msg_type = or_else (or_else message_type old_type) (str (lit "unknown"))
    content_str ← value_get message (lit "content") (str [])
    content ← content_of content_str
    text ← parse_content repr msg_type content
    chat_id ← value_get message (lit "chat_id") (str [])
    msg_id ← value_get message (lit "message_id") (str [])
    let sender = or_else (get_or raw (lit "sender") null) (dict [])
    sender_id_field ← value_get sender (lit "sender_id") null
    sender_id ← sender_of sender sender_id_field
    more ← more_args msg_type content
    ok (args_of msg_id chat_id msg_type text sender_id content more)

  unfoldable pub parse_msg_received : Dict Value → Result Exc (Dict Value)
  parse_msg_received raw = do
    args ← msg_received_args raw
    ok ((lit "event_type", str (lit "msg_received")) ∷ (lit "args", dict args) ∷ [])

  abbrev pub part_of : Value → Str → Value
  part_of (obj fs) k = get_or (fields fs) k (str [])
  part_of _ k = str []

  unfoldable pub reaction_args : Dict Value → Dict Value
  reaction_args raw =
      let operator =
        or_else (or_else (get_or raw (lit "operator_id") null) (get_or raw (lit "user_id") null))
          (dict []) in
      (lit "msg_id", get_or raw (lit "message_id") (str []))
      ∷ (lit "emoji_type", part_of (get_or raw (lit "reaction_type") (dict [])) (lit "emoji_type"))
      ∷ (lit "operator_id", part_of operator (lit "open_id"))
      ∷ []

  unfoldable pub parse_reaction_created : Dict Value → Dict Value
  parse_reaction_created raw =
      (lit "event_type", str (lit "reaction_added")) ∷ (lit "args", dict (reaction_args raw)) ∷ []

  unfoldable pub parse_ws_event : Str → Dict Value → Result Exc (Option (Dict Value))
  unfolding ◌==◌
  parse_ws_event event_name raw =
      if event_name == lit "P2ImMessageReceiveV1"
      then (parse_msg_received raw >>= λ e. ok (some e))
      else if event_name == lit "P2ImMessageReactionCreatedV1"
      then ok (some (parse_reaction_created raw))
      else ok none
