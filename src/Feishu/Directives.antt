-- ===== src/Feishu/Directives.antt =====
-- The directives of adapters/feishu/src/esr_feishu/adapter.py but for the download of files.
use esr.Base.{true, false, Option, none, some, List, [], ◌∷◌, ◌++◌, Str, lit, Dict}
use esr.Base.Result.{Result, ok, err, Exc}
use esr.Decimal.{pos}
use esr.Value.{Value, null, bool, int, str, dict, get_or, or_else, value_get, truthy}
use esr.Value.Access.{index}
use esr.Adapters.{AdapterConfig, getattr}
use esr.Feishu.Parsers.{shown, is_text}
use esr.Feishu.Retry.{error_ack}
use esr.Feishu.Services.{
  Io, ◌>>=◌, return, create_message, create_reaction, list_reactions, delete_reaction, create_pin,
  delete_pin, Response, HttpRequest, HttpReply, answered, unreachable, Services, lift_with,
  done_with, attribute_of, lark_failure, if_local, local_url,
}

abbrev pub Ack : Type 0
Ack = Dict Value

module _ {A : Type 0} (services : Services A) (actor_id : Str) (config : AdapterConfig) where
  abbrev lift : {X : Type 0} → Result Exc X → Io A X
  lift r = lift_with services.describe r

  -- `getattr(self._config, "base_url", "") or ""`
  abbrev pub base_url : Value
  base_url = or_else (getattr config (lit "base_url") (str [])) (str [])

  -- The text of a value in an f-string.
  abbrev text_of : Value → Str
  text_of v = shown services.repr v

  -- `{"ok": True, "result": data.get("data") or default}`
  abbrev from_reply : (failed : Str) → (default : Value) → HttpReply → Io A Ack
  from_reply failed default (unreachable text) = return (error_ack (failed ++ text))
  from_reply failed default (answered body) = lift (value_get body (lit "data") null) >>= λ result.
      return (done_with (or_else result default))

  abbrev request : (method url : Str) (body : Value) → HttpRequest
  request method url body = record { method = method; url = url; app_id = actor_id; body = body }

  abbrev pub messages_url : Str → Str
  messages_url url = url ++ lit "/open-apis/im/v1/messages?receive_id_type=chat_id"

  abbrev pub reactions_url : Str → (msg_id : Value) → Str
  reactions_url url msg_id =
      url ++ (lit "/open-apis/im/v1/messages/") ++ text_of msg_id ++ (lit "/reactions")

  unfoldable pub send_message_mock : Str → (chat_id content : Value) → Io A Ack
  send_message_mock url chat_id content =
      services.http (
        request (lit "POST") (messages_url url) (
          dict (
            (lit "receive_id", chat_id)
            ∷ (lit "msg_type", str (lit "text"))
            ∷ (lit "content", str (services.dumps (dict ((lit "text", content) ∷ []))))
            ∷ [])))
      >>= from_reply (lit "mock POST failed: ") (dict [])

  -- The answer of `message.create`.
  abbrev created : (default_msg : Str) → Response → Io A Ack
  created default_msg response = elim response.success [
    | true ↦ lift (attribute_of response.data_attributes (lit "message_id")) >>= λ id.
        return (done_with (dict ((lit "message_id", id) ∷ [])))
    | false ↦ return (lark_failure response default_msg)
  ]

  unfoldable pub send_message_live : (chat_id content : Value) → Io A Ack
  unfolding attribute_of lark_failure
  send_message_live chat_id content =
      services.lark
        (create_message chat_id (lit "text") (services.dumps (dict ((lit "text", content) ∷ []))))
      >>= created (lit "send failed")

  -- `isinstance(base_url, str)` and its test
  abbrev pub local_text : Value → Option Str
  local_text (str url) = if_local url
  local_text _ = none

  abbrev send_message_to : Option Str → (chat_id content : Value) → Io A Ack
  send_message_to (some url) chat_id content = send_message_mock url chat_id content
  send_message_to none chat_id content = send_message_live chat_id content

  unfoldable pub send_message : (args : Value) → Io A Ack
  send_message args = lift (index args (lit "chat_id")) >>= λ chat_id.
      lift (index args (lit "content")) >>= λ content.
      send_message_to (local_text (getattr config (lit "base_url") null)) chat_id content

  unfoldable pub react_mock : Str → (msg_id emoji_type : Value) → Io A Ack
  react_mock url msg_id emoji_type =
      services.http (
        request (lit "POST") (reactions_url url msg_id)
          (dict ((lit "reaction_type", dict ((lit "emoji_type", emoji_type) ∷ [])) ∷ [])))
      >>= from_reply (lit "mock react failed: ") (dict [])

  -- The answer of `message_reaction.create`.
  abbrev reacted : Response → Io A Ack
  reacted response = elim response.success [
    | true ↦ return (
        done_with (
          dict (
            (
              lit "reaction_id",
              or_else (get_or response.data_attributes (lit "reaction_id") null)
                  (get_or response.data_attributes (lit "message_id") (str [])),
            )
            ∷ [])))
    | false ↦ return (lark_failure response (lit "react failed"))
  ]

  unfoldable pub react_live : (msg_id emoji_type : Value) → Io A Ack
  unfolding lark_failure
  react_live msg_id emoji_type = services.lark (create_reaction msg_id emoji_type) >>= reacted

  abbrev react_to : Option Str → (msg_id emoji_type : Value) → Io A Ack
  react_to (some url) msg_id emoji_type = react_mock url msg_id emoji_type
  react_to none msg_id emoji_type = react_live msg_id emoji_type

  unfoldable pub react : (args : Value) → Io A Ack
  react args = lift (index args (lit "msg_id")) >>= λ msg_id.
      lift (index args (lit "emoji_type")) >>= λ emoji_type.
      lift (local_url base_url) >>= λ local. react_to local msg_id emoji_type

  unfoldable pub un_react_mock : Str → (msg_id emoji_type : Value) → Io A Ack
  un_react_mock url msg_id emoji_type =
      services.http (
        request (lit "DELETE") (reactions_url url msg_id)
          (dict ((lit "reaction_type", dict ((lit "emoji_type", emoji_type) ∷ [])) ∷ [])))
      >>= from_reply (lit "mock un_react failed: ") (dict [])

  abbrev deleted : (reaction_id : Value) → Response → Io A Ack
  deleted reaction_id response = elim response.success [
    | true ↦
        return
          (done_with (dict ((lit "deleted", int (pos 1)) ∷ (lit "reaction_id", reaction_id) ∷ [])))
    | false ↦ return (lark_failure response (lit "un_react delete failed"))
  ]

  -- The first reaction that is listed is deleted.
  abbrev delete_first : (msg_id : Value) → (item_ids : List Value) → Io A Ack
  delete_first msg_id [] = return (done_with (dict ((lit "deleted", int (pos 0)) ∷ [])))
  delete_first msg_id (reaction_id ∷ more) =
      services.lark (delete_reaction msg_id reaction_id) >>= deleted reaction_id

  abbrev listed : (msg_id : Value) → Response → Io A Ack
  listed msg_id response = elim response.success [
    | true ↦ delete_first msg_id response.item_ids
    | false ↦ return (lark_failure response (lit "un_react list failed"))
  ]

  unfoldable pub un_react_live : (msg_id emoji_type : Value) → Io A Ack
  unfolding lark_failure
  un_react_live msg_id emoji_type =
      services.lark (list_reactions msg_id emoji_type) >>= listed msg_id

  abbrev un_react_from : Option Str → (msg_id emoji_type : Value) → Io A Ack
  un_react_from (some url) msg_id emoji_type = un_react_mock url msg_id emoji_type
  un_react_from none msg_id emoji_type = un_react_live msg_id emoji_type

  unfoldable pub un_react : (args : Value) → Io A Ack
  un_react args = lift (index args (lit "msg_id")) >>= λ msg_id.
      lift (value_get args (lit "emoji_type") (str [])) >>= λ emoji_type.
      lift (local_url base_url) >>= λ local. un_react_from local msg_id emoji_type

  unfoldable pub send_card : (args : Value) → Io A Ack
  unfolding attribute_of lark_failure
  send_card args = lift (index args (lit "chat_id")) >>= λ chat_id.
      lift (index args (lit "card")) >>= λ card.
      services.lark (create_message chat_id (lit "interactive") (services.dumps card))
      >>= created (lit "send_card failed")

  -- The answer to a pin, made or removed.
  abbrev pinned : (default_msg : Str) → Response → Io A Ack
  pinned default_msg response = elim response.success [
    | true ↦ return ((lit "ok", bool true) ∷ [])
    | false ↦ return (lark_failure response default_msg)
  ]

  unfoldable pub pin : (args : Value) → Io A Ack
  unfolding lark_failure
  pin args = lift (index args (lit "msg_id")) >>= λ msg_id.
      services.lark (create_pin msg_id) >>= pinned (lit "pin failed")

  unfoldable pub unpin : (args : Value) → Io A Ack
  unfolding lark_failure
  unpin args = lift (index args (lit "msg_id")) >>= λ msg_id.
      services.lark (delete_pin msg_id) >>= pinned (lit "unpin failed")

  -- The message that refers to the file that was uploaded.
  abbrev send_file_message : Str → (chat_id file_key : Value) → Io A Ack
  send_file_message url chat_id file_key =
      services.http (
        request (lit "POST") (messages_url url) (
          dict (
            (lit "receive_id", chat_id)
            ∷ (lit "msg_type", str (lit "file"))
            ∷ (lit "content", str (services.dumps (dict ((lit "file_key", file_key) ∷ []))))
            ∷ [])))
      >>= from_reply (lit "mock send-file-message failed: ")
          (dict ((lit "file_key", file_key) ∷ []))

  abbrev uploaded : Str → (chat_id : Value) → HttpReply → Io A Ack
  uploaded url chat_id (unreachable text) =
      return (error_ack ((lit "mock upload failed: ") ++ text))
  uploaded url chat_id (answered body) = lift (value_get body (lit "data") (dict [])) >>= λ stored.
      lift (value_get stored (lit "file_key") null) >>= λ file_key. elim (truthy file_key) [
        | true ↦ send_file_message url chat_id file_key
        | false ↦ return (error_ack (lit "mock upload did not return file_key"))
      ]

  unfoldable pub send_file_mock : Str → (chat_id file_name : Value) → (bytes : Str) → Io A Ack
  send_file_mock url chat_id file_name bytes =
      services.http (
        request (lit "POST") (url ++ lit "/open-apis/im/v1/files") (
          dict (
            (lit "file_type", str (lit "stream"))
            ∷ (lit "file_name", file_name)
            ∷ (lit "content_b64", str (services.b64encode bytes))
            ∷ [])))
      >>= uploaded url chat_id

  abbrev pub send_file_live : Io A Ack
  send_file_live = return (error_ack (lit "live send_file not yet implemented"))

  abbrev send_file_to : Option Str → (chat_id file_name : Value) → (bytes : Str) → Io A Ack
  send_file_to (some url) chat_id file_name bytes = send_file_mock url chat_id file_name bytes
  send_file_to none chat_id file_name bytes = send_file_live

  -- The bytes are sent if their digest is the one that was announced.
  abbrev pub send_decoded : (chat_id file_name expected : Value) → Result Str Str → Io A Ack
  send_decoded chat_id file_name expected (err text) =
      return (error_ack ((lit "b64 decode failed: ") ++ text))
  send_decoded chat_id file_name expected (ok bytes) =
      elim (is_text expected (services.sha256 bytes)) [
        | true ↦ lift (local_url base_url) >>= λ local. send_file_to local chat_id file_name bytes
        | false ↦ return (error_ack (lit "sha256 mismatch"))
      ]

  unfoldable pub send_file : (args : Value) → Io A Ack
  send_file args = lift (index args (lit "chat_id")) >>= λ chat_id.
      lift (index args (lit "file_name")) >>= λ file_name.
      lift (index args (lit "content_b64")) >>= λ content.
      lift (index args (lit "sha256")) >>= λ expected.
      send_decoded chat_id file_name expected (services.b64decode content)
