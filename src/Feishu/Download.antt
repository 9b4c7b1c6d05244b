-- ===== src/Feishu/Download.antt =====
-- The download of files, and the dispatch of all directives, in
-- adapters/feishu/src/esr_feishu/adapter.py.
use esr.Base.{Option, none, some, [], ◌∷◌, ◌++◌, Str, lit, Dict, reverse, eqb, ◌==◌, if◌then◌else◌}
use esr.Base.Result.{Result, ok, err, Exc, Failure}
use esr.Value.{Value, str, nonempty, value_get}
use esr.Value.Access.{index}
use esr.Adapters.{AdapterConfig}
use esr.Feishu.Parsers.{shown, is_text}
use esr.Feishu.Retry.{with_ratelimit_retry, error_ack}
use esr.Feishu.Services.{
  Io, ◌>>=◌, return, get_resource, Response, Services, Files, lift_with, done_with, local_url,
}
use esr.Feishu.Directives.{
  Ack, base_url, send_message, react, un_react, send_card, pin, unpin, send_file,
}

unfoldable pub drop_slashes : Str → Str
drop_slashes [] = []
drop_slashes (c ∷ s) = let rest = drop_slashes s in if eqb c b'/' then rest else c ∷ s

-- `url.rstrip("/")`
abbrev rstrip_slashes : Str → Str
rstrip_slashes url = reverse (drop_slashes (reverse url))

-- `_default_ext_for`
unfoldable pub default_ext_for : Value → Str
unfolding ◌==◌
default_ext_for msg_type =
    if is_text msg_type (lit "image")
    then lit ".png"
    else if is_text msg_type (lit "file")
    then lit ".bin"
    else if is_text msg_type (lit "audio")
    then lit ".opus"
    else lit ".bin"

-- `a or b` of texts
abbrev pub or_text : Str → Str → Str
or_text a b = if nonempty a then a else b

module _ {A : Type 0} (services : Services A) (files : Files A) (actor_id : Str)
    (config : AdapterConfig) where
  abbrev lift : {X : Type 0} → Result Exc X → Io A X
  lift r = lift_with services.describe r

  abbrev text_of : Value → Str
  text_of v = shown services.repr v

  unfoldable pub download_via_http : Str → (msg_id file_key : Value) → Io A (Option Str)
  unfolding drop_slashes
  download_via_http url msg_id file_key = files.fetch (
      rstrip_slashes url
      ++ (lit "/open-apis/im/v1/messages/")
      ++ text_of msg_id
      ++ (lit "/resources/")
      ++ text_of file_key)

  abbrev file_of : Response → Io A (Option Str)
  file_of response = return (if response.success then some response.file else none)

  unfoldable pub download_via_lark_oapi : (msg_id file_key msg_type : Value) → Io A (Option Str)
  download_via_lark_oapi msg_id file_key msg_type =
      services.lark (get_resource msg_id file_key msg_type) >>= file_of

  abbrev pub downloaded : Option Str → (msg_id file_key msg_type : Value) → Io A (Option Str)
  downloaded (some url) msg_id file_key msg_type = download_via_http url msg_id file_key
  downloaded none msg_id file_key msg_type = download_via_lark_oapi msg_id file_key msg_type

  abbrev stored : Result Str Value → Ack
  stored (err text) = error_ack ((lit "store_failed: ") ++ text)
  stored (ok result) = done_with result

  -- What the store keeps beside the bytes.
  abbrev pub meta_of : (msg_id file_key file_name chat_id : Value) → Dict Value
  meta_of msg_id file_key file_name chat_id =
      (lit "adapter", str (lit "feishu"))
      ∷ (lit "instance", str [])
      ∷ (lit "msg_id", msg_id)
      ∷ (lit "file_key", file_key)
      ∷ (lit "file_name", file_name)
      ∷ (lit "chat_id", chat_id)
      ∷ []

  -- The store's answer, after the file was removed, as it is whether the store raised or not.
  abbrev pub then_unlink : Str → Result Failure (Result Str Value) × A → Result Failure Ack × A
  then_unlink path (err f, a) = (err f, files.unlink path a)
  then_unlink path (ok r, a) = (ok (stored r), files.unlink path a)

  abbrev pub store_bytes :
      (msg_id file_key file_name msg_type chat_id : Value) → Option Str → Io A Ack
  store_bytes msg_id file_key file_name msg_type chat_id none =
      return (error_ack (lit "download failed"))
  store_bytes msg_id file_key file_name msg_type chat_id (some bytes) =
      files.write_temp (or_text (files.suffix file_name) (default_ext_for msg_type)) bytes
      >>= λ path a.
          then_unlink path (files.store msg_type path (meta_of msg_id file_key file_name chat_id) a)

  unfoldable pub download_file : (args : Value) → Io A Ack
  unfolding default_ext_for
  download_file args = lift (index args (lit "msg_id")) >>= λ msg_id.
      lift (index args (lit "file_key")) >>= λ file_key.
      lift (index args (lit "file_name")) >>= λ file_name.
      lift (index args (lit "msg_type")) >>= λ msg_type.
      lift (value_get args (lit "chat_id") (str [])) >>= λ chat_id.
      lift (local_url (base_url services actor_id config)) >>= λ local.
      downloaded local msg_id file_key msg_type
      >>= store_bytes msg_id file_key file_name msg_type chat_id

  -- `await self._with_ratelimit_retry(fn)`
  abbrev pub retrying : Io A Ack → Io A Ack
  retrying fn a =
      let tried = with_ratelimit_retry services.float_eq fn a in (tried.answer, tried.after)

  -- A call that the local stand-in answers is made once; one to the service is tried again.
  abbrev unless_local : Io A Ack → Option Str → Io A Ack
  unless_local fn (some url) = fn
  unless_local fn none = retrying fn

  unfoldable pub on_directive : (action args : Value) → Io A Ack
  unfolding ◌==◌
  on_directive action args =
      if is_text action (lit "send_message")
      then retrying (send_message services actor_id config args)
      else if is_text action (lit "react")
      then (lift (local_url (base_url services actor_id config))
          >>= unless_local (react services actor_id config args))
      else if is_text action (lit "un_react")
      then (lift (local_url (base_url services actor_id config))
          >>= unless_local (un_react services actor_id config args))
      else if is_text action (lit "send_card")
      then retrying (send_card services actor_id config args)
      else if is_text action (lit "pin")
      then retrying (pin services actor_id config args)
      else if is_text action (lit "unpin")
      then retrying (unpin services actor_id config args)
      else if is_text action (lit "download_file")
      then download_file args
      else if is_text action (lit "send_file")
      then send_file services actor_id config args
      else return (error_ack ((lit "unknown action: ") ++ text_of action))
