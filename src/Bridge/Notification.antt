-- ===== src/Bridge/Notification.antt =====
-- py/src/cc_channel_runner/notification.py: the parameters of a notification, made of an envelope.
pub mod Meta
use esr.Base.{
  Bool, true, false, not, ◌&&◌, ◌||◌, none, some, List, [], ◌∷◌, ◌++◌, Str, ◌==◌, lit, contains,
  Dict, get, put, if◌then◌else◌,
}
use esr.Value.{Value, null, str, nonempty, py_str, or_else, get_or, dict}

-- `_META_FIELDS`
abbrev pub meta_fields : List Str
meta_fields =
    lit "chat_id"
    ∷ lit "app_id"
    ∷ lit "message_id"
    ∷ lit "user"
    ∷ lit "ts"
    ∷ lit "thread_id"
    ∷ lit "runtime_mode"
    ∷ lit "source"
    ∷ lit "user_id"
    ∷ lit "workspace"
    ∷ []

-- `_ATTACHMENT_KINDS`
abbrev pub attachment_kinds : List Str
attachment_kinds = lit "image" ∷ lit "file" ∷ lit "audio" ∷ []

-- `val is None or val == ""`
abbrev pub is_blank : Value → Bool
is_blank null = true
is_blank (str s) = not (nonempty s)
is_blank v = false

-- What stands for a blank value.
unfoldable pub with_default : Str → Value → Value
with_default key val =
    if key == lit "runtime_mode" && is_blank val
    then str (lit "discussion")
    else if key == lit "source" && is_blank val
    then str (lit "feishu")
    else val

-- The parameters of a notification.
pub record Params : Type 0 where
  pub content : Value
  pub meta : Dict Str

module _ (repr : Value → Str) where
  -- One round of the loop of `_take_meta`.
  unfoldable pub take_field : Dict Value → Dict Str → Str → Dict Str
  unfolding with_default
  take_field payload out key =
      let val = with_default key (get_or payload key null) in
      if is_blank val then out else put out key (py_str repr val)

  unfoldable pub take_fields : Dict Value → Dict Str → List Str → Dict Str
  unfolding take_field
  take_fields payload out [] = out
  take_fields payload out (key ∷ keys) = take_fields payload (take_field payload out key) keys

  unfoldable pub take_meta : Dict Value → Dict Str
  unfolding take_fields
  take_meta payload = take_fields payload [] meta_fields

  unfoldable pub text_params : Dict Value → Params
  unfolding take_meta
  text_params payload = record {
    content = or_else (get_or payload (lit "content") null) (str []);
    meta = take_meta payload;
  }

  unfoldable pub attachment_params : Dict Value → (kind uri : Str) → Params
  unfolding take_meta
  attachment_params payload kind uri = record {
    content = str ((b'[' ∷ kind) ++ lit " attachment]");
    meta = put (put (take_meta payload) (lit "kind") kind) (lit "media_uri") uri;
  }

  -- The choice of `build_notification_params`, on the kind and the address.
  abbrev pub params_of : Dict Value → (msg_type media_uri : Value) → Params
  params_of payload (str kind) (str uri) =
      if contains attachment_kinds kind && nonempty uri
      then attachment_params payload kind uri
      else text_params payload
  params_of payload msg_type media_uri = text_params payload

  unfoldable pub build_notification_params : Dict Value → Params
  unfolding text_params attachment_params
  build_notification_params payload =
      params_of payload (get_or payload (lit "msg_type") null)
        (get_or payload (lit "media_uri") null)
