-- ===== src/Bridge/Notification/Meta.antt =====
-- What a session is told about a message.
use esr.Base.{
  inl, inr, ◌≡◌, refl, ◌∙◌, false, not, ◌&&◌, none, some, List, [], ◌∷◌, Str, ◌==◌, eq_iff, eq_refl,
  lit, contains, Dict, get, put, get-put, if◌then◌else◌, Bool-cases, arith,
}
use esr.Value.{Value, null, str, py_str, get_or}
use esr.Bridge.Notification.{
  meta_fields, is_blank, with_default, take_field, take_fields, take_meta, text_params,
  attachment_params, params_of, build_notification_params,
}

module _ (repr : Value → Str) where
  get-take_field_same :
      (payload : Dict Value) (out : Dict Str) (k : Str)
      → get (take_field repr payload out k) k ≡ (
          if not (is_blank (with_default k (get_or payload k null)))
          then some (py_str repr (with_default k (get_or payload k null)))
          else get out k)
  unfolding take_field
  get-take_field_same payload out k =
      ground
        (arith, eq_refl k, get-put out k k (py_str repr (with_default k (get_or payload k null))))

  get-take_field :
      (payload : Dict Value) (out : Dict Str) (key k : Str)
      → get (take_field repr payload out key) k ≡ (
          if key == k && not (is_blank (with_default k (get_or payload k null)))
          then some (py_str repr (with_default k (get_or payload k null)))
          else get out k)
  unfolding take_field
  get-take_field payload out key k = elim (Bool-cases (key == k)) [
    | inl e ↦ rw ((eq_iff key k).0 e, eq_refl k) (get-take_field_same payload out k)
    | inr e ↦
        ground
          (arith, e, get-put out key k (py_str repr (with_default key (get_or payload key null))))
  ]

  get-take_fields :
      (payload : Dict Value) (out : Dict Str) (keys : List Str) (k : Str)
      → get (take_fields repr payload out keys) k ≡ (
          if contains keys k && not (is_blank (with_default k (get_or payload k null)))
          then some (py_str repr (with_default k (get_or payload k null)))
          else get out k)
  unfolding take_fields contains
  get-take_fields payload out [] k = refl
  get-take_fields payload out (key ∷ keys) k =
      get-take_fields payload (take_field repr payload out key) keys k
      ∙ (rw (get-take_field payload out key k) (ground arith))

  -- The meta data of a message hold exactly the listed keys that are not blank, after the mode and
  -- the source got their defaults, with the texts of their values.
  pub get-take_meta :
      (payload : Dict Value) (k : Str)
      → get (take_meta repr payload) k ≡ (
          if contains meta_fields k && not (is_blank (with_default k (get_or payload k null)))
          then some (py_str repr (with_default k (get_or payload k null)))
          else none)
  unfolding take_meta get
  get-take_meta payload k = get-take_fields payload [] meta_fields k

  get-params_of :
      (payload : Dict Value) (msg_type media_uri : Value) (k : Str)
      → (lit "kind" == k) ≡ false
      → (lit "media_uri" == k) ≡ false
      → get (params_of repr payload msg_type media_uri).meta k ≡ get (take_meta repr payload) k
  unfolding text_params attachment_params
  get-params_of payload (str kind) (str uri) k a b = ground (
    arith,
    get-put (take_meta repr payload) (lit "kind") k kind,
    get-put (put (take_meta repr payload) (lit "kind") kind) (lit "media_uri") k uri,
  )
  get-params_of payload (str kind) _ k a b = refl
  get-params_of payload _ media_uri k a b = refl

  -- Whatever the message is, a key of its meta data other than the two of an attachment is there
  -- exactly if it is one of the listed keys and its value is not blank, after the mode and the source
  -- got their defaults; it holds the text of that value.
  pub get-build_notification_params :
      (payload : Dict Value) (k : Str)
      → (lit "kind" == k) ≡ false
      → (lit "media_uri" == k) ≡ false
      → get (build_notification_params repr payload).meta k ≡ (
          if contains meta_fields k && not (is_blank (with_default k (get_or payload k null)))
          then some (py_str repr (with_default k (get_or payload k null)))
          else none)
  unfolding build_notification_params
  get-build_notification_params payload k a b =
      get-params_of payload (get_or payload (lit "msg_type") null)
        (get_or payload (lit "media_uri") null) k a b
      ∙ get-take_meta payload k
