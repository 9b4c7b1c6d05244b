-- ===== src/Feishu/Inbound/Files.antt =====
-- The events that the parsers make.
use esr.Base.{
  ◌≡◌, refl, inl, inr, true, not, ◌||◌, [], ◌∷◌, ◌++◌, Str, lit, Dict, get, contains, ◌==◌,
  if◌then◌else◌, Bool-cases,
}
use esr.Base.Result.{Result, ok, Exc}
use esr.Value.{
  Value, null, bool, int, float, str, arr, obj, dict, fields, value_get, get_or, or_else, truthy,
  nonempty, Fields,
}
use esr.Feishu.Parsers.{parse_content, parsed, parsers, shown, is_text}
use esr.Feishu.Inbound.{
  args_of, downloadable, is_downloadable, sender_of, default_name, file_args, more_args, content_of,
  msg_received_args, parse_msg_received,
}

nonempty-append : (s : Str) → nonempty (s ++ lit ".png") ≡ true
nonempty-append [] = refl
nonempty-append (c ∷ s) = refl

truthy-or_else : (a b : Value) → truthy b ≡ true → truthy (or_else a b) ≡ true
truthy-or_else a b h = elim (Bool-cases (truthy a)) [
  | inl e ↦ rw (or_else, e) e
  | inr e ↦ rw (or_else, e) h
]

module _ (repr : Value → Str) (loads : Value → Result Exc Value) where
  truthy-default_name :
      (msg_type file_key : Value) → truthy (default_name repr loads msg_type file_key) ≡ true
  unfolding truthy
  truthy-default_name msg_type file_key = elim (Bool-cases (is_text msg_type (lit "image"))) [
    | inl image ↦ elim (Bool-cases (truthy file_key)) [
      | inl e ↦ rw (image, e) (nonempty-append (shown repr file_key))
      | inr e ↦ rw (image, e) refl
    ]
    | inr other ↦ rw other (truthy-or_else file_key (str (lit "unknown")) refl)
  ]

  -- The name that a file gets.
  named : (given msg_type file_key : Value) → Value
  named given msg_type file_key =
      if truthy given then given else default_name repr loads msg_type file_key

  truthy-named : (given msg_type file_key : Value) → truthy (named given msg_type file_key) ≡ true
  unfolding named
  truthy-named given msg_type file_key = elim (Bool-cases (truthy given)) [
    | inl e ↦ rw (e) e
    | inr e ↦ rw e (truthy-default_name msg_type file_key)
  ]

  file_args_lem :
      (msg_type : Value) (content : Fields)
      → (args : Dict Value) × (file_args repr loads msg_type (obj content) ≡ ok args)
        × (truthy (get_or args (lit "file_name") null) ≡ true)
  unfolding file_args value_get get ◌==◌ named
  file_args_lem msg_type content =
      let d = fields content in
      let key =
        or_else (or_else (get_or d (lit "image_key") null) (get_or d (lit "file_key") null))
          (str []) in
      let name = named (get_or d (lit "file_name") null) msg_type key in
      (
        (lit "file_key", key) ∷ (lit "file_name", name) ∷ [],
        refl,
        truthy-named (get_or d (lit "file_name") null) msg_type key,
      )

  -- If the message, its sender and its content are dicts, and its type can be looked up, the event
  -- `msg_received` is made; and if the type is one of those that can be downloaded, its arguments
  -- name the file by a name that is not empty, whether the content named it or not.
  pub parse_msg_received_total :
      (raw : Dict Value) (message sender content : Fields) (msg_type : Str)
      → or_else (get_or raw (lit "message") null) (dict []) ≡ obj message
      → or_else (get_or raw (lit "sender") null) (dict []) ≡ obj sender
      → or_else
          (or_else
            (get_or (fields message) (lit "message_type") null)
            (get_or (fields message) (lit "msg_type") null))
          (str (lit "unknown"))
        ≡ str msg_type
      → content_of repr loads (get_or (fields message) (lit "content") (str [])) ≡ ok (obj content)
      → (args : Dict Value) × (parse_msg_received repr loads raw
          ≡ ok ((lit "event_type", str (lit "msg_received")) ∷ (lit "args", dict args) ∷ []))
        × ((not (is_downloadable (str msg_type)) || truthy (get_or args (lit "file_name") null))
            ≡ true)
  unfolding parse_msg_received msg_received_args value_get parse_content get ◌==◌
  parse_msg_received_total raw message sender content msg_type held from typed read =
      let (sent, es) = sender_total (get_or (fields sender) (lit "sender_id") null) in
      let (more, em, full) = more_total in
      (
        args_of repr loads (get_or (fields message) (lit "message_id") (str []))
            (get_or (fields message) (lit "chat_id") (str [])) (str msg_type)
            (parsed repr (str msg_type) (obj content) (get (parsers repr) msg_type)) sent
            (obj content) more,
        rw (held, typed, read, from, es, em) refl,
        full,
      )
    where
      sender_total : (f : Value) → (v : Value) × (sender_of repr loads (obj sender) f ≡ ok v)
      sender_total (obj fs) = (get_or (fields fs) (lit "open_id") (str []), refl)
      sender_total null = (_, refl)
      sender_total (bool b) = (_, refl)
      sender_total (int i) = (_, refl)
      sender_total (float r) = (_, refl)
      sender_total (str t) = (_, refl)
      sender_total (arr vs) = (_, refl)

      more_total :
          (more : Dict Value) × (more_args repr loads (str msg_type) (obj content) ≡ ok more)
          × ((not (is_downloadable (str msg_type)) || truthy (get_or more (lit "file_name") null))
              ≡ true)
      more_total = elim (Bool-cases (contains downloadable msg_type)) [
        | inl e ↦
            let (args, made, full) = file_args_lem (str msg_type) content in
            (args, rw (more_args, e) made, rw e full)
        | inr e ↦ ([], rw (more_args, e) refl, rw e refl)
      ]
