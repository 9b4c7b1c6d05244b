-- ===== src/Feishu/Parsers.antt =====
-- adapters/feishu/src/esr_feishu/parsers.py: the texts of messages. A message's content is what
-- `json.loads` gave, so any value; `repr` is the language's for lists and dicts.
use esr.Base.{
  Bool, false, ◌||◌, ◌&&◌, Option, none, some, List, [], ◌∷◌, ◌++◌, Str, lit, Dict, get, put, join,
  ◌==◌, if◌then◌else◌,
}
use esr.Base.Result.{Result, ok, err, Exc, type_error, ◌>>=◌}
use esr.Value.{
  Value, null, str, arr, obj, list, dict, items, fields, value_get, get_or, or_else, truthy, iter,
  py_str, nonempty,
}

-- A parser of `_PARSERS`.
abbrev pub Parser : Type 0
Parser = Value → Result Exc Str

-- `register_parser`, for the types in turn.
unfoldable pub register_parser : Dict Parser → List Str → Parser → Dict Parser
register_parser parsers [] fn = parsers
register_parser parsers (msg_type ∷ msg_types) fn =
    register_parser (put parsers msg_type fn) msg_types fn

-- `p for p in parts if p`
unfoldable pub full_parts : List Str → List Str
full_parts [] = []
full_parts (p ∷ ps) = let rest = full_parts ps in if nonempty p then p ∷ rest else rest

-- `v == "text"`
abbrev pub is_text : Value → Str → Bool
is_text (str t) s = t == s
is_text _ s = false

-- The parts of all the items, in order.
unfoldable pub collect : (Value → Result Exc (List Str)) → List Value → Result Exc (List Str)
collect part [] = ok []
collect part (v ∷ vs) = do first ← part v; rest ← collect part vs; ok (first ++ rest)

module _ (repr : Value → Str) where
  abbrev pub shown : Value → Str
  shown v = py_str repr v

  unfoldable pub parse_text : Parser
  parse_text content = do text ← value_get content (lit "text") (str []); ok (shown text)

  -- A node of a paragraph.
  unfoldable pub post_node : Value → Result Exc (List Str)
  unfolding ◌==◌
  post_node (obj fs) =
      let node = fields fs in
      let tag = get_or node (lit "tag") (str []) in
      let text = get_or node (lit "text") (str []) in
      ok (
        if is_text tag (lit "text") || truthy (get_or node (lit "text") null)
        then shown text ∷ []
        else if is_text tag (lit "img")
        then ((lit "[img: ") ++ shown (get_or node (lit "image_key") (str [])) ++ (lit "]")) ∷ []
        else if is_text tag (lit "at")
        then ((lit "@")
            ++ shown (get_or node (lit "user_name") (get_or node (lit "user_id") (str []))))
          ∷ []
        else if is_text tag (lit "a")
        then shown (or_else text (get_or node (lit "href") (str []))) ∷ []
        else [])
  post_node _ = ok []

  unfoldable pub post_para : Value → Result Exc (List Str)
  unfolding collect
  post_para para = do nodes ← iter (or_else para (list [])); collect post_node nodes

  unfoldable pub parse_post : Parser
  parse_post content = do
    title ← value_get content (lit "title") (str [])
    given ← value_get content (lit "content") (list [])
    paras ← iter (or_else given (list []))
    parts ← collect post_para paras
    ok (join b' ' (full_parts (shown title ∷ parts)))

  unfoldable pub parse_downloadable : Parser
  parse_downloadable content = do
    image_key ← value_get content (lit "image_key") null
    other_key ← value_get content (lit "file_key") (str [])
    given_name ← value_get content (lit "file_name") null
    let file_key = or_else image_key other_key
    let file_name = or_else (or_else given_name file_key) (str (lit "unknown"))
    ok ((lit "[file: ") ++ shown file_name ++ (lit "]"))

  abbrev pub parse_sticker : Parser
  parse_sticker content = ok (lit "[sticker]")

  unfoldable pub parse_share_chat : Parser
  parse_share_chat content = do
    chat_id ← value_get content (lit "chat_id") (str [])
    ok ((lit "[chat card: ") ++ shown chat_id ++ (lit "]"))

  unfoldable pub parse_share_user : Parser
  parse_share_user content = do
    user_id ← value_get content (lit "user_id") (str [])
    ok ((lit "[user card: ") ++ shown user_id ++ (lit "]"))

  unfoldable pub parse_location : Parser
  parse_location content = do
    name ← value_get content (lit "name") (str (lit "unknown location"))
    lat ← value_get content (lit "latitude") (str [])
    lng ← value_get content (lit "longitude") (str [])
    let coords =
        if truthy lat && truthy lng
        then (lit " (") ++ shown lat ++ (lit ", ") ++ shown lng ++ (lit ")")
        else []
    ok ((lit "[location: ") ++ shown name ++ coords ++ (lit "]"))

  -- The title of a card.
  abbrev pub card_title : Value → List Str
  card_title (obj fs) = shown (get_or (fields fs) (lit "content") (str [])) ∷ []
  card_title (str s) = s ∷ []
  card_title _ = []

  abbrev pub card_header : Value → List Str
  card_header (obj fs) = card_title (get_or (fields fs) (lit "title") (dict []))
  card_header _ = []

  abbrev pub button_label : Value → Str
  button_label (obj fs) = shown (get_or (fields fs) (lit "content") (str []))
  button_label v = shown v

  abbrev pub card_action : Value → Result Exc (List Str)
  card_action (obj fs) = ok (
      ((lit "[button: ") ++ button_label (get_or (fields fs) (lit "text") (dict [])) ++ (lit "]"))
      ∷ [])
  card_action _ = ok []

  -- An element of a card.
  unfoldable pub card_element : Value → Result Exc (List Str)
  unfolding ◌==◌
  card_element (obj fs) =
      let el = fields fs in
      let tag = get_or el (lit "tag") (str []) in
      if is_text tag (lit "text") || is_text tag (lit "markdown")
      then ok
          (shown (or_else (get_or el (lit "text") null) (get_or el (lit "content") (str []))) ∷ [])
      else if is_text tag (lit "div")
      then ok (card_title (get_or el (lit "text") (dict [])))
      else if is_text tag (lit "action")
      then (iter (or_else (get_or el (lit "actions") (list [])) (list [])) >>= collect card_action)
      else ok []
  card_element _ = ok []

  abbrev pub card_elements : Value → Result Exc (List Str)
  card_elements (arr vs) = collect card_element (items vs)
  card_elements _ = ok []

  -- `s or "[card]"`
  abbrev pub or_card : Str → Str
  or_card [] = lit "[card]"
  or_card (c ∷ s) = c ∷ s

  unfoldable pub parse_interactive : Parser
  parse_interactive content = do
    header ← value_get content (lit "header") (dict [])
    elements ← value_get content (lit "elements") (list [])
    parts ← card_elements elements
    ok (or_card (join b'\n' (full_parts (card_header header ++ parts))))

  -- `_PARSERS`, as the module fills it.
  abbrev pub parsers : Dict Parser
  parsers =
      let texts = register_parser [] (lit "text" ∷ []) parse_text in
      let posts = register_parser texts (lit "post" ∷ []) parse_post in
      let files =
        register_parser posts (lit "image" ∷ lit "file" ∷ lit "audio" ∷ lit "media" ∷ [])
          parse_downloadable in
      let stickers = register_parser files (lit "sticker" ∷ []) parse_sticker in
      let chats = register_parser stickers (lit "share_chat" ∷ []) parse_share_chat in
      let users = register_parser chats (lit "share_user" ∷ []) parse_share_user in
      let places = register_parser users (lit "location" ∷ []) parse_location in
      register_parser places (lit "interactive" ∷ []) parse_interactive

  -- `_PARSERS.get(msg_type)`: a list and a dict are no keys.
  abbrev pub find_parser : Value → Result Exc (Option Parser)
  find_parser (str msg_type) = ok (get parsers msg_type)
  find_parser (arr vs) = err type_error
  find_parser (obj fs) = err type_error
  find_parser _ = ok none

  abbrev pub or_placeholder : (msg_type : Value) → Result Exc Str → Str
  or_placeholder msg_type (ok text) = text
  or_placeholder msg_type (err e) = (lit "[") ++ shown msg_type ++ (lit " message — parse failed]")

  abbrev pub parsed : (msg_type content : Value) → Option Parser → Str
  parsed msg_type content none = (lit "[") ++ shown msg_type ++ (lit " message]")
  parsed msg_type content (some parser) = or_placeholder msg_type (parser content)

  unfoldable pub parse_content : (msg_type content : Value) → Result Exc Str
  parse_content msg_type content = do
    parser ← find_parser msg_type
    ok (parsed msg_type content parser)
