-- ===== src/Feishu/Services.antt =====
-- What adapters/feishu/src/esr_feishu/adapter.py calls outside of the repository, as parameters, and
-- its helpers on answers. `A` is the state of the world that the calls act on.
use esr.Base.{
  Bool, true, false, ◌||◌, Option, none, some, List, [], ◌∷◌, Str, lit, Dict, get, starts_with,
  if◌then◌else◌,
}
use esr.Base.Result.{Result, ok, err, Exc, attribute_error, Failure}
use esr.Decimal.{ℤ, pos}
use esr.Value.{Value, bool, int, str, get_or, or_else}

-- A call, as a monad: it acts, and returns or raises.
abbrev pub Io : (A X : Type 0) → Type 0
Io A X = A → Result Failure X × A

abbrev pub after_call :
    {A X Y : Type 0} → (X → Io A Y) → Result Failure X × A → Result Failure Y × A
after_call next (err f, a) = (err f, a)
after_call next (ok x, a) = next x a

infixl 5 ◌>>=◌
abbrev pub ◌>>=◌ : {A X Y : Type 0} → Io A X → (X → Io A Y) → Io A Y
(first >>= next) a = after_call next (first a)

abbrev pub return : {A X : Type 0} → X → Io A X
return x a = (ok x, a)

-- A request to the service's library. The texts of contents are made by `json.dumps`.
pub data Request : Type 0 where
  create_message : (receive_id : Value) (msg_type content : Str) → Request
  create_reaction : (message_id emoji_type : Value) → Request
  list_reactions : (message_id reaction_type : Value) → Request
  delete_reaction : (message_id reaction_id : Value) → Request
  create_pin delete_pin : (message_id : Value) → Request
  get_resource : (message_id file_key type : Value) → Request

-- Its answer, with the attributes of it and of its `data`, and the identifiers of the items that were
-- listed.
pub record Response : Type 0 where
  pub success : Bool
  pub attributes : Dict Value
  pub data_attributes : Dict Value
  pub item_ids : List Value
  pub file : Str

-- A request to a local stand-in for the service, with its JSON body.
pub record HttpRequest : Type 0 where
  pub method : Str
  pub url : Str
  pub app_id : Str
  pub body : Value

-- The body of the reply, or the text of the `URLError`.
pub data HttpReply : Type 0 where
  answered : Value → HttpReply
  unreachable : Str → HttpReply

pub record Services (A : Type 0) : Type 0 where
  pub lark : Request → Io A Response
  pub http : HttpRequest → Io A HttpReply
  -- The class and the text of an exception of the language.
  pub describe : Exc → Failure
  pub dumps : Value → Str
  pub float_eq : Str → ℤ → Bool
  pub repr : Value → Str
  -- `b64decode` with the text of its error, its inverse, and the digest in hexadecimal.
  pub b64decode : Value → Result Str Str
  pub b64encode : Str → Str
  pub sha256 : Str → Str

abbrev pub lift_with : {A X : Type 0} → (Exc → Failure) → Result Exc X → Io A X
lift_with describe (ok x) a = (ok x, a)
lift_with describe (err e) a = (err (describe e), a)

abbrev pub done_with : Value → Dict Value
done_with result = (lit "ok", bool true) ∷ (lit "result", result) ∷ []

-- The file system and the media store, as the download of a file uses them: the suffix of a name, the
-- bytes behind an address, or none if it cannot be reached, a new file with such a suffix, the store,
-- with the text of its `EsrResourceError`, and the removal of a file, whose failure is passed over.
pub record Files (A : Type 0) : Type 0 where
  pub suffix : Value → Str
  pub fetch : (url : Str) → Io A (Option Str)
  pub write_temp : (suffix bytes : Str) → Io A Str
  pub store : (media_type : Value) (path : Str) (meta : Dict Value) → Io A (Result Str Value)
  pub unlink : Str → A → A

-- `x.name` of an object with these attributes
unfoldable pub attribute_of : Dict Value → Str → Result Exc Value
attribute_of attributes name = elim (get attributes name) [
  | none ↦ err attribute_error
  | some v ↦ ok v
]

-- `_lark_error`
abbrev pub lark_error : Response → Value
lark_error response =
    or_else
      (or_else (get_or response.attributes (lit "msg") (str []))
        (get_or response.attributes (lit "error") (str [])))
      (str [])

-- `_lark_failure`
unfoldable pub lark_failure : Response → (default_msg : Str) → Dict Value
lark_failure response default_msg =
    (lit "ok", bool false)
    ∷ (lit "error", or_else (lark_error response) (str default_msg))
    ∷ (lit "code", get_or response.attributes (lit "code") (int (pos 0)))
    ∷ []

-- `base_url.startswith(("http://127.0.0.1", "http://localhost"))`
unfoldable pub is_local : Str → Bool
is_local url = starts_with url (lit "http://127.0.0.1") || starts_with url (lit "http://localhost")

abbrev pub if_local : Str → Option Str
if_local url = if is_local url then some url else none

-- The local stand-in's address. A value that is no text has no `startswith`.
abbrev pub local_url : Value → Result Exc (Option Str)
local_url (str url) = ok (if_local url)
local_url _ = err attribute_error
