-- ===== src/Uri.antt =====
-- py/src/esr/uri.py: the `esr://` addresses. Each `ValueError` has a constructor of `UriError`.
-- `parse_qsl` and `urlencode` of `urllib.parse` are the parameters `decode` and `encode`.
pub mod Build
pub mod WellFormed
pub mod RoundTrip
pub mod Resource
use esr.Base.{
  ℕ, ◌<◌, Bool, true, false, not, ◌&&◌, ◌||◌, Option, none, some, List, [], ◌∷◌, ◌++◌, Str, ◌==◌,
  lit, contains, Dict, drop, length, cut, split, starts_with, ltb, eqb, if◌then◌else◌,
}
use esr.Base.Result.{Result, ok, err, ◌>>=◌, ◌>>◌}
use esr.Decimal.{ℤ, read_int}
use esr.Value.{nonempty}

pub data UriError : Type 0 where
  bad_scheme missing_path empty_org empty_host invalid_port bad_path unknown_type missing_id :
      UriError
  empty_id too_few_segments not_path_style empty_segment : UriError

abbrev pub scheme : Str
scheme = lit "esr://"

-- `_LEGACY_TYPES`
abbrev pub legacy_types : List Str
legacy_types = lit "adapter" ∷ lit "actor" ∷ lit "command" ∷ []

-- `_PATH_STYLE_TYPES`
abbrev pub path_style_types : List Str
path_style_types =
    lit "adapters"
    ∷ lit "workspaces"
    ∷ lit "chats"
    ∷ lit "users"
    ∷ lit "sessions"
    ∷ lit "resources"
    ∷ []

-- `type_ in _VALID_TYPES`
abbrev pub is_valid_type : Str → Bool
is_valid_type t = contains legacy_types t || contains path_style_types t

pub record EsrUri : Type 0 where
  pub org : Option Str
  pub host : Str
  pub port : Option ℤ
  pub type : Str
  pub id : Str
  pub segments : List Str
  pub params : Dict Str

abbrev pub guard : Bool → UriError → Result UriError (Unit {0})
guard true e = ok tt
guard false e = err e

-- The text before the first `?`, and the query after it.
unfoldable pub split_query : Str → Str × Str
split_query rest = elim (cut b'?' rest) [ none ↦ (rest, []) | some p ↦ p ]

unfoldable pub split_path : Str → Result UriError (Str × Str)
split_path path = elim (cut b'/' path) [ none ↦ err missing_path | some p ↦ ok p ]

unfoldable pub split_org : Str → Result UriError (Option Str × Str)
split_org authority = elim (cut b'@' authority) [
  | none ↦ ok (none, authority)
  | some (org, rest) ↦ if nonempty org then ok (some org, rest) else err empty_org
]

-- `authority.partition(":")`
unfoldable pub split_host : Str → Str × Str
split_host authority = elim (cut b':' authority) [ none ↦ (authority, []) | some p ↦ p ]

unfoldable pub read_port : Str → Result UriError (Option ℤ)
read_port port_str =
    if nonempty port_str
    then elim (read_int port_str) [ none ↦ err invalid_port | some n ↦ ok (some n) ]
    else ok none

-- `[p for p in raw_segments if p != ""]`
unfoldable pub path_parts : List Str → List Str
path_parts [] = []
path_parts (p ∷ ps) = let rest = path_parts ps in if nonempty p then p ∷ rest else rest

-- The last item, by default the empty text.
unfoldable pub last : List Str → Str
last [] = []
last (p ∷ []) = p
last (p ∷ q ∷ ps) = last (q ∷ ps)

abbrev pub has_trailing_empty : List Str → Bool
has_trailing_empty segments = not (nonempty (last segments)) && ltb 1 (length segments)

-- The type and the id of the parts of a path.
unfoldable pub read_type : List Str → Bool → Result UriError (Str × Str)
read_type [] trailing = err bad_path
read_type (type ∷ rest) trailing =
    if not (is_valid_type type)
    then err unknown_type
    else if contains legacy_types type
    then (if eqb (length (type ∷ rest)) 1 && trailing
        then err missing_id
        else if not (eqb (length (type ∷ rest)) 2)
        then err bad_path
        else ok (type, last rest))
    else if ltb (length (type ∷ rest)) 2
    then err missing_id
    else ok (type, last (type ∷ rest))

-- The checks on the path, from the number of its parts to the id.
unfoldable pub read_path : List Str → Result UriError (Str × Str × List Str)
read_path segments = do
  let parts = path_parts segments
  let trailing = has_trailing_empty segments
  guard (not (ltb (length parts) 2 && not trailing)) bad_path
  found ← read_type parts trailing
  guard (nonempty found.1) missing_id
  ok (found.0, found.1, parts)

module _ (decode : Str → Dict Str) where
  unfoldable pub parse : Str → Result UriError EsrUri
  parse s = do
    guard (starts_with s scheme) bad_scheme
    let (path, query) = split_query (drop 6 s)
    parted ← split_path path
    owner ← split_org parted.0
    let (host, port_str) = split_host owner.1
    guard (nonempty host) empty_host
    port ← read_port port_str
    found ← read_path (split b'/' parted.1)
    ok (record {
      org = owner.0;
      host = host;
      port = port;
      type = found.0;
      id = found.1;
      segments = found.2;
      params = decode query;
    })
