-- ===== src/Capability.antt =====
-- py/src/esr/capabilities.py: the capability check of the SDK. `matches`, `split_capability` and
-- `segment_match` are the static methods `_matches`, `_split` and `_segment_match`; `reload` and
-- `has_capability` are the methods `reload` and `has`, on the state `Checker`.
-- The YAML parser is the parameter `load`, `none` for its `YAMLError`. A file is read at one
-- moment,
-- between whose `stat` and `read_text` nobody writes it.
pub mod Grants
pub mod Reload
use esr.Base.{
  ℕ, Bool, true, false, not, ◌&&◌, ◌||◌, Option, none, some, List, [], ◌∷◌, Str, ◌==◌, lit, eqb,
  cut, Dict, get, put, has, if◌then◌else◌,
}
use esr.Base.Result.{Result, ok, err, Exc, type_error, attribute_error, ◌>>=◌, ◌>>◌}
use esr.Value.{
  Value, null, bool, int, float, str, arr, obj, items, fields, list, dict, or_else, iter, value_get,
}

abbrev split_scope : Option (Str × Str) → Option (Str × Str × Str)
split_scope none = none
split_scope (some (scope, perm)) = elim (cut b':' scope) [
  | none ↦ none
  | some (prefix, name) ↦ some (prefix, name, perm)
]

unfoldable pub split_capability : Str → Option (Str × Str × Str)
split_capability s = split_scope (cut b'/' s)

unfoldable pub segment_match : Str → Str → Bool
segment_match held required = if held == lit "*" then true else held == required

unfoldable pub matches_parts : Option (Str × Str × Str) → Option (Str × Str × Str) → Bool
unfolding segment_match
matches_parts (some (h_prefix, h_name, h_perm)) (some (r_prefix, r_name, r_perm)) =
    if not (h_prefix == r_prefix)
    then false
    else segment_match h_name r_name && segment_match h_perm r_perm
matches_parts _ _ = false

unfoldable pub matches : Str → Str → Bool
unfolding matches_parts
matches held required =
    if held == lit "*"
    then true
    else matches_parts (split_capability held) (split_capability required)

-- `"/" in v` for a value that is no text
holds_slash : List Value → Bool
holds_slash [] = false
holds_slash (str s ∷ vs) = s == lit "/" || holds_slash vs
holds_slash (_ ∷ vs) = holds_slash vs

keys : Dict Value → List Value
keys [] = []
keys ((k, v) ∷ d) = str k ∷ keys d

-- `_matches` at a held capability that may be no text: `"/" in held` fails on a number, and
-- `held.split` on a list or a dict.
unfoldable pub matches_value : Value → Str → Result Exc Bool
unfolding holds_slash keys
matches_value (str held) required = ok (matches held required)
matches_value (arr vs) required = if holds_slash (items vs) then err attribute_error else ok false
matches_value (obj fs) required =
    if holds_slash (keys (fields fs)) then err attribute_error else ok false
matches_value _ required = err type_error

-- `any(...)`, which stops at the first match
unfoldable pub any_matches : List Value → Str → Result Exc Bool
unfolding matches_value
any_matches [] required = ok false
any_matches (held ∷ more) required = do
  found ← matches_value held required
  if found then ok true else any_matches more required

pub record Checker : Type 0 where
  pub snapshot : Dict (List Value)
  pub mtime : Option ℕ

-- `__init__` before its call of `reload`
abbrev pub no_grants : Checker
no_grants = record { snapshot = []; mtime = none }

-- What stands at the checker's path.
pub data File : Type 0 where
  missing : File
  present : ℕ → Str → File

-- One entry of the comprehension. An id that is a number is a key which no text ever finds, so it
-- is left out; an id that cannot be hashed raises.
keep_entry : Value → List Value → Dict (List Value) → Result Exc (Dict (List Value))
keep_entry (str id) caps acc = ok (put acc id caps)
keep_entry (arr vs) caps acc = err type_error
keep_entry (obj fs) caps acc = err type_error
keep_entry _ caps acc = ok acc

add_entry : Value → Dict (List Value) → Result Exc (Dict (List Value))
unfolding keep_entry
add_entry (obj fs) acc = elim (get (fields fs) (lit "id")) [
  | none ↦ ok acc
  | some id ↦ do
    value ← value_get (obj fs) (lit "capabilities") (list [])
    caps ← iter value
    keep_entry id caps acc
]
add_entry _ acc = ok acc

collect : Dict (List Value) → List Value → Result Exc (Dict (List Value))
unfolding add_entry
collect acc [] = ok acc
collect acc (entry ∷ entries) = do next ← add_entry entry acc; collect next entries

unfoldable pub principals_of : Value → Result Exc (Dict (List Value))
unfolding collect
principals_of document = do
  principals ← value_get (or_else document (dict [])) (lit "principals") null
  entries ← iter (or_else principals (list []))
  collect [] entries

abbrev pub same_mtime : Option ℕ → ℕ → Bool
same_mtime none m = false
same_mtime (some k) m = eqb k m

-- Is there nothing to clear?
abbrev is_cleared : Checker → Bool
is_cleared c = elim c.mtime [
  | some m ↦ false
  | none ↦ elim c.snapshot [ [] ↦ true | x ∷ xs ↦ false ]
]

abbrev take_snapshot :
    Checker → ℕ → Result Exc (Dict (List Value)) → Result Exc (Unit {0}) × Checker
take_snapshot c m (ok snapshot) = (ok tt, record { snapshot = snapshot; mtime = some m })
take_snapshot c m (err e) = (err e, c)

abbrev held_by : Dict (List Value) → Str → List Value
held_by snapshot principal = elim (get snapshot principal) [ none ↦ [] | some held ↦ held ]

module _ (load : Str → Option Value) where
  abbrev read_document : Checker → ℕ → Option Value → Result Exc (Unit {0}) × Checker
  read_document c m none = (ok tt, record c { mtime = some m })
  read_document c m (some document) = take_snapshot c m (principals_of document)

  unfoldable pub reload : File → Checker → Result Exc (Unit {0}) × Checker
  reload missing c = if is_cleared c then (ok tt, c) else (ok tt, no_grants)
  reload (present m text) c =
      if same_mtime c.mtime m then (ok tt, c) else read_document c m (load text)

  unfoldable pub has_capability : File → Str → Str → Checker → Result Exc Bool × Checker
  unfolding reload
  has_capability file principal permission c =
      let (done, c') = reload file c in
      (done >> any_matches (held_by c'.snapshot principal) permission, c')
