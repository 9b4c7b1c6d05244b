-- ===== src/Workspaces.antt =====
-- py/src/esr/workspaces.py: the table of workspaces, on the document that the file holds, if there is
-- a file. The YAML parser and printer, between the file and the
-- document, are left out.
pub mod Removal
pub mod RoundTrip
use esr.Base.{
  ◌≡◌, refl, sym, ap, ◌∙◌, true, false, Option, none, some, List, [], ◌∷◌, Str, ◌==◌, eq_refl, lit,
  Dict, get, has, put, get-put, if◌then◌else◌, arith,
}
use esr.Base.Result.{
  Result, ok, err, Exc, value_error, type_error, attribute_error, ◌>>=◌, >>=-eq-ok,
}
use esr.Decimal.{pos}
use esr.Value.{
  Value, null, int, str, obj, fields, dict, list, truthy, or_else, iter, value_get, get_or,
  fields-to_fields, items-to_items,
}
use esr.Value.Access.{in_value, dict_of}

pub record Workspace : Type 0 where
  pub name : Str
  pub owner : Value
  pub start_cmd : Value
  pub role : Value
  pub chats : List Value
  pub env : Dict Value

-- One workspace of `read_workspaces`.
unfoldable pub read_row : Str → Value → Result Exc Workspace
read_row name row = do
  owner ← value_get row (lit "owner") null
  start_cmd ← value_get row (lit "start_cmd") (str [])
  role ← value_get row (lit "role") (str (lit "dev"))
  given_chats ← value_get row (lit "chats") null
  chats ← iter (or_else given_chats (list []))
  given_env ← value_get row (lit "env") null
  env ← dict_of (or_else given_env (dict []))
  ok (record {
    name = name;
    owner = owner;
    start_cmd = start_cmd;
    role = role;
    chats = chats;
    env = env;
  })

unfoldable pub read_rows : Dict Workspace → Dict Value → Result Exc (Dict Workspace)
read_rows out [] = ok out
read_rows out ((name, row) ∷ rows) = do
  workspace ← read_row name row
  read_rows (put out name workspace) rows

-- `.items()` of what should be a dict.
abbrev pub rows_of : Value → Result Exc (Dict Value)
rows_of (obj fs) = ok (fields fs)
rows_of _ = err attribute_error

unfoldable pub read_workspaces : Value → Result Exc (Dict Workspace)
unfolding read_rows
read_workspaces doc = do
  given ← value_get (or_else doc (dict [])) (lit "workspaces") null
  rows ← rows_of (or_else given (dict []))
  read_rows [] rows

-- `read_workspaces` with the test whether there is a file.
unfoldable pub read_path : Option Value → Result Exc (Dict Workspace)
read_path none = ok []
read_path (some doc) = read_workspaces doc

abbrev pub owner_part : Value → Dict Value
owner_part null = []
owner_part owner = (lit "owner", owner) ∷ []

-- The row that `write_workspace` makes.
abbrev pub row_of : Workspace → Value
row_of w = dict (
    (lit "start_cmd", w.start_cmd)
    ∷ (lit "role", w.role)
    ∷ (lit "chats", list w.chats)
    ∷ (lit "env", dict w.env)
    ∷ owner_part w.owner)

-- `d.setdefault(k, v)`
unfoldable pub set_default : Dict Value → Str → Value → Dict Value
set_default d k v = if has d k then d else put d k v

abbrev pub set_row : Dict Value → Value → Workspace → Result Exc (Dict Value)
set_row doc (obj rows) w =
    ok (put doc (lit "workspaces") (dict (put (fields rows) w.name (row_of w))))
set_row doc _ w = err type_error

abbrev pub write_fields : Dict Value → Workspace → Result Exc (Dict Value)
write_fields doc w = do
  taken ← in_value w.name (get_or doc (lit "workspaces") null)
  if taken then err value_error else set_row doc (get_or doc (lit "workspaces") null) w

-- The two defaults of a document.
unfoldable pub defaulted : Dict Value → Dict Value
defaulted doc =
    set_default (set_default doc (lit "schema_version") (int (pos 1))) (lit "workspaces") (dict [])

abbrev pub write_document : Value → Workspace → Result Exc (Dict Value)
write_document (obj doc) w = write_fields (defaulted (fields doc)) w
write_document _ w = err attribute_error

-- The document of the file, or of none if there is no file.
abbrev pub document : Option Value → Value
document none = dict []
document (some doc) = or_else doc (dict [])

-- What `write_workspace` writes.
unfoldable pub write_workspace : Option Value → Workspace → Result Exc (Dict Value)
write_workspace file w = write_document (document file) w

or_else-dict : (d : Dict Value) → or_else (dict d) (dict []) ≡ dict d
unfolding truthy
or_else-dict [] = refl
or_else-dict (entry ∷ d) = refl

read_workspaces-table :
    (doc rows : Dict Value)
    → get doc (lit "workspaces") ≡ some (dict rows)
    → read_workspaces (dict doc) ≡ read_rows [] rows
unfolding read_workspaces value_get
read_workspaces-table doc rows table =
    rw (or_else-dict doc, fields-to_fields doc, table, or_else-dict rows, fields-to_fields rows)
      refl
