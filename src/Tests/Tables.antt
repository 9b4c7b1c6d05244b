-- ===== src/Tests/Tables.antt =====
-- The table of workspaces at a concrete document.
use esr.Base.{◌≡◌, refl, true, false, none, some, [], ◌∷◌, ◌==◌, Str, lit, Dict, get, has, put}
use esr.Base.Result.{ok}
use esr.Decimal.{pos}
use esr.Value.{Value, end, int, str, null, dict, fields, get_or}
use esr.Workspaces.{
  Workspace, read_row, read_rows, read_workspaces, read_path, row_of, write_workspace,
}
use esr.Workspaces.RoundTrip.{read-write_workspace}
use esr.Workspaces.Removal.{remove_workspace, Lacks, read_workspaces-remove_workspace}

abbrev a_workspace : Workspace
a_workspace = record {
  name = lit "dev";
  owner = null;
  start_cmd = str (lit "claude");
  role = str (lit "dev");
  chats = [];
  env = [];
}

-- There is no file before the write.
read-write_workspace_example :
    (next : Dict Value) × (write_workspace none a_workspace ≡ ok next)
    × (read_path (some (dict next)) ≡ ok (put [] (lit "dev") a_workspace))
    × (get next (lit "schema_version")
        ≡ some (get_or (fields end) (lit "schema_version") (int (pos 1))))
    × ((k : Str)
        → (lit "workspaces" == k) ≡ false
        → (lit "schema_version" == k) ≡ false
        → get next k ≡ get (fields end) k)
unfolding get has read_path
read-write_workspace_example = read-write_workspace none end end a_workspace [] refl refl refl refl

abbrev a_table : Dict Value
a_table = (lit "dev", row_of a_workspace) ∷ []

abbrev a_document : Dict Value
a_document = (lit "workspaces", dict a_table) ∷ []

read_workspaces-remove_workspace_example :
    (next : Dict Value) × (rest : Dict Workspace) × (remove_workspace
        (some (dict a_document))
        (lit "dev")
      ≡ ok (true, some next))
    × (read_workspaces (dict next) ≡ ok rest)
    × Lacks (lit "dev") (put [] (lit "dev") a_workspace) rest
    × ((k : Str) → (lit "workspaces" == k) ≡ false → get next k ≡ get a_document k)
unfolding get has read_workspaces read_rows read_row put ◌==◌ esr.Value.value_get esr.Value.truthy
    esr.Value.iter esr.Value.Access.dict_of
read_workspaces-remove_workspace_example =
    read_workspaces-remove_workspace a_document a_table (lit "dev") (put [] (lit "dev") a_workspace)
      refl refl refl
