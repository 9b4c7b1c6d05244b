-- ===== src/Workspaces/Removal.antt =====
-- `remove_workspace` of py/src/esr/workspaces.py, on the document of the file, or none if there is no
-- file: whether a workspace was removed, and the document that is written, if one is.
use esr.Base.{
  ◌≡◌, refl, sym, ap₂, ◌∙◌, inl, inr, Bool, true, false, Option, none, some, [], ◌∷◌, Str, ◌==◌,
  eq_refl, eq_iff, lit, Dict, get, has, put, remove, get-put, if◌then◌else◌, arith, Bool-cases,
  subst,
}
use esr.Base.Result.{Result, ok, err, Exc, type_error, ◌>>=◌, >>=-eq-ok, ok_inj}
use esr.Value.{Value, null, obj, fields, dict, or_else, value_get, fields-to_fields}
use esr.Value.Access.{in_value}
use esr.Workspaces.{
  Workspace, read_row, read_rows, read_workspaces, read_workspaces-table, or_else-dict,
}

abbrev pub Removed : Type 0
Removed = Bool × Option (Dict Value)

-- `del ws[name]` and the write.
abbrev pub drop_row : (doc ws : Value) → (name : Str) → (held : Bool) → Result Exc Removed
drop_row doc ws name false = ok (false, none)
drop_row (obj d) (obj rows) name true =
    ok (true, some (put (fields d) (lit "workspaces") (dict (remove (fields rows) name))))
drop_row _ _ name true = err type_error

abbrev pub remove_from : (doc : Value) → (name : Str) → Result Exc Removed
remove_from doc name = do
  given ← value_get doc (lit "workspaces") null
  let ws = or_else given (dict [])
  held ← in_value name ws
  drop_row doc ws name held

unfoldable pub remove_workspace : Option Value → (name : Str) → Result Exc Removed
remove_workspace none name = ok (false, none)
remove_workspace (some doc) name = remove_from (or_else doc (dict [])) name

-- The tables are the same but for the name, which the second lacks.
abbrev pub Lacks : Str → Dict Workspace → Dict Workspace → Type 0
Lacks name out less = (k : Str) → get less k ≡ (if name == k then none else get out k)

Lacks-put_name :
    (name : Str) (w : Workspace) (out less : Dict Workspace)
    → Lacks name out less
    → Lacks name (put out name w) less
Lacks-put_name name w out less h k = ground (arith, h k, get-put out name k w)

Lacks-put :
    (name j : Str) (w : Workspace) (out less : Dict Workspace)
    → (j == name) ≡ false
    → Lacks name out less
    → Lacks name (put out j w) (put less j w)
Lacks-put name j w out less other h k =
    ground
      (arith, h k, get-put out j k w, get-put less j k w, eq_iff j k, eq_iff name k, eq_iff j name)

-- The rows without one give the table without it.
pub read_rows-remove :
    (name : Str) (rows : Dict Value) (out less found : Dict Workspace)
    → Lacks name out less
    → read_rows out rows ≡ ok found
    → (rest : Dict Workspace) × (read_rows less (remove rows name) ≡ ok rest)
      × Lacks name found rest
unfolding read_rows remove
read_rows-remove name [] out less found h e =
    (less, refl, subst (λ f. Lacks name f less) (ok_inj e) h)
read_rows-remove name ((j, row) ∷ rows) out less found h e =
    let (w, read, more) = >>=-eq-ok (read_row j row) _ e in
    elim (Bool-cases (j == name)) [
      | inl this ↦
          let same : name ≡ j = sym ((eq_iff j name).0 this) in
          rw this (
            read_rows-remove name rows (put out j w) less found
              (subst (λ n. Lacks name (put out n w) less) same (Lacks-put_name name w out less h))
              more)
      | inr other ↦
          let (rest, es, lacks) =
            read_rows-remove name rows (put out j w) (put less j w) found
              (Lacks-put name j w out less other h) more in
          (rest, rw (other, read) es, lacks)
    ]

-- A workspace of a table that can be read is removed: the document that is written is read as the
-- table without it and with all the others, and has what the old one had under other keys.
pub read_workspaces-remove_workspace :
    (doc rows : Dict Value) (name : Str) (found : Dict Workspace)
    → get doc (lit "workspaces") ≡ some (dict rows)
    → has rows name ≡ true
    → read_workspaces (dict doc) ≡ ok found
    → (next : Dict Value) × (rest : Dict Workspace) × (remove_workspace (some (dict doc)) name
        ≡ ok (true, some next))
      × (read_workspaces (dict next) ≡ ok rest)
      × Lacks name found rest
      × ((k : Str) → (lit "workspaces" == k) ≡ false → get next k ≡ get doc k)
unfolding remove_workspace value_get in_value
read_workspaces-remove_workspace doc rows name found table held e =
    let next = put doc (lit "workspaces") (dict (remove rows name)) in
    let (rest, read, lacks) =
      read_rows-remove name rows [] [] found (λ k. nothing k)
        (sym (read_workspaces-table doc rows table) ∙ e) in
    (
      next,
      rest,
      rw
          (
            or_else-dict doc,
            fields-to_fields doc,
            table,
            or_else-dict rows,
            fields-to_fields rows,
            held,
          )
          (ap₂ (λ (d r : Dict Value). dropped d r) (fields-to_fields doc) (fields-to_fields rows)),
      read_workspaces-table next (remove rows name) (
            get-put doc (lit "workspaces") (lit "workspaces") (dict (remove rows name))
            ∙ rw (eq_refl (lit "workspaces")) refl)
          ∙ read,
      lacks,
      λ k other. get-put doc (lit "workspaces") k (dict (remove rows name)) ∙ rw other refl,
    )
  where
    nothing :
        (k : Str)
        → get {V = Workspace} [] k ≡ (if name == k then none else get {V = Workspace} [] k)
    nothing k = ground arith

    dropped : (d r : Dict Value) → Result Exc Removed
    dropped d r = ok (true, some (put d (lit "workspaces") (dict (remove r name))))
