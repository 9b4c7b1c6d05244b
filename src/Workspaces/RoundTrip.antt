-- ===== src/Workspaces/RoundTrip.antt =====
-- What is written to the file of workspaces is read back.
use esr.Base.{
  Bool-cases, ◌≡◌, refl, sym, ap, ◌∙◌, inl, inr, true, false, ◌||◌, Option, none, some, List, [],
  ◌∷◌, Str, ◌==◌, eq_refl, eq_iff, lit, Dict, get, has, put, get-put, if◌then◌else◌, arith,
}
use esr.Base.Result.{ok, ◌>>=◌, >>=-eq-ok, ok_inj}
use esr.Decimal.{pos}
use esr.Value.{
  Value, Fields, null, int, str, obj, fields, dict, list, truthy, or_else, iter, value_get, get_or,
  fields-to_fields, items-to_items, end, field,
}
use esr.Value.Access.{in_value, dict_of}
use esr.Workspaces.{
  Workspace, read_row, read_rows, read_workspaces, read_path, row_of, set_default, defaulted,
  document, write_workspace, rows_of, read_workspaces-table,
}

iter-list : (vs : List Value) → iter (or_else (list vs) (list [])) ≡ ok vs
unfolding iter truthy
iter-list [] = refl
iter-list (v ∷ vs) = rw (items-to_items vs) refl

dict_of-dict : (d : Dict Value) → dict_of (or_else (dict d) (dict [])) ≡ ok d
unfolding dict_of truthy
dict_of-dict [] = refl
dict_of-dict (entry ∷ d) = rw (fields-to_fields d) refl

owner-row_of : (w : Workspace) → value_get (row_of w) (lit "owner") null ≡ ok w.owner
unfolding value_get get ◌==◌
owner-row_of w = by_owner w.owner
  where
    by_owner :
        (owner : Value)
        → value_get (row_of (record w { owner = owner })) (lit "owner") null ≡ ok owner
    by_owner null = refl
    by_owner owner = refl

others-row_of :
    (w : Workspace)
    → (value_get (row_of w) (lit "start_cmd") (str []) ≡ ok w.start_cmd)
      × (value_get (row_of w) (lit "role") (str (lit "dev")) ≡ ok w.role)
      × (value_get (row_of w) (lit "chats") null ≡ ok (list w.chats))
      × (value_get (row_of w) (lit "env") null ≡ ok (dict w.env))
unfolding value_get get ◌==◌
others-row_of w = (refl, refl, refl, refl)

read_row-row_of : (w : Workspace) → read_row w.name (row_of w) ≡ ok w
unfolding read_row
read_row-row_of w =
    let (start_cmd, role, chats, env) = others-row_of w in
    rw (owner-row_of w, start_cmd, role, chats, iter-list w.chats, env, dict_of-dict w.env) refl

read_rows-put :
    (out : Dict Workspace) (rows : Dict Value) (w : Workspace) (found : Dict Workspace)
    → has rows w.name ≡ false
    → read_rows out rows ≡ ok found
    → read_rows out (put rows w.name (row_of w)) ≡ ok (put found w.name w)
unfolding read_rows has put
read_rows-put out [] w found free e =
    rw (read_row-row_of w) (ap (λ r. r >>= λ f. ok (put f w.name w)) e)
read_rows-put out ((n, row) ∷ rows) w found free e =
    let apart : (n == w.name) ≡ false = ground arith in
    let (first, is_first, rest) = >>=-eq-ok (read_row n row) _ e in
    rw (apart, is_first) (read_rows-put (put out n first) rows w found (ground arith) rest)

has-put : {V : Type 0} (d : Dict V) (k j : Str) (v : V) → has (put d k v) j ≡ k == j || has d j
unfolding has put
has-put [] k j v = refl
has-put ((i, w) ∷ d) k j v = ground (arith, eq_iff k j, eq_iff i k, eq_iff i j, has-put d k j v)

has-read_rows :
    (out : Dict Workspace) (rows : Dict Value) (found : Dict Workspace) (k : Str)
    → read_rows out rows ≡ ok found
    → has found k ≡ has out k || has rows k
unfolding read_rows has
has-read_rows out [] found k e = ground (arith, ok_inj e)
has-read_rows out ((n, row) ∷ rows) found k e =
    let (first, is_first, rest) = >>=-eq-ok (read_row n row) _ e in
    ground (arith, has-read_rows (put out n first) rows found k rest, has-put out n k first)

get-has : (d : Dict Value) (k : Str) → has d k ≡ true → (v : Value) × (get d k ≡ some v)
unfolding has get
get-has [] k e = cc
get-has ((j, w) ∷ d) k e = elim (Bool-cases (j == k)) [
  | inl this ↦ (w, rw this refl)
  | inr other ↦ rw other (get-has d k (rw other at e))
]

has-get : (d : Dict Value) (k : Str) → has d k ≡ false → get d k ≡ none
unfolding has get
has-get [] k e = refl
has-get ((j, w) ∷ d) k e = ground (arith, has-get d k)

get-set_default :
    (d : Dict Value) (k j : Str) (v : Value)
    → get (set_default d k v) j ≡ (if k == j then some (get_or d k v) else get d j)
unfolding set_default
get-set_default d k j v = elim (Bool-cases (has d k)) [
  | inl held ↦ rw held (ground (arith, get-has d k, eq_iff k j))
  | inr free ↦ rw free (ground (arith, get-put d k j v, has-get d k, eq_iff k j))
]

fields-dict : (d : Dict Value) (fs : Fields) → dict d ≡ obj fs → fields fs ≡ d
fields-dict d fs e = sym (ok_inj (ap rows_of e)) ∙ fields-to_fields d

rows_of-or_else : (rows : Fields) → rows_of (or_else (obj rows) (dict [])) ≡ ok (fields rows)
unfolding truthy
rows_of-or_else end = refl
rows_of-or_else (field k v fs) = refl

rows_of-default :
    (o : Option Value) (rows : Fields)
    → elim o [ none ↦ dict [] | some v ↦ v ] ≡ obj rows
    → rows_of (or_else (elim o [ none ↦ null | some v ↦ v ]) (dict [])) ≡ ok (fields rows)
unfolding truthy
rows_of-default none rows e = ap rows_of e
rows_of-default (some v) rows e = rw e (rows_of-or_else rows)

read_path-rows :
    (file : Option Value) (d rows : Fields)
    → document file ≡ obj d
    → get_or (fields d) (lit "workspaces") (dict []) ≡ obj rows
    → read_path file ≡ read_rows [] (fields rows)
unfolding read_path read_rows read_workspaces value_get
read_path-rows none d rows held table =
    let empty : fields d ≡ [] = fields-dict [] d held in
    rw (fields-dict [] rows (rw empty at table)) refl
read_path-rows (some doc) d rows held table =
    rw (held, rows_of-default (get (fields d) (lit "workspaces")) rows table) refl

get-defaulted :
    (d : Dict Value)
    → (get (defaulted d) (lit "workspaces") ≡ some (get_or d (lit "workspaces") (dict [])))
      × (get (defaulted d) (lit "schema_version")
          ≡ some (get_or d (lit "schema_version") (int (pos 1))))
      × ((k : Str)
          → (lit "workspaces" == k) ≡ false
          → (lit "schema_version" == k) ≡ false
          → get (defaulted d) k ≡ get d k)
unfolding defaulted ◌==◌
get-defaulted d =
    let first : Dict Value = set_default d (lit "schema_version") (int (pos 1)) in
    (
      get-set_default first (lit "workspaces") (lit "workspaces") (dict [])
          ∙ ap (λ (o : Option Value). some (elim o [ none ↦ dict [] | some v ↦ v ]))
              (get-set_default d (lit "schema_version") (lit "workspaces") (int (pos 1))),
      get-set_default first (lit "workspaces") (lit "schema_version") (dict [])
          ∙ get-set_default d (lit "schema_version") (lit "schema_version") (int (pos 1)),
      λ k table version.
          get-set_default first (lit "workspaces") k (dict [])
          ∙ rw table (get-set_default d (lit "schema_version") k (int (pos 1)) ∙ rw version refl),
    )

-- A workspace is written to a file, or to no file, whose document is a dict that has no table of
-- workspaces or a dict as its table, if the file can be read and no workspace that is read has its
-- name. The new document is read as the workspaces of before and this one, with all its fields; it has
-- the schema version of before, or 1 if there was none, and what the old one had under other keys.
pub read-write_workspace :
    (file : Option Value) (d rows : Fields) (w : Workspace) (found : Dict Workspace)
    → document file ≡ obj d
    → get_or (fields d) (lit "workspaces") (dict []) ≡ obj rows
    → read_path file ≡ ok found
    → has found w.name ≡ false
    → (next : Dict Value) × (write_workspace file w ≡ ok next)
      × (read_path (some (dict next)) ≡ ok (put found w.name w))
      × (get next (lit "schema_version")
          ≡ some (get_or (fields d) (lit "schema_version") (int (pos 1))))
      × ((k : Str)
          → (lit "workspaces" == k) ≡ false
          → (lit "schema_version" == k) ≡ false
          → get next k ≡ get (fields d) k)
unfolding write_workspace in_value
read-write_workspace file d rows w found held table read free =
    let (tabled, versioned, others) = get-defaulted (fields d) in
    let same : read_path file ≡ read_rows [] (fields rows) =
      read_path-rows file d rows held table in
    let unused : has (fields rows) w.name ≡ false =
      unfold has in ground (arith, has-read_rows [] (fields rows) found w.name (sym same ∙ read)) in
    let held_rows : get_or (defaulted (fields d)) (lit "workspaces") null ≡ obj rows =
      ap (λ (o : Option Value). elim o [ none ↦ null | some v ↦ v ])
        (tabled ∙ ap (λ v. some v) table) in
    let rows' : Dict Value = put (fields rows) w.name (row_of w) in
    let next : Dict Value = put (defaulted (fields d)) (lit "workspaces") (dict rows') in
    let got : (k : Str)
        → get next k
          ≡ (if lit "workspaces" == k then some (dict rows') else get (defaulted (fields d)) k) =
      λ k. get-put (defaulted (fields d)) (lit "workspaces") k (dict rows') in
    (
      next,
      rw (held, held_rows, unused) refl,
      unfold read_path in
          (read_workspaces-table next rows'
              (got (lit "workspaces") ∙ rw (eq_refl (lit "workspaces")) refl)
            ∙ read_rows-put [] (fields rows) w found unused (sym same ∙ read)),
      got (lit "schema_version") ∙ (unfold ◌==◌ in versioned),
      λ k table_key version_key. got k ∙ rw table_key (others k table_key version_key),
    )
