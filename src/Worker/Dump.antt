-- ===== src/Worker/Dump.antt =====
-- The values of a dumped state, which besides those of JSON may be sets and tuples, and
-- `_to_json_native` of py/src/esr/ipc/handler_worker.py.
use esr.Base.{Bool, true, false, ◌&&◌, ◌||◌, List, [], ◌∷◌, Str, Dict, ltb, eqb, if◌then◌else◌}
use esr.Base.Result.{Result, ok, err, Exc, type_error, ◌>>=◌}
use esr.Value.{Value, Items, nil, cons, Fields, end, field, arr, obj}

-- `leaf` is a value of JSON; `set_of` has its elements in the order in which the set is walked.
mutual
  pub data Data : Type 0 where
    leaf : Value → Data
    set_of list_of tuple_of : Datas → Data
    dict_of_data : Entries → Data

  pub data Datas : Type 0 where
    none_left : Datas
    and_then : Data → Datas → Datas

  pub data Entries : Type 0 where
    no_entry : Entries
    entry : Str → Data → Entries → Entries

abbrev pub data_list : Datas → List Data
data_list none_left = []
data_list (and_then v vs) = v ∷ data_list vs

abbrev pub to_datas : List Data → Datas
to_datas [] = none_left
to_datas (v ∷ vs) = and_then v (to_datas vs)

abbrev pub entries : Entries → Dict Data
entries no_entry = []
entries (entry k v es) = (k, v) ∷ entries es

abbrev pub to_entries : Dict Data → Entries
to_entries [] = no_entry
to_entries ((k, v) ∷ d) = entry k v (to_entries d)

-- The order of texts.
unfoldable pub text_leb : Str → Str → Bool
text_leb [] t = true
text_leb (x ∷ s) [] = false
text_leb (x ∷ s) (y ∷ t) = ltb x y || (eqb x y && text_leb s t)

-- `sorted(xs, key=key)`
module _ {ℓ} {A : Type ℓ} (key : A → Str) where
  unfoldable pub insert : A → List A → List A
  insert x [] = x ∷ []
  insert x (y ∷ ys) =
      let rest = insert x ys in if text_leb (key x) (key y) then x ∷ y ∷ ys else y ∷ rest

  unfoldable pub sorted : List A → List A
  unfolding insert
  sorted [] = []
  sorted (x ∷ xs) = insert x (sorted xs)

-- `text` is `str` of a value.
module _ (text : Data → Str) where
  unfoldable mutual
    unfolding sorted

    pub to_json_native : Data → Data
    to_json_native (leaf v) = leaf v
    to_json_native (set_of vs) = list_of (to_datas (sorted text (data_list vs)))
    to_json_native (list_of vs) = list_of (all_native vs)
    to_json_native (tuple_of vs) = list_of (all_native vs)
    to_json_native (dict_of_data es) = dict_of_data (entries_native es)

    pub all_native : Datas → Datas
    all_native none_left = none_left
    all_native (and_then v vs) = and_then (to_json_native v) (all_native vs)

    pub entries_native : Entries → Entries
    entries_native no_entry = no_entry
    entries_native (entry k v es) = entry k (to_json_native v) (entries_native es)

-- `json.dumps`, as the value that is read back: a tuple is an array, and a set is refused.
unfoldable mutual
  pub encoded : Data → Result Exc Value
  encoded (leaf v) = ok v
  encoded (set_of vs) = err type_error
  encoded (list_of vs) = do items ← all_encoded vs; ok (arr items)
  encoded (tuple_of vs) = do items ← all_encoded vs; ok (arr items)
  encoded (dict_of_data es) = do fs ← entries_encoded es; ok (obj fs)

  pub all_encoded : Datas → Result Exc Items
  all_encoded none_left = ok nil
  all_encoded (and_then v vs) = do first ← encoded v; rest ← all_encoded vs; ok (cons first rest)

  pub entries_encoded : Entries → Result Exc Fields
  entries_encoded no_entry = ok end
  entries_encoded (entry k v es) = do
    first ← encoded v
    rest ← entries_encoded es
    ok (field k first rest)
