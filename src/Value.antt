-- ===== src/Value.antt =====
-- The values of Python's `Any` that JSON and YAML documents hold, with the tests and conversions
-- of the language that the program applies to them.
pub mod Access
use esr.Base.{
  ℕ, zero, suc, ◌≡◌, refl, ap, Bool, true, false, ◌||◌, Option, none, some, List, [], ◌∷◌, Str,
  ◌==◌, lit, Dict, arith, not, map, if◌then◌else◌, get,
}
use esr.Decimal.{ℤ, pos, negsuc, show_int}
use esr.Base.Result.{Result, ok, err, Exc, type_error, attribute_error}

-- A `float` is kept as the text that `repr` gives.
mutual
  pub data Value : Type 0 where
    null : Value
    bool : Bool → Value
    int : ℤ → Value
    float : Str → Value
    str : Str → Value
    arr : Items → Value
    obj : Fields → Value

  pub data Items : Type 0 where
    nil : Items
    cons : Value → Items → Items

  pub data Fields : Type 0 where
    end : Fields
    field : Str → Value → Fields → Fields

abbrev pub items : Items → List Value
items nil = []
items (cons v vs) = v ∷ items vs

abbrev pub to_items : List Value → Items
to_items [] = nil
to_items (v ∷ vs) = cons v (to_items vs)

abbrev pub fields : Fields → Dict Value
fields end = []
fields (field k v fs) = (k, v) ∷ fields fs

abbrev pub to_fields : Dict Value → Fields
to_fields [] = end
to_fields ((k, v) ∷ d) = field k v (to_fields d)

-- A `dict` and a `list` as values.
abbrev pub dict : Dict Value → Value
dict d = obj (to_fields d)

abbrev pub list : List Value → Value
list vs = arr (to_items vs)

pub fields-to_fields : (d : Dict Value) → fields (to_fields d) ≡ d
fields-to_fields [] = refl
fields-to_fields ((k, v) ∷ d) = ap (λ (r : Dict Value). (k, v) ∷ r) (fields-to_fields d)

pub items-to_items : (vs : List Value) → items (to_items vs) ≡ vs
items-to_items [] = refl
items-to_items (v ∷ vs) = ap (λ (r : List Value). v ∷ r) (items-to_items vs)

-- Is a text not empty?
abbrev pub nonempty : Str → Bool
nonempty [] = false
nonempty (x ∷ s) = true

-- A float is false at its two zeros.
unfoldable pub truthy : Value → Bool
unfolding ◌==◌
truthy null = false
truthy (bool b) = b
truthy (int (pos zero)) = false
truthy (int (pos (suc n))) = true
truthy (int (negsuc n)) = true
truthy (float r) = not (r == lit "0.0" || r == lit "-0.0")
truthy (str s) = nonempty s
truthy (arr nil) = false
truthy (arr (cons v vs)) = true
truthy (obj end) = false
truthy (obj (field k v fs)) = true

-- `a or b`
abbrev pub or_else : Value → Value → Value
or_else a b = if truthy a then a else b

-- `for x in v`, `list(v)`: the items, the keys of a dict, the characters of a text.
unfoldable pub iter : Value → Result Exc (List Value)
iter (arr vs) = ok (items vs)
iter (obj fs) = ok (map (λ e. str e.0) (fields fs))
iter (str s) = ok (map (λ c. str (c ∷ [])) s)
iter _ = err type_error

-- `v.get(k)` with its default
unfoldable pub value_get : Value → Str → Value → Result Exc Value
unfolding get
value_get (obj fs) k d = ok (elim (get (fields fs) k) [ none ↦ d | some v ↦ v ])
value_get _ k d = err attribute_error

-- `str(v)`; the text of a list or a dict is left to `repr`.
unfoldable pub py_str : (Value → Str) → Value → Str
unfolding show_int
py_str repr null = lit "None"
py_str repr (bool true) = lit "True"
py_str repr (bool false) = lit "False"
py_str repr (int i) = show_int i
py_str repr (float r) = r
py_str repr (str s) = s
py_str repr v = repr v

-- `d.get(k, default)` of a dict
abbrev pub get_or : Dict Value → Str → Value → Value
get_or d k default = elim (get d k) [ none ↦ default | some v ↦ v ]
