-- ===== src/Value/Access.antt =====
-- Subscripts, membership tests and the constructor `dict` at dynamic values.
use esr.Base.{
  eqb, if◌then◌else◌, arith, ◌≡◌, refl, Bool, false, ◌||◌, none, some, List, [], ◌∷◌, Str, ◌==◌,
  Dict, get, has, put, starts_with, map, ℕ, lit,
}
use esr.Base.Result.{Result, ok, err, Exc, type_error, key_error, value_error, ◌>>=◌}
use esr.Decimal.{ℤ, pos, negsuc, show_int}
use esr.Value.{
  null, int, bool, float, Value, str, arr, obj, nil, cons, end, field, items, fields, get_or,
}

-- `d[k]` of a dict
unfoldable pub index_dict : Dict Value → Str → Result Exc Value
index_dict d k = elim (get d k) [ none ↦ err key_error | some v ↦ ok v ]

pub index_dict-get :
    (d : Dict Value) (k : Str) {v : Value} → get d k ≡ some v → index_dict d k ≡ ok v
unfolding index_dict
index_dict-get d k e = rw (index_dict, e) refl

-- The converse.
pub get-index_dict :
    (d : Dict Value) (k : Str) (v : Value) → index_dict d k ≡ ok v → get d k ≡ some v
unfolding index_dict
get-index_dict d k v e = ground arith

pub get_or-get :
    (d : Dict Value) (k : Str) (default : Value) {v : Value}
    → get d k ≡ some v
    → get_or d k default ≡ v
get_or-get d k default e = rw (get_or, e) refl

-- `v[k]` at a text `k`
unfoldable pub index : Value → Str → Result Exc Value
unfolding index_dict
index (obj fs) k = index_dict (fields fs) k
index _ k = err type_error

-- Is the text a part of the other?
unfoldable pub substring : Str → Str → Bool
substring p [] = starts_with [] p
substring p (c ∷ s) = starts_with (c ∷ s) p || substring p s

has_text : Str → List Value → Bool
has_text k [] = false
has_text k (str s ∷ vs) = s == k || has_text k vs
has_text k (_ ∷ vs) = has_text k vs

-- `k in v`
unfoldable pub in_value : Str → Value → Result Exc Bool
unfolding substring has_text
in_value k (obj fs) = ok (has (fields fs) k)
in_value k (arr vs) = ok (has_text k (items vs))
in_value k (str s) = ok (substring k s)
in_value k _ = err type_error

-- A number that is no code point.
abbrev pub no_code_point : ℕ
no_code_point = 1114112

-- A key of a dict, or the `TypeError` of one that cannot be hashed. One that is no text stands behind a
-- number that no text has, so that it differs from every text; a truth value is a number. An integer
-- and a float are two keys, also where the language has them equal.
unfoldable pub key_of : Value → Result Exc Str
key_of (str k) = ok k
key_of null = ok (no_code_point ∷ lit "None")
key_of (int i) = ok (no_code_point ∷ show_int i)
key_of (bool b) = ok (no_code_point ∷ show_int (pos (if b then 1 else 0)))
key_of (float r) = ok (no_code_point ∷ r)
key_of _ = err type_error

-- An item of the sequence from which a dict is made: any iterable of two.
pair : Value → Result Exc (Str × Value)
pair (arr (cons k (cons v nil))) = key_of k >>= λ key. ok (key, v)
pair (arr vs) = err value_error
pair (str (a ∷ b ∷ [])) = ok (a ∷ [], str (b ∷ []))
pair (str s) = err value_error
pair (obj (field j v (field k w end))) = ok (j, str k)
pair (obj fs) = err value_error
pair _ = err type_error

pairs : Dict Value → List Value → Result Exc (Dict Value)
unfolding pair
pairs acc [] = ok acc
pairs acc (v ∷ vs) = do p ← pair v; pairs (put acc p.0 p.1) vs

-- `dict(v)`
unfoldable pub dict_of : Value → Result Exc (Dict Value)
unfolding pairs
dict_of (obj fs) = ok (fields fs)
dict_of (arr vs) = pairs [] (items vs)
dict_of (str s) = pairs [] (map (λ c. str (c ∷ [])) s)
dict_of _ = err type_error

abbrev pub same_int : ℤ → ℤ → Bool
same_int (pos n) (pos m) = eqb n m
same_int (negsuc n) (negsuc m) = eqb n m
same_int _ _ = false

-- `v == i`: a truth value is the number 0 or 1.
unfoldable pub eq_int : (Str → ℤ → Bool) → Value → ℤ → Bool
eq_int float_eq (int i) j = same_int i j
eq_int float_eq (bool b) j = same_int (pos (if b then 1 else 0)) j
eq_int float_eq (float r) j = float_eq r j
eq_int float_eq _ j = false
