-- ===== src/Worker/Sorting.antt =====
-- The lists that sets become: they do not depend on the order in which a set is walked.
use mathlib.Core.List.{Permᴰ, Perm, is_set}
use mathlib.Core.Logic.{∥∥₁_elim}
use native.Mathlib.Nat.{ℕ_set}
use esr.Base.{
  ◌≡◌, refl, sym, ap, ap₂, ◌∙◌, inl, inr, true, false, List, [], ◌∷◌, Str, map, arith, Bool-cases,
}
use esr.Base.Result.{ok}
use esr.Value.{str, list, to_items}
use esr.Worker.Dump.{
  Data, leaf, set_of, to_datas, data_list, text_leb, insert, sorted, to_json_native, encoded,
  all_encoded,
}

total-text_leb : (s t : Str) → text_leb s t ≡ false → text_leb t s ≡ true
unfolding text_leb
total-text_leb [] t h = cc
total-text_leb (x ∷ s) [] h = refl
total-text_leb (x ∷ s) (y ∷ t) h = ground (arith, total-text_leb s t)

antisym-text_leb : (s t : Str) → text_leb s t ≡ true → text_leb t s ≡ true → s ≡ t
unfolding text_leb
antisym-text_leb [] [] h k = refl
antisym-text_leb [] (y ∷ t) h k = cc
antisym-text_leb (x ∷ s) [] h k = cc
antisym-text_leb (x ∷ s) (y ∷ t) h k = ground (arith, antisym-text_leb s t)

trans-text_leb : (s t u : Str) → text_leb s t ≡ true → text_leb t u ≡ true → text_leb s u ≡ true
unfolding text_leb
trans-text_leb [] t u h k = refl
trans-text_leb (x ∷ s) [] u h k = cc
trans-text_leb (x ∷ s) (y ∷ t) [] h k = cc
trans-text_leb (x ∷ s) (y ∷ t) (z ∷ u) h k = ground (arith, trans-text_leb s t u)

abbrev same : Str → Str
same s = s

insert_comm :
    (a b : Str) (xs : List Str)
    → insert same a (insert same b xs) ≡ insert same b (insert same a xs)
unfolding insert
insert_comm a b [] = ground (arith, total-text_leb a b, antisym-text_leb a b)
insert_comm a b (y ∷ ys) = ground (
  arith,
  total-text_leb a b,
  antisym-text_leb a b,
  total-text_leb b a,
  trans-text_leb a b y,
  trans-text_leb b a y,
  insert_comm a b ys,
)

sorted-Permᴰ : {xs ys : List Str} → Permᴰ xs ys → sorted same xs ≡ sorted same ys
unfolding sorted
sorted-Permᴰ Permᴰ.nil = refl
sorted-Permᴰ (Permᴰ.cons e p) = ap₂ (λ x l. insert same x l) e (sorted-Permᴰ p)
sorted-Permᴰ (Permᴰ.swap {a = a} {b = b} {l = l} e₁ e₂) =
    insert_comm a b (sorted same l)
    ∙ ap₂ (λ x y. insert same x (insert same y (sorted same l))) e₂ e₁
sorted-Permᴰ (Permᴰ.trans p q) = sorted-Permᴰ p ∙ sorted-Permᴰ q

sorted-Perm : {xs ys : List Str} → Perm xs ys → sorted same xs ≡ sorted same ys
sorted-Perm {xs} {ys} p =
    ∥∥₁_elim p (is_set (is_set ℕ_set) (sorted same xs) (sorted same ys)) sorted-Permᴰ

module _ (text : Data → Str) (reads : (s : Str) → text (leaf (str s)) ≡ s) where
  -- The elements of a set of texts.
  abbrev pub texts : List Str → List Data
  texts ss = map (λ s. leaf (str s)) ss

  insert-texts :
      (s : Str) (ss : List Str) → insert text (leaf (str s)) (texts ss) ≡ texts (insert same s ss)
  unfolding insert
  insert-texts s [] = refl
  insert-texts s (t ∷ ss) = elim (Bool-cases (text_leb s t)) [
    | inl e ↦ rw (reads s, reads t, e) refl
    | inr e ↦
        rw (reads s, reads t, e) (ap (λ (l : List Data). leaf (str t) ∷ l) (insert-texts s ss))
  ]

  sorted-texts : (ss : List Str) → sorted text (texts ss) ≡ texts (sorted same ss)
  unfolding sorted
  sorted-texts [] = refl
  sorted-texts (s ∷ ss) = rw (sorted-texts ss) (insert-texts s (sorted same ss))

  data_list_lem : (vs : List Data) → data_list (to_datas vs) ≡ vs
  data_list_lem [] = refl
  data_list_lem (v ∷ vs) = ap (λ (l : List Data). v ∷ l) (data_list_lem vs)

  all_encoded-texts :
      (ss : List Str) → all_encoded (to_datas (texts ss)) ≡ ok (to_items (map (λ s. str s) ss))
  unfolding encoded
  all_encoded-texts [] = refl
  all_encoded-texts (s ∷ ss) = rw (all_encoded-texts ss) refl

  -- A set of texts is dumped as the array of its texts in their order, which can be encoded, and is
  -- the same in whatever order the set is walked.
  pub to_json_native-set_of :
      (ss ts : List Str)
      → Perm ss ts
      → (encoded (to_json_native text (set_of (to_datas (texts ss))))
          ≡ ok (list (map (λ s. str s) (sorted (λ s. s) ss))))
        × (encoded (to_json_native text (set_of (to_datas (texts ts))))
            ≡ ok (list (map (λ s. str s) (sorted (λ s. s) ss))))
  unfolding to_json_native encoded
  to_json_native-set_of ss ts p = (
    rw (data_list_lem (texts ss), sorted-texts ss, all_encoded-texts (sorted same ss)) refl,
    rw
        (
          data_list_lem (texts ts),
          sorted-texts ts,
          all_encoded-texts (sorted same ts),
          sym (sorted-Perm p),
        )
        refl,
  )
