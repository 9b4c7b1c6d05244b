-- ===== src/Decimal.antt =====
-- Python's `str` and `int` between integers and their decimal digits, on ASCII digits. The limit of
-- the interpreter on the number of digits is not modelled.
use mathlib.Core.Option
use mathlib.Core.List.{reverse-reverse}
use esr.Base.{
  ℕ, zero, suc, ◌+◌, ◌-◌, ◌*◌, ◌/◌, ◌%◌, ◌<◌, ◌≡◌, refl, Bool, true, false, ◌&&◌, Option, none,
  some, [], ◌∷◌, ◌++◌, Str, ltb, leb, eqb, if◌then◌else◌, strip, strip_left, is_space, reverse, All,
  All-reverse, All-append, Bool-cases, inl, inr, ap, arith,
}

-- The digits of a number, on fuel; one more than the number is enough.
show_digits : ℕ → ℕ → Str
show_digits zero n = []
show_digits (suc f) n =
    let more = show_digits f (n / 10) ++ ((48 + n % 10) ∷ []) in
    if ltb n 10 then (48 + n) ∷ [] else more

-- `str(n)` of a natural number
unfoldable pub show_nat : ℕ → Str
unfolding show_digits
show_nat n = show_digits (suc n) n

abbrev pub is_digit : ℕ → Bool
is_digit c = leb 48 c && leb c 57

-- `s.isdigit()` on ASCII
unfoldable pub all_digits : Str → Bool
all_digits [] = true
all_digits (c ∷ s) = is_digit c && all_digits s

unfoldable pub is_digits : Str → Bool
unfolding all_digits
is_digits [] = false
is_digits (c ∷ s) = all_digits (c ∷ s)

-- The rest of a numeral. `open` says that an underscore may come next: one stood not just before.
unfoldable pub read_more : Bool → ℕ → Str → Option ℕ
read_more digit_before n [] = if digit_before then some n else none
read_more digit_before n (c ∷ s) =
    let next = read_more true (n * 10 + (c - 48)) s in
    let gap = read_more false n s in
    if is_digit c then next else if digit_before && eqb c b'_' then gap else none

-- A numeral with no sign; it begins and ends with a digit.
unfoldable pub read_nat : Str → Option ℕ
unfolding read_more
read_nat s = read_more false 0 s

show_digits-Digits : (f n : ℕ) → All (λ c. is_digit c ≡ true) (show_digits f n)
unfolding show_digits
show_digits-Digits zero n = tt
show_digits-Digits (suc f) n = elim (Bool-cases (ltb n 10)) [
  | inl e ↦ rw e (ground arith, tt)
  | inr e ↦
      rw e
        (All-append _ (show_digits f (n / 10)) _ (show_digits-Digits f (n / 10)) (ground arith, tt))
]

pub show_nat-Digits : (n : ℕ) → All (λ c. is_digit c ≡ true) (show_nat n)
unfolding show_nat
show_nat-Digits n = show_digits-Digits (suc n) n

read_more-append :
    (s : Str) (b : Bool) (n c : ℕ)
    → All (λ c. is_digit c ≡ true) s
    → is_digit c ≡ true
    → (m : ℕ) → read_more b n s ≡ some m
    → read_more b n (s ++ (c ∷ [])) ≡ some (m * 10 + (c - 48))
unfolding read_more
read_more-append [] b n c h d m e = ground arith
read_more-append (x ∷ s) b n c h d m e =
    ground (arith, h.0, read_more-append s true (n * 10 + (x - 48)) c h.1 d m)

read_nat-show_digits : (f n : ℕ) → n < f → read_more false 0 (show_digits f n) ≡ some n
unfolding show_digits read_more
read_nat-show_digits zero n h = elim h [ ]
read_nat-show_digits (suc f) n h = elim (Bool-cases (ltb n 10)) [
  | inl e ↦ rw e (ground arith)
  | inr e ↦
      rw
        (
          e,
          read_more-append (show_digits f (n / 10)) false 0 (48 + n % 10)
              (show_digits-Digits f (n / 10)) (ground arith) (n / 10)
              (read_nat-show_digits f (n / 10) (ground arith)),
        )
        (ap some (omega arith))
]

-- Reading a printed number gives it back.
pub read_nat-show_nat : (n : ℕ) → read_nat (show_nat n) ≡ some n
unfolding read_nat show_nat
read_nat-show_nat n = read_nat-show_digits (suc n) n (omega arith)

-- An `int`; `negsuc n` is -(n + 1).
pub data ℤ : Type 0 where
  pos : ℕ → ℤ
  negsuc : ℕ → ℤ

-- `str(i)`
unfoldable pub show_int : ℤ → Str
unfolding show_nat
show_int (pos n) = show_nat n
show_int (negsuc n) = b'-' ∷ show_nat (suc n)

abbrev pub negative : ℕ → ℤ
negative zero = pos zero
negative (suc n) = negsuc n

unfoldable pub read_signed : Str → Option ℤ
unfolding read_nat
read_signed [] = none
read_signed (c ∷ s) =
    if eqb c b'-'
    then Option.map negative (read_nat s)
    else if eqb c b'+'
    then Option.map pos (read_nat s)
    else Option.map pos (read_nat (c ∷ s))

-- `int(s)`, `none` for its `ValueError`
unfoldable pub read_int : Str → Option ℤ
unfolding read_signed
read_int s = read_signed (strip s)

strip_left-Digits : (s : Str) → All (λ c. is_digit c ≡ true) s → strip_left s ≡ s
unfolding strip_left is_space
strip_left-Digits [] h = refl
strip_left-Digits (c ∷ s) h = ground (arith, h.0)

strip-Digits : (s : Str) → All (λ c. is_digit c ≡ true) s → strip s ≡ s
unfolding strip
strip-Digits s h =
    rw
      (
        strip_left-Digits s h,
        strip_left-Digits (reverse s) (All-reverse (λ c. is_digit c ≡ true) s h),
      )
      (reverse-reverse s)

read_signed-Digits :
    (s : Str) (n : ℕ)
    → All (λ c. is_digit c ≡ true) s
    → read_nat s ≡ some n
    → read_signed s ≡ some (pos n)
unfolding read_signed
read_signed-Digits [] n h e = cc
read_signed-Digits (c ∷ s) n h e = ground (arith, h.0)

-- `int(str(n))` is `n`.
pub read_int-show_nat : (n : ℕ) → read_int (show_nat n) ≡ some (pos n)
unfolding read_int
read_int-show_nat n =
    rw (strip-Digits (show_nat n) (show_nat-Digits n))
      (read_signed-Digits (show_nat n) n (show_nat-Digits n) (read_nat-show_nat n))
