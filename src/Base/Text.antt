-- ===== src/Base/Text.antt =====
-- Python's `str` as its list of code points, with the methods that the program calls.
use Prim.Native.Char.{code}
use Prim.Native.String.{String}
use Prim.Native.Nat.{ℕ}
use mathlib.Core.Path.{◌≡◌, refl}
use mathlib.Core.Logic.{◌↔◌}
use mathlib.Core.Bool.{Bool, true, false, ◌&&◌, ◌||◌}
use mathlib.Core.List.{List, [], ◌∷◌, ◌++◌}
use native.Mathlib.Omega.{arith}
use esr.Base.Tests.{eqb, if◌then◌else◌}
use esr.Base.Lists.{length, drop}

abbrev pub Str : Type 0
Str = List ℕ

-- The code points of a text literal.
abbrev pub lit : String → Str
lit String.[] = []
lit (String.◌∷◌ c s) = code c ∷ lit s

infix 50 ◌==◌
unfoldable pub ◌==◌ : Str → Str → Bool
[] == [] = true
[] == (y ∷ ys) = false
(x ∷ xs) == [] = false
(x ∷ xs) == (y ∷ ys) = eqb x y && xs == ys

pub eq_refl : (s : Str) → (s == s) ≡ true
unfolding ◌==◌
eq_refl [] = refl
eq_refl (x ∷ s) = ground (arith, eq_refl s)

eq_sound : (s t : Str) → (s == t) ≡ true → s ≡ t
unfolding ◌==◌
eq_sound [] [] h = refl
eq_sound [] (y ∷ t) h = cc
eq_sound (x ∷ s) [] h = cc
eq_sound (x ∷ s) (y ∷ t) h = ground (arith, eq_sound s t)

pub eq_iff : (s t : Str) → ((s == t) ≡ true) ↔ (s ≡ t)
eq_iff s t = (eq_sound s t, λ e. ground (arith, eq_refl s))

-- `x in xs` for a list, a tuple or a set of texts.
unfoldable pub contains : List Str → Str → Bool
contains [] s = false
contains (x ∷ xs) s = x == s || contains xs s

unfoldable pub starts_with : Str → Str → Bool
starts_with s [] = true
starts_with [] (c ∷ p) = false
starts_with (x ∷ s) (c ∷ p) = eqb x c && starts_with s p

-- `s.removeprefix(p)`
unfoldable pub remove_prefix : Str → Str → Str
unfolding starts_with
remove_prefix s p = if starts_with s p then drop (length p) s else s

pub starts_with-append : (p s : Str) → starts_with (p ++ s) p ≡ true
unfolding starts_with
starts_with-append [] [] = refl
starts_with-append [] (x ∷ s) = refl
starts_with-append (c ∷ p) s = ground (arith, starts_with-append p s)

pub starts_with_sound : (s p : Str) → starts_with s p ≡ true → s ≡ p ++ drop (length p) s
unfolding starts_with
starts_with_sound [] [] h = refl
starts_with_sound (x ∷ s) [] h = refl
starts_with_sound [] (c ∷ p) h = cc
starts_with_sound (x ∷ s) (c ∷ p) h = ground (arith, starts_with_sound s p)

pub contains-append :
    (xs ys : List Str) (x : Str) → contains (xs ++ ys) x ≡ contains xs x || contains ys x
unfolding contains
contains-append [] ys x = refl
contains-append (z ∷ xs) ys x = ground (arith, contains-append xs ys x)

-- No text stands twice.
abbrev pub Distinct : List Str → Type 0
Distinct [] = Unit
Distinct (x ∷ xs) = (contains xs x ≡ false) × Distinct xs

pub Distinct-append :
    (xs : List Str) (x : Str) → Distinct xs → contains xs x ≡ false → Distinct (xs ++ x ∷ [])
unfolding contains
Distinct-append [] x d h = (refl, tt)
Distinct-append (y ∷ xs) x d h =
    ground (arith, contains-append xs (x ∷ []) y, eq_iff x y, eq_iff y x, Distinct-append xs x d.1)
