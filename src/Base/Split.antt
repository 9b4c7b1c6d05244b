-- ===== src/Base/Split.antt =====
-- Cutting a text at a separator: `split`, `partition`, `rsplit`, `join` and `strip` of Python's
-- `str`.
use esr.Base.Tests.{leb, eqb, if◌then◌else◌}
use esr.Base.Lists.{All}
use esr.Base.Text.{Str}
use Prim.Native.Nat.{ℕ}
use mathlib.Core.Path.{◌≡◌, refl}
use mathlib.Core.Logic.{◌≢◌}
use mathlib.Core.Bool.{Bool, ◌&&◌, ◌||◌}
use mathlib.Core.Option.{Option, none, some}
use mathlib.Core.List.{List, [], ◌∷◌, ◌++◌, reverse}
use native.Mathlib.Omega.{arith}

-- No code point of the text is `c`.
abbrev pub Free : ℕ → Str → Type 0
Free c = All (λ x. x ≢ c)

abbrev pub before : ℕ → Option (Str × Str) → Option (Str × Str)
before x none = none
before x (some (a, b)) = some (x ∷ a, b)

-- `s.split(c, 1)` and `s.partition(c)`; `none` if `c` does not occur.
unfoldable pub cut : ℕ → Str → Option (Str × Str)
cut c [] = none
cut c (x ∷ s) = if eqb x c then some ([], s) else before x (cut c s)

abbrev pub last_cut : ℕ → ℕ → Str → Option (Str × Str) → Option (Str × Str)
last_cut c x s (some (a, b)) = some (x ∷ a, b)
last_cut c x s none = if eqb x c then some ([], s) else none

-- `s.rsplit(c, 1)`; `none` if `c` does not occur.
unfoldable pub rcut : ℕ → Str → Option (Str × Str)
rcut c [] = none
rcut c (x ∷ s) = last_cut c x s (rcut c s)

abbrev pub on_head : ℕ → List Str → List Str
on_head x [] = (x ∷ []) ∷ []
on_head x (p ∷ ps) = (x ∷ p) ∷ ps

-- `s.split(c)`
unfoldable pub split : ℕ → Str → List Str
split c [] = [] ∷ []
split c (x ∷ s) = if eqb x c then [] ∷ split c s else on_head x (split c s)

-- `sep.join(parts)` for a one-character separator
unfoldable pub join : ℕ → List Str → Str
join c [] = []
join c (p ∷ []) = p
join c (p ∷ q ∷ ps) = p ++ (c ∷ join c (q ∷ ps))

pub cut-append : (c : ℕ) (a b : Str) → Free c a → cut c (a ++ (c ∷ b)) ≡ some (a, b)
unfolding cut
cut-append c [] b h = ground arith
cut-append c (x ∷ a) b h = ground (arith, cut-append c a b h.1)

pub cut-Free : (c : ℕ) (s : Str) → Free c s → cut c s ≡ none
unfolding cut
cut-Free c [] h = refl
cut-Free c (x ∷ s) h = ground (arith, cut-Free c s h.1)

pub cut-none-Free : (c : ℕ) (s : Str) → cut c s ≡ none → Free c s
unfolding cut
cut-none-Free c [] h = tt
cut-none-Free c (x ∷ s) h = ground (arith, cut-none-Free c s)

-- What was cut is there, and the first part holds no separator.
pub cut_sound : (c : ℕ) (s a b : Str) → cut c s ≡ some (a, b) → (s ≡ a ++ (c ∷ b)) × Free c a
unfolding cut
cut_sound c [] a b h = cc
cut_sound c (x ∷ s) [] b h = ground arith
cut_sound c (x ∷ s) (y ∷ a) b h = ground (arith, cut_sound c s a b)

pub rcut-Free : (c : ℕ) (s : Str) → Free c s → rcut c s ≡ none
unfolding rcut
rcut-Free c [] h = refl
rcut-Free c (x ∷ s) h = ground (arith, rcut-Free c s h.1)

pub rcut-append : (c : ℕ) (a b : Str) → Free c b → rcut c (a ++ (c ∷ b)) ≡ some (a, b)
unfolding rcut
rcut-append c [] b h = ground (arith, rcut-Free c b h)
rcut-append c (x ∷ a) b h = ground (arith, rcut-append c a b h)

split_whole : (c : ℕ) (s : Str) → Free c s → split c s ≡ s ∷ []
unfolding split
split_whole c [] h = refl
split_whole c (x ∷ s) h = ground (arith, split_whole c s h.1)

split-append : (c : ℕ) (a b : Str) → Free c a → split c (a ++ (c ∷ b)) ≡ a ∷ split c b
unfolding split
split-append c [] b h = ground arith
split-append c (x ∷ a) b h = ground (arith, split-append c a b h.1)

-- Splitting gives back the parts that were joined.
pub split-join :
    (c : ℕ) (p : Str) (ps : List Str) → All (Free c) (p ∷ ps) → split c (join c (p ∷ ps)) ≡ p ∷ ps
unfolding join
split-join c p [] h = split_whole c p h.0
split-join c p (q ∷ ps) h =
    ground (arith, split-append c p (join c (q ∷ ps)) h.0, split-join c q ps h.1)

on_head-Free : (c x : ℕ) (ps : List Str) → x ≢ c → All (Free c) ps → All (Free c) (on_head x ps)
on_head-Free c x [] h k = ((h, tt), tt)
on_head-Free c x (p ∷ ps) h k = ((h, k.0), k.1)

-- No part holds the separator.
pub split-Free : (c : ℕ) (s : Str) → All (Free c) (split c s)
unfolding split
split-Free c [] = (tt, tt)
split-Free c (x ∷ s) = ground (arith, split-Free c s, on_head-Free c x (split c s))

pub Free-append : (c : ℕ) (a b : Str) → Free c a → Free c b → Free c (a ++ b)
Free-append c [] b h k = k
Free-append c (x ∷ a) b h k = (h.0, Free-append c a b h.1 k)

pub Free-join : (c d : ℕ) (ps : List Str) → d ≢ c → All (Free c) ps → Free c (join d ps)
unfolding join
Free-join c d [] h k = tt
Free-join c d (p ∷ []) h k = k.0
Free-join c d (p ∷ q ∷ ps) h k =
    Free-append c p (d ∷ join d (q ∷ ps)) k.0 (h, Free-join c d (q ∷ ps) h k.1)

-- `str.isspace` of one code point
unfoldable pub is_space : ℕ → Bool
is_space c =
    (leb 9 c && leb c 13)
    || (leb 28 c && leb c 32)
    || eqb c 133
    || eqb c 160
    || eqb c 5760
    || (leb 8192 c && leb c 8202)
    || eqb c 8232
    || eqb c 8233
    || eqb c 8239
    || eqb c 8287
    || eqb c 12288

unfoldable pub strip_left : Str → Str
strip_left [] = []
strip_left (x ∷ s) = let rest = strip_left s in if is_space x then rest else x ∷ s

-- `s.strip()`
unfoldable pub strip : Str → Str
unfolding strip_left is_space
strip s = reverse (strip_left (reverse (strip_left s)))

abbrev pub flush : Str → List Str → List Str
flush [] words = words
flush (x ∷ w) words = reverse (x ∷ w) ∷ words

-- `s.split()`: the words between runs of white space. `w` is the word that is open, backwards.
unfoldable pub words_from : Str → Str → List Str
words_from w [] = flush w []
words_from w (x ∷ s) =
    let space = flush w (words_from [] s) in
    let letter = words_from (x ∷ w) s in if is_space x then space else letter

unfoldable pub words : Str → List Str
unfolding words_from is_space
words s = words_from [] s
