-- ===== src/Feishu/Poll/Once.antt =====
-- Every message is taken up once.
use esr.Base.{
  ◌≡◌, refl, sym, ap, ap₂, ◌∙◌, Bool, true, false, not, ◌&&◌, ◌||◌, Option, none, some, List, [],
  ◌∷◌, ◌++◌, reverse, reverse-cons, Str, contains, map, map-append, All, arith, Distinct-append,
  subst, Distinct, eq_iff, contains-append, eq_refl,
}
use esr.Value.{Value, nonempty}
use esr.Feishu.Poll.{Poll, start, id_of, see, fresh, poll, polls}

abbrev pub ids : List Value → List Str
ids ms = map id_of ms

contains-see :
    (seen : List Str) (ms : List Value) (x : Str)
    → contains (see seen ms) x ≡ (contains seen x || (nonempty x && contains (ids ms) x))
unfolding see contains
contains-see seen [] x = ground arith
contains-see seen (m ∷ ms) x =
    ground (arith, eq_iff (id_of m) x, contains-see (id_of m ∷ seen) ms x, contains-see seen ms x)

contains-fresh :
    (seen : List Str) (ms : List Value) (x : Str)
    → contains (ids (fresh seen ms)) x
      ≡ (nonempty x && contains (ids ms) x && not (contains seen x))
unfolding fresh contains
contains-fresh seen [] x = ground arith
contains-fresh seen (m ∷ ms) x =
    ground
      (arith, eq_iff (id_of m) x, contains-fresh (id_of m ∷ seen) ms x, contains-fresh seen ms x)

Distinct-fresh : (seen : List Str) (ms : List Value) → Distinct (ids (fresh seen ms))
unfolding fresh contains
Distinct-fresh seen [] = tt
Distinct-fresh seen (m ∷ ms) = ground (
  arith,
  eq_refl (id_of m),
  contains-fresh (id_of m ∷ seen) ms (id_of m),
  Distinct-fresh (id_of m ∷ seen) ms,
  Distinct-fresh seen ms,
)

Distinct-both :
    (xs ys : List Str)
    → Distinct xs
    → Distinct ys
    → ((x : Str) → contains xs x ≡ true → contains ys x ≡ false)
    → Distinct (xs ++ ys)
unfolding contains
Distinct-both [] ys d e h = e
Distinct-both (x ∷ xs) ys d e h = (
  contains-append xs ys x ∙ rw (d.0, h x (ground (arith, eq_refl x))) refl,
  Distinct-both xs ys d.1 e (λ z k. h z (ground arith)),
)

ids-reverse_cons :
    (m : Value) (ms : List Value) → ids (reverse (m ∷ ms)) ≡ ids (reverse ms) ++ id_of m ∷ []
ids-reverse_cons m ms = rw reverse-cons (map-append id_of (reverse ms) (m ∷ []))

last_first :
    (m : Value) (ms : List Value) (x : Str) (b : Bool)
    → b ≡ contains (ids ms) x
    → (b || contains (id_of m ∷ []) x) ≡ contains (ids (m ∷ ms)) x
unfolding contains
last_first m ms x b h = ground arith

contains-reverse : (ms : List Value) (x : Str) → contains (ids (reverse ms)) x ≡ contains (ids ms) x
contains-reverse [] x = refl
contains-reverse (m ∷ ms) x =
    ap (λ l. contains l x) (ids-reverse_cons m ms)
    ∙ contains-append (ids (reverse ms)) (id_of m ∷ []) x
    ∙ last_first m ms x (contains (ids (reverse ms)) x) (contains-reverse ms x)

Distinct-reverse : (ms : List Value) → Distinct (ids ms) → Distinct (ids (reverse ms))
Distinct-reverse [] d = tt
Distinct-reverse (m ∷ ms) d = subst Distinct (sym (ids-reverse_cons m ms)) (
    Distinct-append (ids (reverse ms)) (id_of m) (Distinct-reverse ms d.1)
      (contains-reverse ms (id_of m) ∙ d.0))

-- Does a message of the lists bear the identifier?
unfoldable pub listed : List (Option (List Value)) → Str → Bool
listed [] x = false
listed (none ∷ lists) x = listed lists x
listed (some ms ∷ lists) x = contains (ids ms) x || listed lists x

abbrev pub polling : List Str → Poll
polling seen = record { seen = seen; bootstrap = false }

-- Once the first list was read, the rounds take up exactly the messages that are listed and were not
-- seen before.
contains-polls :
    (seen : List Str) (lists : List (Option (List Value))) (x : Str)
    → contains (ids (polls (polling seen) lists)) x
      ≡ (nonempty x && listed lists x && not (contains seen x))
unfolding polls poll listed contains
contains-polls seen [] x = ground arith
contains-polls seen (none ∷ lists) x = contains-polls seen lists x
contains-polls seen (some [] ∷ lists) x = contains-polls seen lists x
contains-polls seen (some (m ∷ ms) ∷ lists) x =
    ap (λ l. contains l x)
      (map-append id_of (reverse (fresh seen (m ∷ ms))) (polls (polling (see seen (m ∷ ms))) lists))
    ∙ contains-append (ids (reverse (fresh seen (m ∷ ms))))
        (ids (polls (polling (see seen (m ∷ ms))) lists)) x
    ∙ ap₂ (λ a b. a || b)
        (contains-reverse (fresh seen (m ∷ ms)) x ∙ contains-fresh seen (m ∷ ms) x)
        (contains-polls (see seen (m ∷ ms)) lists x
          ∙ ap (λ b. nonempty x && listed lists x && not b) (contains-see seen (m ∷ ms) x))
    ∙ joined (nonempty x) (contains (ids (m ∷ ms)) x) (contains seen x) (listed lists x)
  where
    joined :
        (n a s l : Bool)
        → ((n && a && not s) || (n && l && not (s || (n && a)))) ≡ (n && (a || l) && not s)
    joined n a s l = ground arith

Distinct-polls :
    (seen : List Str) (lists : List (Option (List Value)))
    → Distinct (ids (polls (polling seen) lists))
unfolding polls poll
Distinct-polls seen [] = tt
Distinct-polls seen (none ∷ lists) = Distinct-polls seen lists
Distinct-polls seen (some [] ∷ lists) = Distinct-polls seen lists
Distinct-polls seen (some (m ∷ ms) ∷ lists) =
    subst Distinct
      (sym (
        map-append id_of (reverse (fresh seen (m ∷ ms)))
          (polls (polling (see seen (m ∷ ms))) lists)))
      (Distinct-both (ids (reverse (fresh seen (m ∷ ms))))
        (ids (polls (polling (see seen (m ∷ ms))) lists))
        (Distinct-reverse (fresh seen (m ∷ ms)) (Distinct-fresh seen (m ∷ ms)))
        (Distinct-polls (see seen (m ∷ ms)) lists)
        (λ x h.
          apart x
            (sym (contains-reverse (fresh seen (m ∷ ms)) x ∙ contains-fresh seen (m ∷ ms) x) ∙ h)))
  where
    gone : (n a s l : Bool) → (n && a && not s) ≡ true → (n && l && not (s || (n && a))) ≡ false
    gone n a s l h = ground arith

    apart :
        (x : Str)
        → (nonempty x && contains (ids (m ∷ ms)) x && not (contains seen x)) ≡ true
        → contains (ids (polls (polling (see seen (m ∷ ms))) lists)) x ≡ false
    apart x h =
        contains-polls (see seen (m ∷ ms)) lists x
        ∙ ap (λ b. nonempty x && listed lists x && not b) (contains-see seen (m ∷ ms) x)
        ∙ gone (nonempty x) (contains (ids (m ∷ ms)) x) (contains seen x) (listed lists x) h

-- A call that failed or listed nothing.
abbrev pub IsEmpty : Option (List Value) → Type 0
IsEmpty none = Unit
IsEmpty (some []) = Unit
IsEmpty (some (m ∷ ms)) = ⊥

polls_silent :
    (silent lists : List (Option (List Value)))
    → All IsEmpty silent
    → polls start (silent ++ lists) ≡ polls start lists
unfolding polls poll
polls_silent [] lists h = refl
polls_silent (none ∷ silent) lists h = polls_silent silent lists h.1
polls_silent (some [] ∷ silent) lists h = polls_silent silent lists h.1
polls_silent (some (m ∷ ms) ∷ silent) lists h = absurd h.0

first_seen :
    (x : Str) (l a : Bool)
    → (nonempty x && l && not (contains [] x || (nonempty x && a))) ≡ (nonempty x && l && not a)
unfolding contains
first_seen [] l a = refl
first_seen (c ∷ x) l a = ground arith

-- Nothing that the first list with messages in it holds is taken up, however many calls have failed
-- or listed nothing before; of all later lists, every message that bears an identifier which the
-- first one had not is taken up, and no identifier is taken up twice.
pub polls_once :
    (silent : List (Option (List Value))) (m : Value) (ms : List Value)
    (lists : List (Option (List Value)))
    → All IsEmpty silent
    → Distinct (ids (polls start (silent ++ some (m ∷ ms) ∷ lists)))
      × ((x : Str)
          → contains (ids (polls start (silent ++ some (m ∷ ms) ∷ lists))) x
            ≡ (nonempty x && listed lists x && not (contains (ids (m ∷ ms)) x)))
unfolding polls poll
polls_once silent m ms lists h = rw (polls_silent silent (some (m ∷ ms) ∷ lists) h) (
  Distinct-polls (see [] (m ∷ ms)) lists,
  λ x.
      contains-polls (see [] (m ∷ ms)) lists x
      ∙ ap (λ b. nonempty x && listed lists x && not b) (contains-see [] (m ∷ ms) x)
      ∙ first_seen x (listed lists x) (contains (ids (m ∷ ms)) x),
)
