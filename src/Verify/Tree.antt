-- ===== src/Verify/Tree.antt =====
-- Where nodes stand in a tree, and lists of violations.
use esr.Base.{
  ℕ, ◌≡◌, refl, ◌⊎◌, inl, inr, false, Option, none, some, List, [], ◌∷◌, ◌++◌, Str, contains, ◌↔◌,
  Bool-cases, true,
}
use esr.Value.{Value}
use esr.Verify.{
  Node, import_, import_from, if_, name, attribute, other, children, is_guarded, top, check_names,
  check_from, check,
}

-- The list holds `a`.
abbrev pub Holds : {A : Type 0} → A → List A → Type 0
Holds a [] = ⊥
Holds a (x ∷ xs) = (a ≡ x) ⊎ Holds a xs

pub Holds-append_left : {A : Type 0} (a : A) (xs ys : List A) → Holds a xs → Holds a (xs ++ ys)
Holds-append_left a [] ys h = elim h [ ]
Holds-append_left a (x ∷ xs) ys (inl e) = inl e
Holds-append_left a (x ∷ xs) ys (inr h) = inr (Holds-append_left a xs ys h)

pub Holds-append_right : {A : Type 0} (a : A) (xs ys : List A) → Holds a ys → Holds a (xs ++ ys)
Holds-append_right a [] ys h = h
Holds-append_right a (x ∷ xs) ys h = inr (Holds-append_right a xs ys h)

pub Holds-append :
    {A : Type 0} (a : A) (xs ys : List A) → Holds a (xs ++ ys) → Holds a xs ⊎ Holds a ys
Holds-append a [] ys h = inr h
Holds-append a (x ∷ xs) ys (inl e) = inl (inl e)
Holds-append a (x ∷ xs) ys (inr h) = elim (Holds-append a xs ys h) [
  | inl l ↦ inl (inr l)
  | inr r ↦ inr r
]

-- The node stands in the tree.
pub data Within (n : Node) : Node → Type 0 where
  here : Within n n
  below : {p : Node} (c : Node) → Holds c (children p) → Within n c → Within n p

-- It stands there, and not under an `if TYPE_CHECKING:`.
pub data Live (n : Node) : Node → Type 0 where
  here : Live n n
  below : {p : Node} (c : Node) → is_guarded p ≡ false → Holds c (children p) → Live n c → Live n p

-- The node imports the module of that name; a relative import without a name imports none.
abbrev pub Imports : Str → Node → Type 0
Imports m (import_ names lineno) = Holds m names
Imports m (import_from module_ lineno) = module_ ≡ some m
Imports m _ = ⊥

pub append-eq-nil {ℓ} : {A : Type ℓ} (xs ys : List A) → (xs ++ ys) ≡ [] → (xs ≡ []) × (ys ≡ [])
append-eq-nil [] ys e = (refl, e)
append-eq-nil (x ∷ xs) ys e = cc

cons-ne-nil {ℓ} : {A : Type ℓ} {x : A} {xs : List A} → ◌≡◌ {A = List A} (x ∷ xs) [] → ⊥
cons-ne-nil e = cc

module _ (repr : Value → Str) (allowed : List Str) (reason : Str → Str) where
  -- Every module that the node imports is allowed.
  abbrev pub IsAllowed : Node → Type 0
  IsAllowed n = (m : Str) → Imports m n → contains allowed (top m) ≡ true

  names_allowed :
      (names : List Str) (lineno : ℕ)
      → check_names repr allowed reason names lineno ≡ []
      → (m : Str) → Holds m names
      → contains allowed (top m) ≡ true
  unfolding check_names
  names_allowed [] lineno e m h = elim h [ ]
  names_allowed (alias ∷ names) lineno e m h = elim (Bool-cases (contains allowed (top alias))) [
    | inl fine ↦ elim h [
      | inl same ↦ rw same fine
      | inr later ↦ names_allowed names lineno (rw fine at e) m later
    ]
    | inr refused ↦ absurd (cons-ne-nil (rw refused at e))
  ]

  names_silent :
      (names : List Str) (lineno : ℕ)
      → ((m : Str) → Holds m names → contains allowed (top m) ≡ true)
      → check_names repr allowed reason names lineno ≡ []
  unfolding check_names
  names_silent [] lineno h = refl
  names_silent (alias ∷ names) lineno h =
      rw (h alias (inl refl)) (names_silent names lineno (λ m later. h m (inr later)))

  from_allowed :
      (module_ : Option Str) (lineno : ℕ)
      → check_from repr allowed reason module_ lineno ≡ []
      → (m : Str) → module_ ≡ some m
      → contains allowed (top m) ≡ true
  from_allowed none lineno e m h = cc
  from_allowed (some module_) lineno e m h = elim (Bool-cases (contains allowed (top module_))) [
    | inl fine ↦ let same : m ≡ module_ = cc in rw same fine
    | inr refused ↦ absurd (cons-ne-nil (rw refused at e))
  ]

  -- No violation of a node is reported exactly if every module that it imports is allowed.
  pub check_iff : (n : Node) → (check repr allowed reason n ≡ []) ↔ IsAllowed n
  unfolding check
  check_iff (import_ names lineno) = (names_allowed names lineno, names_silent names lineno)
  check_iff (import_from none lineno) = (from_allowed none lineno, λ h. refl)
  check_iff (import_from (some module_) lineno) =
      (from_allowed (some module_) lineno, λ h. rw (h module_ refl) refl)
  check_iff (if_ test body orelse) = (λ e m h. elim h [ ], λ h. refl)
  check_iff (name id) = (λ e m h. elim h [ ], λ h. refl)
  check_iff (attribute value attr) = (λ e m h. elim h [ ], λ h. refl)
  check_iff (other ns) = (λ e m h. elim h [ ], λ h. refl)
