-- ===== src/Registry.antt =====
-- py/src/esr/handler.py: the registries of handlers and of state models. A registry is a dict from
-- which the decorators make the next; `F` is the type of the functions and `M` that of the models.
use esr.Base.{
  ◌≡◌, refl, sym, inl, inr, Bool, true, false, not, ◌||◌, Option, none, some, List, [], ◌∷◌, ◌++◌,
  Str, ◌==◌, eq_refl, contains, contains-append, Dict, get, has, put, get-put, if◌then◌else◌,
  Bool-cases, arith,
}
use esr.Decimal.{ℤ}
use esr.Base.Result.{Result, ok, err, Exc, value_error, type_error}

pub record HandlerEntry {ℓ} (F : Type ℓ) : Type ℓ where
  pub actor_type : Str
  pub name : Str
  pub fn : F
  pub permissions : List Str

pub record StateEntry {ℓ} (M : Type ℓ) : Type ℓ where
  pub actor_type : Str
  pub schema_version : ℤ
  pub model : M

-- `f"{actor_type}.{name}"`
abbrev pub handler_key : Str → Str → Str
handler_key actor_type name = actor_type ++ (b'.' ∷ name)

abbrev pub given_permissions : Option (List Str) → List Str
given_permissions none = []
given_permissions (some ps) = ps

module _ {ℓ} {F : Type ℓ} where
  -- The decorator that `handler` returns.
  unfoldable pub register_handler :
      Dict (HandlerEntry F)
      → (actor_type name : Str) → Option (List Str)
      → F
      → Result Exc (Dict (HandlerEntry F))
  register_handler registry actor_type name permissions fn =
      if has registry (handler_key actor_type name)
      then err value_error
      else ok (
          put registry (handler_key actor_type name) (record {
            actor_type = actor_type;
            name = name;
            fn = fn;
            permissions = given_permissions permissions;
          }))

  unfoldable pub all_permissions : Dict (HandlerEntry F) → List Str
  all_permissions [] = []
  all_permissions ((key, entry) ∷ registry) = entry.permissions ++ all_permissions registry

module _ {ℓ} {M : Type ℓ} where
  -- The decorator that `handler_state` returns; `is_frozen` is `_is_frozen_model`.
  unfoldable pub register_state :
      (is_frozen : M → Bool)
      → Dict (StateEntry M)
      → (actor_type : Str) (schema_version : ℤ) → M
      → Result Exc (Dict (StateEntry M))
  register_state is_frozen registry actor_type schema_version model =
      if not (is_frozen model)
      then err type_error
      else if has registry actor_type
      then err value_error
      else ok (
          put registry actor_type
            (record { actor_type = actor_type; schema_version = schema_version; model = model }))

module _ {ℓ} {F : Type ℓ} where
  get-has :
      (registry : Dict (HandlerEntry F)) (k : Str) → has registry k ≡ false → get registry k ≡ none
  unfolding has get
  get-has [] k h = refl
  get-has ((j, e) ∷ registry) k h = ground (arith, get-has registry k)

  all_permissions-put :
      (registry : Dict (HandlerEntry F)) (k : Str) (entry : HandlerEntry F) (p : Str)
      → has registry k ≡ false
      → contains (all_permissions (put registry k entry)) p
        ≡ (contains entry.permissions p || contains (all_permissions registry) p)
  unfolding has put all_permissions
  all_permissions-put [] k entry p h = contains-append entry.permissions [] p
  all_permissions-put ((j, e) ∷ registry) k entry p h = ground (
    arith,
    contains-append e.permissions (all_permissions (put registry k entry)) p,
    contains-append e.permissions (all_permissions registry) p,
    all_permissions-put registry k entry p,
  )

  has-put :
      (registry : Dict (HandlerEntry F)) (k : Str) (entry : HandlerEntry F)
      → has (put registry k entry) k ≡ true
  unfolding has put
  has-put [] k entry = ground (arith, eq_refl k)
  has-put ((j, e) ∷ registry) k entry = ground (arith, eq_refl k, has-put registry k entry)

  registered :
      (registry : Dict (HandlerEntry F)) (key : Str) (entry : HandlerEntry F)
      (next : Dict (HandlerEntry F))
      → ◌≡◌ {A = Result Exc (Dict (HandlerEntry F))}
          (if has registry key then err value_error else ok (put registry key entry))
          (ok next)
      → (has registry key ≡ false) × (next ≡ put registry key entry)
  registered registry key entry next e = elim (Bool-cases (has registry key)) [
    | inl taken ↦ absurd (refused (rw taken at e))
    | inr free ↦ (free, sym (same (rw free at e)))
  ]
    where
      refused : ◌≡◌ {A = Result Exc (Dict (HandlerEntry F))} (err value_error) (ok next) → ⊥
      refused h = cc

      same :
          ◌≡◌ {A = Result Exc (Dict (HandlerEntry F))} (ok (put registry key entry)) (ok next)
          → put registry key entry ≡ next
      same h = cc

  -- If a handler is registered, its key was new; it is found under its key, and every other key has
  -- what it had; the process declares the permissions of the handler besides those that it declared
  -- before; and to register anything else under the key is refused with a `ValueError`.
  pub register_handler_lem :
      (registry : Dict (HandlerEntry F)) (actor_type name : Str) (permissions : Option (List Str))
      (fn : F)
      → (next : Dict (HandlerEntry F))
      → register_handler registry actor_type name permissions fn ≡ ok next
      → ((k : Str)
          → get next k ≡ (
              if handler_key actor_type name == k
              then some (record {
                actor_type = actor_type;
                name = name;
                fn = fn;
                permissions = given_permissions permissions;
              })
              else get registry k))
        × ((p : Str)
            → contains (all_permissions next) p ≡ (
                contains (given_permissions permissions) p
                || contains (all_permissions registry) p))
        × (get registry (handler_key actor_type name) ≡ none)
        × ((fn' : F) → register_handler next actor_type name permissions fn' ≡ err value_error)
  unfolding register_handler
  register_handler_lem registry actor_type name permissions fn next e =
      let key : Str = handler_key actor_type name in
      let entry : HandlerEntry F = record {
        actor_type = actor_type;
        name = name;
        fn = fn;
        permissions = given_permissions permissions;
      } in
      let (free, same) = registered registry key entry next e in
      (
        λ k. rw same (get-put registry key k entry),
        λ p. rw same (all_permissions-put registry key entry p free),
        get-has registry key free,
        λ fn'. rw (same, has-put registry key entry) refl,
      )
