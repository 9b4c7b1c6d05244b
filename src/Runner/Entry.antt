-- ===== src/Runner/Entry.antt =====
-- How a sidecar starts: py/src/_adapter_common/main.py with the entry points of py/src/*_adapter_runner,
-- and the loader of py/src/esr/adapters.py. The arguments are those that argparse has accepted; `F` is
-- the type of the factories, and `import_module` gives the registry that an import leaves, or none
-- if it fails.
use esr.Base.{
  ℕ, ◌≡◌, refl, ◌↔◌, inl, inr, Bool, true, false, not, ◌&&◌, Bool-cases, Option, none, some, List,
  [], ◌∷◌, ◌++◌, map, Str, lit, contains, Dict, get, has, eqb, if◌then◌else◌, arith,
}
use esr.Base.Result.{Result, ok, err}
use esr.Value.{Value, nonempty}
use esr.Adapters.{AdapterEntry}

pub record Arguments : Type 0 where
  pub adapter : Str
  pub instance_id : Str
  pub config : Value
  pub url : Str
  pub dry_run : Bool

-- How the event loop ends; `failed` is any other exception.
pub data Finish : Type 0 where
  returned interrupted failed : Finish

-- The allowlists of the two dedicated sidecars.
abbrev pub feishu_allowed : Option (List Str)
feishu_allowed = some (lit "feishu" ∷ [])

abbrev pub cc_allowed : Option (List Str)
cc_allowed = some (lit "cc_mcp" ∷ [])

-- That of the fallback, which runs any adapter.
abbrev pub generic_allowed : Option (List Str)
generic_allowed = none

-- `_check_allowlist`
abbrev pub is_accepted : (allowlist : Option (List Str)) → (adapter : Str) → Bool
is_accepted none adapter = true
is_accepted (some names) adapter = contains names adapter

abbrev pub code_of : Finish → ℕ
code_of returned = 0
code_of interrupted = 0
code_of failed = 1

-- The exit code, and whether the adapter was run.
abbrev pub Exit : Type 0
Exit = ℕ × Bool

-- `main` of `build_main`
unfoldable pub main : (allowlist : Option (List Str)) → Arguments → Finish → Exit
main allowlist args finish =
    if not (is_accepted allowlist args.adapter)
    then (2, false)
    else if args.dry_run
    then (0, false)
    else (code_of finish, true)

abbrev pub has_token : Option Str → Bool
has_token none = false
has_token (some token) = nonempty token

-- The guard of an entry point, and then `main`.
unfoldable pub entry :
    (token : Option Str) → (allowlist : Option (List Str)) → Arguments → Finish → Exit
unfolding main
entry token allowlist args finish =
    if has_token token then main allowlist args finish else (2, false)

pub data NotFound : Type 0 where
  not_importable not_in_registry no_factory : NotFound

abbrev underscored : ℕ → ℕ
underscored c = if eqb c b'-' then b'_' else c

abbrev pub package_name : Str → Str
package_name name = lit "esr_" ++ map underscored name

module _ {C F : Type 0} (factory_of : C → Option F)
    (import_module : Str → Dict (AdapterEntry C) → Option (Dict (AdapterEntry C))) where
  abbrev pub factory_in : Option (AdapterEntry C) → Result NotFound F
  factory_in none = err not_in_registry
  factory_in (some e) = elim (factory_of e.cls) [
    | none ↦ err no_factory
    | some factory ↦ ok factory
  ]

  abbrev pub imported :
      Dict (AdapterEntry C)
      → (name : Str) → Option (Dict (AdapterEntry C))
      → Result NotFound F × Dict (AdapterEntry C)
  imported registry name none = (err not_importable, registry)
  imported registry name (some after) = (factory_in (get after name), after)

  -- The factory, and the registry, which an import may have changed.
  unfoldable pub load_adapter_factory :
      Dict (AdapterEntry C) → (name : Str) → Result NotFound F × Dict (AdapterEntry C)
  load_adapter_factory registry name =
      if has registry name
      then (factory_in (get registry name), registry)
      else imported registry name (import_module (package_name name) registry)

-- A sidecar runs its adapter exactly if it was spawned with a token, the adapter is in its allowlist,
-- if it has one, and no dry run is asked for. It ends with 2 exactly if the token is missing or the
-- adapter is not in the list, and with 1 exactly if the adapter was run and failed.
pub entry_lem :
    (token : Option Str) (allowlist : Option (List Str)) (args : Arguments) (finish : Finish)
    → (((entry token allowlist args finish).1 ≡ true) ↔ (
        (has_token token ≡ true)
        × (is_accepted allowlist args.adapter ≡ true)
        × (args.dry_run ≡ false)))
      × (((entry token allowlist args finish).0 ≡ 2)
          ↔ ((has_token token && is_accepted allowlist args.adapter) ≡ false))
      × (((entry token allowlist args finish).0 ≡ 1)
          ↔ (((entry token allowlist args finish).1 ≡ true) × (finish ≡ failed)))
unfolding entry
entry_lem token allowlist args finish = ground arith

factory_in_lem :
    {C F : Type 0} (factory_of : C → Option F)
    (import_module : Str → Dict (AdapterEntry C) → Option (Dict (AdapterEntry C)))
    (found : Option (AdapterEntry C)) (factory : F)
    → (factory_in factory_of import_module found ≡ ok factory)
      ↔ ((e : AdapterEntry C) × (found ≡ some e) × (factory_of e.cls ≡ some factory))
factory_in_lem factory_of import_module none factory = (λ h. cc, λ h. cc (h.1))
factory_in_lem factory_of import_module (some e) factory =
    (λ h. (e, refl, ground arith), λ h. ground (arith, h.1, h.2))

-- What is loaded is the factory of the adapter that the registry has under the name, after the import
-- if one was made; for a name that was registered before, none is made.
pub load_adapter_factory_lem :
    {C F : Type 0} (factory_of : C → Option F)
    (import_module : Str → Dict (AdapterEntry C) → Option (Dict (AdapterEntry C)))
    (registry : Dict (AdapterEntry C)) (name : Str) (factory : F)
    → (load_adapter_factory factory_of import_module registry name).0 ≡ ok factory
    → ((e : AdapterEntry C) × (get
            (load_adapter_factory factory_of import_module registry name).1
            name
          ≡ some e)
        × (factory_of e.cls ≡ some factory))
      × (has registry name ≡ true
          → (load_adapter_factory factory_of import_module registry name).1 ≡ registry)
unfolding load_adapter_factory
load_adapter_factory_lem {C = C} {F = F} factory_of import_module registry name factory h =
    elim (Bool-cases (has registry name)) [
      | inl known ↦ rw known (
        (factory_in_lem factory_of import_module (get registry name) factory).0 (rw known at h),
        λ k. refl,
      )
      | inr unknown ↦
          rw unknown
            (of_import (import_module (package_name name) registry) (rw unknown at h), λ k. cc)
    ]
  where
    of_import :
        (after : Option (Dict (AdapterEntry C)))
        → (imported factory_of import_module registry name after).0 ≡ ok factory
        → (e : AdapterEntry C) × (get (imported factory_of import_module registry name after).1 name
            ≡ some e)
          × (factory_of e.cls ≡ some factory)
    of_import none e = cc
    of_import (some after) e =
        (factory_in_lem factory_of import_module (get after name) factory).0 e
