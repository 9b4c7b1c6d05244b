-- ===== src/Worker/Entry.antt =====
-- How the process of py/src/esr/ipc/handler_worker.py starts, from the arguments that argparse has
-- accepted. `R` is the type of the registries' contents; an import may change them whether it fails
-- or not.
use esr.Base.{
  ℕ, ◌≡◌, ◌↔◌, true, false, Option, none, some, ◌∷◌, ◌++◌, Str, lit, cut, if◌then◌else◌, arith,
}
use esr.Runner.{halves}
use esr.Runner.Entry.{Finish, failed, code_of, has_token}

-- How an import fails: with an `ImportError`, or with what else the module raises.
pub data ImportFault : Type 0 where
  import_error other_fault : ImportFault

-- The module of the package in which a handler is looked for first.
abbrev pub package_module : (handler_module : Str) → Str
package_module handler_module =
    (lit "esr_handler_") ++ (halves handler_module (cut b'.' handler_module)).0 ++ (lit ".on_msg")

abbrev pub handler_topic : (handler_module worker_id : Str) → Str
handler_topic handler_module worker_id = (lit "handler:") ++ handler_module ++ (b'/' ∷ worker_id)

module _ {R : Type 0} (import_module : R → Str → Option ImportFault × R) where
  abbrev pub unless_missing : Str → Option ImportFault × R → Option ImportFault × R
  unless_missing handler_module (some import_error, after) = import_module after handler_module
  unless_missing handler_module (fault, after) = (fault, after)

  -- The imports of `run`.
  unfoldable pub load_handlers : R → (handler_module : Str) → Option ImportFault × R
  load_handlers registries handler_module =
      unless_missing handler_module (import_module registries (package_module handler_module))

  abbrev pub code_after : Finish → Option ImportFault → ℕ
  code_after finish none = code_of finish
  code_after finish (some fault) = 1

  -- The guard of the entry point and `main`: the exit code, and the registries.
  unfoldable pub worker_entry : (token : Option Str) → R → (handler_module : Str) → Finish → ℕ × R
  worker_entry token registries handler_module finish =
      let (fault, after) = load_handlers registries handler_module in
      if has_token token then (code_after finish fault, after) else (2, registries)

  -- A worker ends with 2 exactly if it has no token, and then nothing was imported; it ends with 0
  -- exactly if it has one, its handlers were imported, and its loop did not fail.
  pub worker_entry_lem :
      (token : Option Str) (registries : R) (handler_module : Str) (finish : Finish)
      → (((worker_entry token registries handler_module finish).0 ≡ 2) ↔ (has_token token ≡ false))
        × (has_token token ≡ false
            → (worker_entry token registries handler_module finish).1 ≡ registries)
        × (((worker_entry token registries handler_module finish).0 ≡ 0) ↔ (
            (has_token token ≡ true)
            × ((load_handlers registries handler_module).0 ≡ none)
            × (finish ≡ failed → ⊥)))
  unfolding worker_entry
  worker_entry_lem token registries handler_module finish = ground arith
