-- ===== src/Verify.antt =====
-- py/src/esr/verify: the scans of a module's imports. A syntax tree is what the scans look at: imports,
-- conditionals, and the names and attributes of their tests; any other node is its children. Leaves
-- that no scan looks at are left out. `repr` is Python's text of a text or a list, and the trees are
-- those that `ast.parse` gives.
pub mod Tree
pub mod Purity
pub mod Io
use esr.Base.{
  ℕ, zero, suc, ◌+◌, Bool, true, false, not, ◌||◌, Option, none, some, List, [], ◌∷◌, ◌++◌, map,
  Str, ◌==◌, lit, contains, cut, Dict, get, if◌then◌else◌,
}
use esr.Base.Result.{Result, ok, err, Exc, type_error}
use esr.Value.{Value, str, list, truthy}
use esr.Worker.Dump.{sorted}

mutual
  pub data Node : Type 0 where
    import_ : List Str → ℕ → Node
    import_from : Option Str → ℕ → Node
    if_ : Node → Nodes → Nodes → Node
    name : Str → Node
    attribute : Node → Str → Node
    other : Nodes → Node

  pub data Nodes : Type 0 where
    nil : Nodes
    cons : Node → Nodes → Nodes

abbrev pub nodes : Nodes → List Node
nodes nil = []
nodes (cons n ns) = n ∷ nodes ns

-- `ast.iter_child_nodes`
abbrev pub children : Node → List Node
children (import_ names lineno) = []
children (import_from module_ lineno) = []
children (if_ test body orelse) = test ∷ (nodes body ++ nodes orelse)
children (name id) = []
children (attribute value attr) = value ∷ []
children (other ns) = nodes ns

pub record Violation : Type 0 where
  pub module_ : Str
  pub lineno : ℕ
  pub message : Str

abbrev before_dot : Str → Option (Str × Str) → Str
before_dot s none = s
before_dot s (some (root, rest)) = root

-- `name.split(".", 1)[0]`
abbrev pub top : Str → Str
top s = before_dot s (cut b'.' s)

-- `_CORE_ALLOWED`
abbrev pub core_allowed : List Str
core_allowed =
    lit "esr"
    ∷ lit "typing"
    ∷ lit "dataclasses"
    ∷ lit "pydantic"
    ∷ lit "enum"
    ∷ lit "__future__"
    ∷ []

-- `_ADAPTER_CORE_ALLOWED`
abbrev pub adapter_core_allowed : List Str
adapter_core_allowed =
    lit "esr"
    ∷ lit "__future__"
    ∷ lit "abc"
    ∷ lit "asyncio"
    ∷ lit "collections"
    ∷ lit "contextlib"
    ∷ lit "dataclasses"
    ∷ lit "datetime"
    ∷ lit "enum"
    ∷ lit "functools"
    ∷ lit "inspect"
    ∷ lit "io"
    ∷ lit "itertools"
    ∷ lit "json"
    ∷ lit "logging"
    ∷ lit "os"
    ∷ lit "pathlib"
    ∷ lit "re"
    ∷ lit "string"
    ∷ lit "sys"
    ∷ lit "time"
    ∷ lit "typing"
    ∷ lit "uuid"
    ∷ lit "warnings"
    ∷ []

-- `_is_type_checking_guard`
abbrev pub is_type_checking_guard : Node → Bool
is_type_checking_guard (name id) = id == lit "TYPE_CHECKING"
is_type_checking_guard (attribute value attr) = attr == lit "TYPE_CHECKING"
is_type_checking_guard _ = false

-- What `visit` does not go into.
abbrev pub is_guarded : Node → Bool
is_guarded (if_ test body orelse) = is_type_checking_guard test
is_guarded _ = false

module _ (repr : Value → Str) (allowed : List Str) (reason : Str → Str) where
  abbrev import_message : Str → Str
  import_message alias = lit "import " ++ repr (str alias) ++ reason (top alias)

  abbrev from_message : Str → Str
  from_message module_ =
      lit "from " ++ repr (str module_) ++ lit " import ..." ++ reason (top module_)

  -- The aliases of one `import`.
  unfoldable pub check_names : List Str → ℕ → List Violation
  check_names [] lineno = []
  check_names (alias ∷ aliases) lineno =
      if contains allowed (top alias)
      then check_names aliases lineno
      else record { module_ = top alias; lineno = lineno; message = import_message alias }
        ∷ check_names aliases lineno

  abbrev pub check_from : Option Str → ℕ → List Violation
  check_from none lineno = []
  check_from (some module_) lineno =
      if contains allowed (top module_)
      then []
      else record { module_ = top module_; lineno = lineno; message = from_message module_ } ∷ []

  -- The violations of one node.
  unfoldable pub check : Node → List Violation
  unfolding check_names
  check (import_ names lineno) = check_names names lineno
  check (import_from module_ lineno) = check_from module_ lineno
  check _ = []

  -- `visit`
  unfoldable mutual
    pub visit : Node → List Violation
    visit (import_ names lineno) = check (import_ names lineno)
    visit (import_from module_ lineno) = check (import_from module_ lineno)
    visit (if_ test body orelse) =
        let rest = visit test ++ visit_all body ++ visit_all orelse in
        if is_type_checking_guard test then [] else rest
    visit (name id) = []
    visit (attribute value attr) = visit value
    visit (other ns) = visit_all ns

    pub visit_all : Nodes → List Violation
    visit_all nil = []
    visit_all (cons n ns) = visit n ++ visit_all ns

  -- The loop of `scan_adapter`.
  unfoldable pub check_all : List Node → List Violation
  unfolding check
  check_all [] = []
  check_all (n ∷ ns) = check n ++ check_all ns

unfoldable mutual
  pub size : Node → ℕ
  size (import_ names lineno) = 1
  size (import_from module_ lineno) = 1
  size (if_ test body orelse) = suc (size test + size_all body + size_all orelse)
  size (name id) = 1
  size (attribute value attr) = suc (size value)
  size (other ns) = suc (size_all ns)

  pub size_all : Nodes → ℕ
  size_all nil = 0
  size_all (cons n ns) = size n + size_all ns

-- `ast.walk`: the nodes that wait, on fuel.
unfoldable pub walk : ℕ → List Node → List Node
walk zero todo = []
walk (suc fuel) [] = []
walk (suc fuel) (n ∷ todo) = n ∷ walk fuel (todo ++ children n)

abbrev purity_reason : (repr : Value → Str) → Str → Str
purity_reason repr root = lit " not in allow-list (top-level " ++ repr (str root) ++ lit ")"

abbrev io_reason : (repr : Value → Str) → Dict Value → Str → Str
io_reason repr allowed_io root =
    lit " not in allowed_io (top-level "
    ++ repr (str root)
    ++ lit ", declared: "
    ++ repr (list (map (λ s. str s) (sorted (λ s. s) (map (λ e. e.0) allowed_io))))
    ++ lit ")"

-- `scan_imports`, of a module's tree.
unfoldable pub scan_imports :
    (repr : Value → Str) → (tree : Node) → (extra_allowed : List Str) → List Violation
unfolding visit
scan_imports repr tree extra_allowed =
    visit repr (core_allowed ++ extra_allowed) (purity_reason repr) tree

unfoldable pub scan_adapter :
    (repr : Value → Str) → (tree : Node) → (allowed_io : Dict Value) → List Violation
unfolding check_all size walk sorted
scan_adapter repr tree allowed_io =
    check_all repr (adapter_core_allowed ++ map (λ e. e.0) allowed_io) (io_reason repr allowed_io)
      (walk (size tree) (tree ∷ []))

-- `model_config`: none, a dict, or an object with an attribute `frozen` or without.
pub data ModelConfig : Type 0 where
  absent : ModelConfig
  config : Dict Value → ModelConfig
  settings : Option Value → ModelConfig

abbrev pub flag : Option Value → Bool
flag none = false
flag (some v) = truthy v

abbrev pub config_frozen : ModelConfig → Bool
config_frozen absent = false
config_frozen (config d) = flag (get d (lit "frozen"))
config_frozen (settings frozen) = flag frozen

-- `frozen_state_fixture`; `construct` is the call of the model's class.
unfoldable pub frozen_state_fixture :
    {M : Type 0}
    → ModelConfig
    → (construct : Dict Value → Result Exc M) → (overrides : Dict Value) → Result Exc M
frozen_state_fixture model_config construct overrides =
    if config_frozen model_config then construct overrides else err type_error
