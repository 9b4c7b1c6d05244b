-- ===== src/Tests/Scans.antt =====
-- The scans at a concrete module.
use esr.Base.{◌≡◌, refl, ◌↔◌, true, none, [], ◌∷◌, ◌++◌, Str, ◌==◌, lit, contains, cut}
use esr.Value.{Value, str}
use esr.Verify.{
  Node, import_, import_from, if_, name, other, Nodes, nil, cons, Violation, top, core_allowed,
  adapter_core_allowed, scan_imports, scan_adapter,
}
use esr.Verify.Tree.{Within, Live, Imports}
use esr.Verify.Purity.{scan_imports_iff}
use esr.Verify.Io.{scan_adapter_iff}

abbrev quoted : Value → Str
quoted (str s) = (b'\'' ∷ s) ++ b'\'' ∷ []
quoted v = []

-- import esr.actions, requests; if TYPE_CHECKING: import os; from . import helpers
abbrev handler_file : Node
handler_file = other (
    cons (import_ (lit "esr.actions" ∷ lit "requests" ∷ []) 1) (
      cons (if_ (name (lit "TYPE_CHECKING")) (cons (import_ (lit "os" ∷ []) 3) nil) nil)
        (cons (import_from none 4) nil)))

requests_refused :
    scan_imports quoted handler_file []
    ≡ record {
      module_ = lit "requests";
      lineno = 1;
      message = lit "import 'requests' not in allow-list (top-level 'requests')";
    }
      ∷ []
unfolding scan_imports cut ◌==◌ contains esr.Verify.check
requests_refused = refl

requests_extra : scan_imports quoted handler_file (lit "requests" ∷ []) ≡ []
unfolding scan_imports cut ◌==◌ contains esr.Verify.check
requests_extra = refl

scan_imports_iff_example : (scan_imports quoted handler_file (lit "requests" ∷ []) ≡ []) ↔ (
    (n : Node)
    → Live n handler_file
    → (m : Str) → Imports m n
    → contains (core_allowed ++ lit "requests" ∷ []) (top m) ≡ true)
scan_imports_iff_example = scan_imports_iff quoted handler_file (lit "requests" ∷ [])

adapter_scanned : scan_adapter quoted handler_file ((lit "requests", str (lit "*")) ∷ []) ≡ []
unfolding scan_adapter cut ◌==◌ contains
adapter_scanned = refl

scan_adapter_iff_example :
    (scan_adapter quoted handler_file ((lit "requests", str (lit "*")) ∷ []) ≡ []) ↔ (
      (n : Node)
      → Within n handler_file
      → (m : Str) → Imports m n
      → contains (adapter_core_allowed ++ lit "requests" ∷ []) (top m) ≡ true)
scan_adapter_iff_example =
    scan_adapter_iff quoted handler_file ((lit "requests", str (lit "*")) ∷ [])
