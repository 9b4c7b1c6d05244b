-- ===== src/Tests/Permissions.antt =====
-- Permissions and decimals at concrete inputs.
use esr.Base.{
  ℕ, ◌≡◌, refl, ◌↔◌, true, false, Option, none, some, List, [], ◌∷◌, ◌==◌, Str, lit, cut,
}
use esr.Decimal.{pos, show_nat, read_int, read_int-show_nat}
use esr.Value.{Value, str, dict, list}
use esr.Capability.{
  matches, any_matches, Checker, no_grants, missing, present, reload, has_capability,
}
use esr.Capability.Grants.{Grants, matches-Grants}
use esr.Capability.Reload.{poll, eager_poll, poll-eager_poll}

matches_star : matches (lit "workspace:dev/*") (lit "workspace:dev/msg.send") ≡ true
unfolding matches ◌==◌ esr.Capability.split_capability cut
matches_star = refl

matches_other : matches (lit "workspace:dev/*") (lit "session:dev/msg.send") ≡ false
unfolding matches ◌==◌ esr.Capability.split_capability cut
matches_other = refl

matches-Grants_example :
    (matches (lit "workspace:*/msg.send") (lit "workspace:dev/msg.send") ≡ true)
    ↔ Grants (lit "workspace:*/msg.send") (lit "workspace:dev/msg.send")
matches-Grants_example = matches-Grants (lit "workspace:*/msg.send") (lit "workspace:dev/msg.send")

abbrev two_held : List Str
two_held = lit "workspace:dev/msg.send" ∷ lit "*" ∷ []

-- The document of a file that grants everything to one principal.
abbrev document : Value
document = dict (
    (
      lit "principals",
      list (
          dict (
            (lit "id", str (lit "ou_admin")) ∷ (lit "capabilities", list (str (lit "*") ∷ [])) ∷ [])
          ∷ []),
    )
    ∷ [])

abbrev load_admin : Str → Option Value
load_admin [] = none
load_admin (c ∷ text) = some document

abbrev content_at : ℕ → Str
content_at n = lit "principals"

abbrev admin_checker : Checker
admin_checker = record { snapshot = (lit "ou_admin", str (lit "*") ∷ []) ∷ []; mtime = some 1 }

poll-eager_poll_example :
    (poll load_admin content_at no_grants (some 1 ∷ none ∷ some 2 ∷ some 2 ∷ [])).snapshot
    ≡ eager_poll load_admin content_at [] (some 1 ∷ none ∷ some 2 ∷ some 2 ∷ [])
poll-eager_poll_example =
    poll-eager_poll load_admin content_at (some 1 ∷ none ∷ some 2 ∷ some 2 ∷ [])

read_int-show_nat_example : read_int (show_nat 4001) ≡ some (pos 4001)
read_int-show_nat_example = read_int-show_nat 4001
