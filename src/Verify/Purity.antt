-- ===== src/Verify/Purity.antt =====
-- What `scan_imports` lets pass.
use esr.Base.{
  ◌≡◌, refl, ◌↔◌, inl, inr, true, false, Bool-cases, List, [], ◌++◌, append_assoc, Str, contains,
}
use esr.Value.{Value}
use esr.Verify.{
  Node, import_, import_from, if_, name, attribute, other, Nodes, nil, cons, nodes, children,
  is_guarded, is_type_checking_guard, top, core_allowed, check, visit, visit_all, purity_reason,
  scan_imports,
}
use esr.Verify.Tree.{
  Holds, Holds-append, Holds-append_left, Holds-append_right, Live, Imports, append-eq-nil,
  IsAllowed, check_iff,
}

module _ (repr : Value → Str) (allowed : List Str) (reason : Str → Str) where
  -- Nothing is reported of the trees.
  Silent : List Node → Type 0
  Silent ns = (c : Node) → Holds c ns → visit repr allowed reason c ≡ []

  visit_all-Silent : (ns : Nodes) → visit_all repr allowed reason ns ≡ [] → Silent (nodes ns)
  unfolding visit Silent
  visit_all-Silent nil e c h = elim h [ ]
  visit_all-Silent (cons n ns) e c (inl same) =
      rw same (append-eq-nil (visit repr allowed reason n) (visit_all repr allowed reason ns) e).0
  visit_all-Silent (cons n ns) e c (inr later) =
      visit_all-Silent ns
        (append-eq-nil (visit repr allowed reason n) (visit_all repr allowed reason ns) e).1 c later

  Silent-append : (xs ys : List Node) → Silent xs → Silent ys → Silent (xs ++ ys)
  unfolding Silent
  Silent-append xs ys hx hy c h = elim (Holds-append c xs ys h) [ inl l ↦ hx c l | inr r ↦ hy c r ]

  -- A node that is no guard reports itself and its children.
  visit-Silent :
      (p : Node)
      → is_guarded p ≡ false
      → visit repr allowed reason p ≡ []
      → (check repr allowed reason p ≡ []) × Silent (children p)
  unfolding visit Silent
  visit-Silent (import_ names lineno) g e = (e, λ c h. elim h [ ])
  visit-Silent (import_from module_ lineno) g e = (e, λ c h. elim h [ ])
  visit-Silent (if_ test body orelse) g e =
      let all =
        append-eq-nil (visit repr allowed reason test)
          (visit_all repr allowed reason body ++ visit_all repr allowed reason orelse)
          (rw append_assoc at (rw g at e)) in
      let parts =
        append-eq-nil (visit_all repr allowed reason body) (visit_all repr allowed reason orelse)
          all.1 in
      (
        unfold check in refl,
        λ c h. elim h [
          | inl same ↦ rw same all.0
          | inr inside ↦
              Silent-append (nodes body) (nodes orelse) (visit_all-Silent body parts.0)
                (visit_all-Silent orelse parts.1) c inside
        ],
      )
  visit-Silent (name id) g e = (unfold check in refl, λ c h. elim h [ ])
  visit-Silent (attribute value attr) g e = (
    unfold check in refl,
    λ c h. elim h [ inl same ↦ rw same e | inr none_left ↦ elim none_left [ ] ],
  )
  visit-Silent (other ns) g e = (unfold check in refl, visit_all-Silent ns e)

  guard_silent : (n : Node) → is_guarded n ≡ true → check repr allowed reason n ≡ []
  unfolding check
  guard_silent (if_ test body orelse) e = refl
  guard_silent (import_ names lineno) e = cc
  guard_silent (import_from module_ lineno) e = cc
  guard_silent (name id) e = refl
  guard_silent (attribute value attr) e = refl
  guard_silent (other ns) e = refl

  visit_lets_pass :
      {n p : Node} → Live n p → visit repr allowed reason p ≡ [] → check repr allowed reason n ≡ []
  unfolding Silent
  visit_lets_pass {n} Live.here e = elim (Bool-cases (is_guarded n)) [
    | inl guarded ↦ guard_silent n guarded
    | inr plain ↦ (visit-Silent n plain e).0
  ]
  visit_lets_pass (Live.below c plain child live) e =
      visit_lets_pass live ((visit-Silent _ plain e).1 c child)

  -- Every live import below the node is allowed.
  abbrev AllAllowed : Node → Type 0
  AllAllowed p = (n : Node) → Live n p → IsAllowed repr allowed reason n

  mutual
    unfolding visit

    visit_allowed : (p : Node) → AllAllowed p → visit repr allowed reason p ≡ []
    visit_allowed (import_ names lineno) h =
        (check_iff repr allowed reason (import_ names lineno)).1 (h _ Live.here)
    visit_allowed (import_from module_ lineno) h =
        (check_iff repr allowed reason (import_from module_ lineno)).1 (h _ Live.here)
    visit_allowed (if_ test body orelse) h = elim (Bool-cases (is_type_checking_guard test)) [
      | inl guarded ↦ rw guarded
      | inr plain ↦ rw (
        plain,
        visit_allowed test (λ n live. h n (Live.below test plain (inl refl) live)),
        visit_all_allowed body (λ c child n live. h n (
            Live.below c plain (inr (Holds-append_left c (nodes body) (nodes orelse) child)) live)),
        visit_all_allowed orelse (λ c child n live. h n (
            Live.below c plain (inr (Holds-append_right c (nodes body) (nodes orelse) child))
              live)),
      )
    ]
    visit_allowed (name id) h = refl
    visit_allowed (attribute value attr) h =
        visit_allowed value (λ n live. h n (Live.below value refl (inl refl) live))
    visit_allowed (other ns) h =
        visit_all_allowed ns (λ c child n live. h n (Live.below c refl child live))

    visit_all_allowed :
        (ns : Nodes)
        → ((c : Node) → Holds c (nodes ns) → AllAllowed c)
        → visit_all repr allowed reason ns ≡ []
    visit_all_allowed nil h = refl
    visit_all_allowed (cons n ns) h =
        rw (visit_allowed n (h n (inl refl))) (visit_all_allowed ns (λ c child. h c (inr child)))

-- The scan of a handler reports nothing exactly if every module that is imported anywhere in the
-- file but below an `if TYPE_CHECKING:` has its first part in the list: one of the six of the core,
-- or an extra one.
pub scan_imports_iff :
    (repr : Value → Str) (tree : Node) (extra_allowed : List Str)
    → (scan_imports repr tree extra_allowed ≡ []) ↔ (
        (n : Node)
        → Live n tree
        → (m : Str) → Imports m n
        → contains (core_allowed ++ extra_allowed) (top m) ≡ true)
unfolding scan_imports
scan_imports_iff repr tree extra_allowed =
    let allowed = core_allowed ++ extra_allowed in
    let reason = purity_reason repr in
    (
      λ e n live. (check_iff repr allowed reason n).0 (visit_lets_pass repr allowed reason live e),
      visit_allowed repr allowed reason tree,
    )
