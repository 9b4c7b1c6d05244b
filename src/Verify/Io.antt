-- ===== src/Verify/Io.antt =====
-- What `scan_adapter` lets pass.
use esr.Base.{
  ℕ, zero, suc, ◌+◌, ◌≤◌, ◌≡◌, subst, refl, sym, ◌↔◌, inl, inr, true, List, [], ◌∷◌, ◌++◌, map, Str,
  contains, Dict, arith,
}
use esr.Value.{Value}
use esr.Verify.{
  Node, import_, import_from, if_, name, attribute, other, Nodes, nil, cons, nodes, children, top,
  adapter_core_allowed, check, check_all, size, size_all, walk, io_reason, scan_adapter,
}
use esr.Verify.Tree.{
  Holds, Holds-append, Holds-append_left, Holds-append_right, Within, Imports, append-eq-nil,
  IsAllowed, check_iff,
}

-- The size of the trees that wait.
abbrev total : List Node → ℕ
total [] = 0
total (n ∷ ns) = size n + total ns

total-append : (xs ys : List Node) → total (xs ++ ys) ≡ total xs + total ys
total-append [] ys = omega arith
total-append (x ∷ xs) ys = omega (arith, total-append xs ys)

total-nodes : (ns : Nodes) → total (nodes ns) ≡ size_all ns
unfolding size
total-nodes nil = refl
total-nodes (cons n ns) = omega (arith, total-nodes ns)

size-children : (n : Node) → size n ≡ suc (total (children n))
unfolding size
size-children (import_ names lineno) = refl
size-children (import_from module_ lineno) = refl
size-children (if_ test body orelse) =
    omega (arith, total-append (nodes body) (nodes orelse), total-nodes body, total-nodes orelse)
size-children (name id) = refl
size-children (attribute value attr) = omega arith
size-children (other ns) = omega (arith, total-nodes ns)

-- Below one of the trees.
abbrev WithinOne : Node → List Node → Type 0
WithinOne n ts = (t : Node) × Holds t ts × Within n t

-- On enough fuel the walk meets every node of the trees.
Holds-walk :
    (fuel : ℕ) (todo : List Node)
    → total todo ≤ fuel
    → (n t : Node) → Holds t todo
    → Within n t
    → Holds n (walk fuel todo)
unfolding walk
Holds-walk fuel [] l n t h w = elim h [ ]
Holds-walk zero (p ∷ todo) l n t h w = absurd (omega (arith, size-children p))
Holds-walk (suc fuel) (p ∷ todo) l n t (inr later) w = inr (
    Holds-walk fuel (todo ++ children p)
      (omega (arith, size-children p, total-append todo (children p))) n t
      (Holds-append_left t todo (children p) later) w)
Holds-walk (suc fuel) (p ∷ todo) l n t (inl same) Within.here = inl same
Holds-walk (suc fuel) (p ∷ todo) l n t (inl same) (Within.below c child w) = inr (
    Holds-walk fuel (todo ++ children p)
      (omega (arith, size-children p, total-append todo (children p))) n c
      (Holds-append_right c todo (children p) (subst (λ x. Holds c (children x)) same child)) w)

-- The walk meets no other node.
walk-WithinOne :
    (fuel : ℕ) (todo : List Node) (n : Node) → Holds n (walk fuel todo) → WithinOne n todo
unfolding walk
walk-WithinOne zero todo n h = elim h [ ]
walk-WithinOne (suc fuel) [] n h = elim h [ ]
walk-WithinOne (suc fuel) (p ∷ todo) n (inl same) =
    (p, inl refl, subst (λ x. Within x p) (sym same) Within.here)
walk-WithinOne (suc fuel) (p ∷ todo) n (inr later) =
    let (t, h, w) = walk-WithinOne fuel (todo ++ children p) n later in
    elim (Holds-append t todo (children p) h) [
      | inl old ↦ (t, inr old, w)
      | inr child ↦ (p, inl refl, Within.below t child w)
    ]

module _ (repr : Value → Str) (allowed : List Str) (reason : Str → Str) where
  check_all_iff :
      (ns : List Node)
      → (check_all repr allowed reason ns ≡ [])
        ↔ ((n : Node) → Holds n ns → IsAllowed repr allowed reason n)
  unfolding check_all
  check_all_iff [] = (λ e n h. elim h [ ], λ h. refl)
  check_all_iff (p ∷ ns) = (
    λ e.
        let (own, rest) =
          append-eq-nil (check repr allowed reason p) (check_all repr allowed reason ns) e in
        λ n h. elim h [
          | inl same ↦
              subst (IsAllowed repr allowed reason) (sym same)
                ((check_iff repr allowed reason p).0 own)
          | inr later ↦ (check_all_iff ns).0 rest n later
        ],
    λ h.
        rw ((check_iff repr allowed reason p).1 (h p (inl refl)))
          ((check_all_iff ns).1 (λ n later. h n (inr later))),
  )

-- The scan of an adapter reports nothing exactly if every module that is imported anywhere in the file
-- has its first part among those of the core or the keys of `allowed_io`. Its walk of the tree ends.
pub scan_adapter_iff :
    (repr : Value → Str) (tree : Node) (allowed_io : Dict Value)
    → (scan_adapter repr tree allowed_io ≡ []) ↔ (
        (n : Node)
        → Within n tree
        → (m : Str) → Imports m n
        → contains (adapter_core_allowed ++ map (λ e. e.0) allowed_io) (top m) ≡ true)
unfolding scan_adapter
scan_adapter_iff repr tree allowed_io =
    let allowed = adapter_core_allowed ++ map (λ e. e.0) allowed_io in
    let reason = io_reason repr allowed_io in
    let met = check_all_iff repr allowed reason (walk (size tree) (tree ∷ [])) in
    (
      λ e n w. met.0 e n (Holds-walk (size tree) (tree ∷ []) (omega arith) n tree (inl refl) w),
      λ h. met.1 (λ n walked.
          let (t, one, w) = walk-WithinOne (size tree) (tree ∷ []) n walked in
          elim one [
            | inl same ↦ h n (subst (λ x. Within n x) same w)
            | inr none_left ↦ elim none_left [ ]
          ]),
    )
