-- ===== src/Capability/Grants.antt =====
-- What a held capability grants, stated without the checker's splitting.
use esr.Base.{
  ◌≡◌, refl, ◌↔◌, ◌⊎◌, inl, inr, Bool, true, false, some, List, [], ◌∷◌, ◌++◌, Str, ◌==◌, eq_iff,
  eq_refl, lit, cut, cut_sound, cut-append, Free, Bool-cases, Option-cases, map, arith,
}
use esr.Base.Result.{ok}
use esr.Value.{str}
use esr.Capability.{split_capability, segment_match, matches_parts, matches, any_matches}

-- `<prefix>:<name>/<perm>`
abbrev pub capability : Str → Str → Str → Str
capability prefix name perm = (prefix ++ (b':' ∷ name)) ++ (b'/' ∷ perm)

-- The prefix and the name of a capability hold no separator.
abbrev pub IsScope : Str → Str → Type 0
IsScope prefix name = Free b':' prefix × Free b'/' (prefix ++ (b':' ∷ name))

-- A held segment covers a segment: it is a lone star, or the same text.
abbrev pub Covers : Str → Str → Type 0
Covers held required = (held ≡ lit "*") ⊎ (held ≡ required)

pub record GrantsScoped (held required : Str) : Type 0 where
  pub prefix : Str
  pub h_name : Str
  pub h_perm : Str
  pub r_name : Str
  pub r_perm : Str
  pub held_is : held ≡ capability prefix h_name h_perm
  pub required_is : required ≡ capability prefix r_name r_perm
  pub held_scope : IsScope prefix h_name
  pub required_scope : IsScope prefix r_name
  pub names : Covers h_name r_name
  pub perms : Covers h_perm r_perm

abbrev pub Grants : Str → Str → Type 0
Grants held required = (held ≡ lit "*") ⊎ GrantsScoped held required

-- The parts of a capability whose scope is well formed are found again.
pub split-capability :
    (prefix name perm : Str)
    → IsScope prefix name
    → split_capability (capability prefix name perm) ≡ some (prefix, name, perm)
unfolding split_capability
split-capability prefix name perm h =
    ground
      (arith, cut-append b'/' (prefix ++ (b':' ∷ name)) perm h.1, cut-append b':' prefix name h.0)

split_sound-IsScope :
    (s scope perm prefix name : Str)
    → cut b'/' s ≡ some (scope, perm)
    → cut b':' scope ≡ some (prefix, name)
    → (s ≡ capability prefix name perm) × IsScope prefix name
split_sound-IsScope s scope perm prefix name e d =
    let (s_is, free) = cut_sound b'/' s scope perm e in
    let (scope_is, free') = cut_sound b':' scope prefix name d in
    (ground arith, (free', ground arith))

pub split_capability_sound :
    (s prefix name perm : Str)
    → split_capability s ≡ some (prefix, name, perm)
    → (s ≡ capability prefix name perm) × IsScope prefix name
unfolding split_capability
split_capability_sound s prefix name perm h = elim (Option-cases (cut b'/' s)) [
  | inl e ↦ ground arith
  | inr ((scope, perm'), e) ↦ elim (Option-cases (cut b':' scope)) [
    | inl d ↦ ground arith
    | inr ((p, n), d) ↦ ground (arith, split_sound-IsScope s scope perm' p n e d)
  ]
]

Covers-iff : (held required : Str) → (segment_match held required ≡ true) ↔ Covers held required
unfolding segment_match
Covers-iff held required = ground (arith, eq_iff held (lit "*"), eq_iff held required)

matches_parts_sound :
    (held required : Str)
    → matches_parts (split_capability held) (split_capability required) ≡ true
    → GrantsScoped held required
unfolding matches_parts
matches_parts_sound held required h = elim (Option-cases (split_capability held)) [
  | inl e ↦ ground arith
  | inr ((p, n, q), e) ↦ elim (Option-cases (split_capability required)) [
    | inl d ↦ ground arith
    | inr ((p', n', q'), d) ↦
        let (held_is, held_scope) = split_capability_sound held p n q e in
        let (required_is, required_scope) = split_capability_sound required p' n' q' d in
        let same : p ≡ p' = ground (arith, eq_iff p p') in
        record {
          prefix = p;
          h_name = n;
          h_perm = q;
          r_name = n';
          r_perm = q';
          held_is = held_is;
          required_is = rw same required_is;
          held_scope = held_scope;
          required_scope = rw same required_scope;
          names = (Covers-iff n n').0 (ground (arith, eq_iff p p'));
          perms = (Covers-iff q q').0 (ground (arith, eq_iff p p'));
        }
  ]
]

matches_parts_complete :
    (held required : Str)
    → GrantsScoped held required
    → matches_parts (split_capability held) (split_capability required) ≡ true
unfolding matches_parts
matches_parts_complete held required g =
    rw
      (
        g.held_is,
        g.required_is,
        split-capability _ _ _ g.held_scope,
        split-capability _ _ _ g.required_scope,
      )
      (ground (
        arith,
        eq_refl g.prefix,
        Covers-iff g.h_name g.r_name,
        Covers-iff g.h_perm g.r_perm,
        g.names,
        g.perms,
      ))

-- A held capability matches a required one exactly if it is a lone star, or both are scoped
-- capabilities with the same prefix, whose names and permissions it covers, each by a lone star or
-- literally.
pub matches-Grants : (held required : Str) → (matches held required ≡ true) ↔ Grants held required
unfolding matches
matches-Grants held required = (
  λ h. elim (Bool-cases (held == lit "*")) [
    | inl e ↦ inl ((eq_iff held (lit "*")).0 e)
    | inr e ↦ inr (matches_parts_sound held required (rw e at h))
  ],
  λ g. elim g [
    | inl e ↦ ground (arith, eq_iff held (lit "*"))
    | inr g ↦ ground (arith, matches_parts_complete held required g)
  ],
)

-- Some capability of the list grants the permission.
abbrev pub SomeGrants : List Str → Str → Type 0
SomeGrants [] required = ⊥
SomeGrants (held ∷ more) required = Grants held required ⊎ SomeGrants more required

-- A principal with text capabilities is let through exactly if one of them grants the permission,
-- and the check does not raise.
pub any_matches-SomeGrants :
    (held : List Str) (required : Str)
    → (b : Bool) × (any_matches (map str held) required ≡ ok b)
      × ((b ≡ true) ↔ SomeGrants held required)
unfolding any_matches
any_matches-SomeGrants [] required = (false, refl, (λ h. cc, λ h. absurd h))
any_matches-SomeGrants (held ∷ more) required =
    let (b, e, iff) = any_matches-SomeGrants more required in
    let grants = matches-Grants held required in
    elim (Bool-cases (matches held required)) [
      | inl yes' ↦ (true, rw yes', (λ _. inl (grants.0 yes'), λ _. refl))
      | inr no' ↦ (
        b,
        rw no' e,
        (λ h. inr (iff.0 h), λ g. elim g [ inl now ↦ cc (grants.1 now) | inr later ↦ iff.1 later ]),
      )
    ]
