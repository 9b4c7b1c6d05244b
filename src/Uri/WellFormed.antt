-- ===== src/Uri/WellFormed.antt =====
-- What an address that was parsed looks like.
use esr.Base.{
  subst, inl, inr, ◌⊎◌, ◌≤◌, ◌≡◌, ◌≢◌, refl, Bool, true, false, not, ◌&&◌, Option, some, List, [],
  ◌∷◌, Str, contains, Dict, length, drop, Free, All, split, split-Free, starts_with, ltb,
  Bool-cases, arith,
}
use esr.Base.Result.{Result, ok, >>=-eq-ok}
use esr.Value.{nonempty}
use esr.Uri.{
  UriError, bad_path, missing_id, bad_scheme, empty_host, scheme, legacy_types, is_valid_type,
  guard, EsrUri, split_query, split_path, split_org, split_host, read_port, path_parts, last,
  has_trailing_empty, read_type, read_path, parse,
}

-- The type is the first segment and a known one, the id is the last, no segment is empty or holds a
-- slash, and a legacy address has two of them.
pub record IsWellFormed (u : EsrUri) : Type 0 where
  pub valid : is_valid_type u.type ≡ true
  pub rest : List Str
  pub type_first : u.segments ≡ u.type ∷ rest
  pub id_last : u.id ≡ last u.segments
  pub long : 2 ≤ length u.segments
  pub legacy : contains legacy_types u.type ≡ false ⊎ (length u.segments ≡ 2)
  pub parts : All (λ s. (nonempty s ≡ true) × Free b'/' s) u.segments
  pub host : nonempty u.host ≡ true
  pub org : u.org ≢ some []

path_parts-parts :
    (segments : List Str)
    → All (Free b'/') segments
    → All (λ s. (nonempty s ≡ true) × Free b'/' s) (path_parts segments)
unfolding path_parts
path_parts-parts [] h = tt
path_parts-parts (s ∷ ss) h = elim (Bool-cases (nonempty s)) [
  | inl full ↦ rw full ((full, h.0), path_parts-parts ss h.1)
  | inr empty ↦ rw empty (path_parts-parts ss h.1)
]

abbrev TypeShape : List Str → Str → Str → Type 0
TypeShape parts type id =
    (rest : List Str) × (parts ≡ type ∷ rest)
    × (is_valid_type type ≡ true)
    × (id ≡ last parts)
    × (2 ≤ length parts)
    × (contains legacy_types type ≡ false ⊎ (length parts ≡ 2))

read_type_shape :
    (parts : List Str) (trailing : Bool) (found : Str × Str)
    → read_type parts trailing ≡ ok found
    → TypeShape parts found.0 found.1
unfolding read_type last
read_type_shape [] trailing found e = cc
read_type_shape (t ∷ []) trailing found e = ground arith
read_type_shape (t ∷ q ∷ rest) trailing (type, id) e =
    (q ∷ rest, ground arith, ground arith, ground arith, ground arith, ground arith)

read_path_shape :
    (segments : List Str) (found : Str × Str × List Str)
    → read_path segments ≡ ok found
    → (found.2 ≡ path_parts segments) × TypeShape found.2 found.0 found.1
unfolding read_path
read_path_shape segments found e =
    let parts : List Str = path_parts segments in
    let (_, _, e₁) =
      >>=-eq-ok (guard (not (ltb (length parts) 2 && not (has_trailing_empty segments))) bad_path) _
        e in
    let (t, typed, e₂) = >>=-eq-ok (read_type parts (has_trailing_empty segments)) _ e₁ in
    let (_, _, e₃) = >>=-eq-ok (guard (nonempty t.1) missing_id) _ e₂ in
    let same : (t.0, t.1, parts) ≡ found = ground arith in
    subst (λ (f : Str × Str × List Str). (f.2 ≡ parts) × TypeShape f.2 f.0 f.1) same
      (refl, read_type_shape parts (has_trailing_empty segments) t typed)

split_org_nonempty :
    (authority : Str) (owner : Option Str × Str)
    → split_org authority ≡ ok owner
    → owner.0 ≢ some []
unfolding split_org
split_org_nonempty authority owner e = ground arith

guard-true : (b : Bool) (e : UriError) {x : Unit {0}} → guard b e ≡ ok x → b ≡ true
guard-true true e h = refl
guard-true false e h = cc

ok-injective : {u v : EsrUri} → ◌≡◌ {A = Result UriError EsrUri} (ok u) (ok v) → u ≡ v
ok-injective e = cc

-- Whatever text is parsed without an error, the address is well formed.
pub parse-IsWellFormed :
    (decode : Str → Dict Str) (s : Str) (u : EsrUri) → parse decode s ≡ ok u → IsWellFormed u
unfolding parse
parse-IsWellFormed decode s u e =
    let (_, _, e₁) = >>=-eq-ok (guard (starts_with s scheme) bad_scheme) _ e in
    let (parted, _, e₂) = >>=-eq-ok (split_path (split_query (drop 6 s)).0) _ e₁ in
    let (owner, owned, e₃) = >>=-eq-ok (split_org parted.0) _ e₂ in
    let (_, full, e₄) = >>=-eq-ok (guard (nonempty (split_host owner.1).0) empty_host) _ e₃ in
    let (port, _, e₅) = >>=-eq-ok (read_port (split_host owner.1).1) _ e₄ in
    let (found, walked, e₆) = >>=-eq-ok (read_path (split b'/' parted.1)) _ e₅ in
    let (parts_are, shape) = read_path_shape (split b'/' parted.1) found walked in
    let (rest, first, valid, id, long, legacy) = shape in
    let made : EsrUri = record {
      org = owner.0;
      host = (split_host owner.1).0;
      port = port;
      type = found.0;
      id = found.1;
      segments = found.2;
      params = decode (split_query (drop 6 s)).1;
    } in
    let same : made ≡ u = ok-injective e₆ in
    subst IsWellFormed same (record {
      valid = valid;
      rest = rest;
      type_first = first;
      id_last = id;
      long = long;
      legacy = legacy;
      parts = rw parts_are (path_parts-parts (split b'/' parted.1) (split-Free b'/' parted.1));
      host = guard-true (nonempty (split_host owner.1).0) empty_host full;
      org = split_org_nonempty parted.0 owner owned;
    })
