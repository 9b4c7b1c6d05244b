-- ===== src/Uri/Resource/Laws.antt =====
-- What a resource address may hold, and the way back from a built one.
use esr.Base.{
  subst, inl, inr, ◌⊎◌, ◌↔◌, ℕ, zero, suc, ◌≡◌, ◌≢◌, refl, ap, true, false, Option, none, some,
  List, [], ◌∷◌, ◌++◌, Str, ◌==◌, eq_iff, eq_refl, lit, contains, Dict, get, length, rcut-append,
  Free, Free-append, All, join, Bool-cases, arith,
}
use esr.Base.Result.{ok, >>=-eq-ok}
use esr.Value.{Value, nonempty}
use esr.Uri.{parse, path_style_types, legacy_types}
use esr.Uri.Build.{with_port, address, env_or_org, all_nonempty, build_path}
use esr.Uri.RoundTrip.{port_of, IsHost, IsOrg, IsSegment, parse-address}
use esr.Uri.Resource.{
  ResourceError, unknown_media_type, bad_sha256, bad_ext, not_resources, allowed_exts, is_hex,
  hex_then_end, is_sha256, lower, Resource, require, lift, three_segments, with_exts, split_ext,
  read_resource, parse_resource, build_resource,
}

-- A number of hexadecimal digits.
abbrev pub IsHex : ℕ → Str → Type 0
IsHex n s = All (λ c. is_hex c ≡ true) s × (length s ≡ n)

hex_then_end_sound :
    (n : ℕ) (s : Str)
    → hex_then_end n s ≡ true
    → IsHex n s ⊎ ((h : Str) × (s ≡ h ++ b'\n' ∷ []) × IsHex n h)
unfolding hex_then_end
hex_then_end_sound zero [] e = inl (tt, refl)
hex_then_end_sound zero (c ∷ []) e = inr ([], ground arith, (tt, refl))
hex_then_end_sound zero (c ∷ d ∷ s) e = cc
hex_then_end_sound (suc n) [] e = cc
hex_then_end_sound (suc n) (c ∷ s) e = elim (hex_then_end_sound n s (ground arith)) [
  | inl h ↦ inl ((ground arith, h.0), ap suc h.1)
  | inr (h, same, hex) ↦
      inr (c ∷ h, ap (λ (t : Str). c ∷ t) same, ((ground arith, hex.0), ap suc hex.1))
]

hex_then_end-hex : (n : ℕ) (s : Str) → IsHex n s → hex_then_end n s ≡ true
unfolding hex_then_end
hex_then_end-hex zero [] h = refl
hex_then_end-hex zero (c ∷ s) h = absurd (omega (arith, h.1))
hex_then_end-hex (suc n) [] h = absurd (omega (arith, h.1))
hex_then_end-hex (suc n) (c ∷ s) h =
    rw (h.0.0, hex_then_end-hex n s (h.0.1, omega (arith, h.1))) refl

hex_then_end-newline : (n : ℕ) (s : Str) → IsHex n s → hex_then_end n (s ++ b'\n' ∷ []) ≡ true
unfolding hex_then_end
hex_then_end-newline zero [] h = refl
hex_then_end-newline zero (c ∷ s) h = absurd (omega (arith, h.1))
hex_then_end-newline (suc n) [] h = absurd (omega (arith, h.1))
hex_then_end-newline (suc n) (c ∷ s) h =
    rw (h.0.0, hex_then_end-newline n s (h.0.1, omega (arith, h.1))) refl

-- A text passes the check of a digest exactly if it is 64 lowercase hexadecimal digits, or these
-- with one line feed behind them.
pub is_sha256-IsHex :
    (s : Str)
    → (is_sha256 s ≡ true) ↔ (IsHex 64 s ⊎ ((h : Str) × (s ≡ h ++ b'\n' ∷ []) × IsHex 64 h))
unfolding is_sha256
is_sha256-IsHex s = (
  hex_then_end_sound 64 s,
  λ d. elim d [
    | inl h ↦ hex_then_end-hex 64 s h
    | inr (h, same, hex) ↦ rw same (hex_then_end-newline 64 h hex)
  ],
)

with_exts-some :
    (o : Option (List Str)) (e : ResourceError) (exts : List Str)
    → with_exts o e ≡ ok exts
    → o ≡ some exts
with_exts-some none e exts h = cc
with_exts-some (some x) e exts h = cc

read_resource_allowed :
    (env : Option Str) (host : Str) (p : Str × Str) (r : Resource)
    → read_resource env host p ≡ ok r
    → (exts : List Str) × (get allowed_exts r.media_type ≡ some exts)
      × (contains exts r.ext ≡ true)
      × (is_sha256 r.sha256 ≡ true)
unfolding read_resource
read_resource_allowed env host (media_type, last_seg) r e =
    let (exts, found, e₁) =
      >>=-eq-ok (with_exts (get allowed_exts media_type) unknown_media_type) _ e in
    let (parts, _, e₂) = >>=-eq-ok (split_ext last_seg) _ e₁ in
    let (_, _, e₃) = >>=-eq-ok (require (is_sha256 parts.0) bad_sha256) _ e₂ in
    let (_, _, e₄) = >>=-eq-ok (require (contains exts (lower parts.1)) bad_ext) _ e₃ in
    let there : get allowed_exts media_type ≡ some exts = with_exts-some _ _ exts found in
    (exts, ground arith, ground arith, ground arith)

-- Whatever address is accepted as a resource, its digest passes the check and its extension is one
-- that its media type allows.
pub parse_resource_allowed :
    (decode : Str → Dict Str) (uri : Str) (r : Resource)
    → parse_resource decode uri ≡ ok r
    → (exts : List Str) × (get allowed_exts r.media_type ≡ some exts)
      × (contains exts r.ext ≡ true)
      × (is_sha256 r.sha256 ≡ true)
unfolding parse_resource
parse_resource_allowed decode uri r e =
    let (parsed, _, e₁) = >>=-eq-ok (lift (parse decode uri)) _ e in
    let (_, _, e₂) = >>=-eq-ok (require (parsed.type == lit "resources") not_resources) _ e₁ in
    let (parts, _, e₃) = >>=-eq-ok (three_segments parsed.segments) _ e₂ in
    read_resource_allowed parsed.org parsed.host parts r e₃

-- What the allowlists hold: texts that stand in a path as they are, and that `lower` keeps.
abbrev IsExt : Str → Type 0
IsExt e = IsSegment e × Free b'.' e × (lower e ≡ e)

contains-All : (P : Str → Type 0) (xs : List Str) (e : Str) → All P xs → contains xs e ≡ true → P e
unfolding contains
contains-All P [] e h k = cc
contains-All P (x ∷ xs) e h k = elim (Bool-cases (x == e)) [
  | inl same ↦ subst P ((eq_iff x e).0 same) h.0
  | inr other ↦ contains-All P xs e h.1 (rw other at k)
]

IsSegment-of : (e : Str) → nonempty e ≡ true → Free b'/' e → Free b'?' e → IsSegment e
IsSegment-of e a b c = (a, b, c)

image_exts :
    All IsExt (lit "png" ∷ lit "jpg" ∷ lit "jpeg" ∷ lit "gif" ∷ lit "webp" ∷ lit "heic" ∷ [])
unfolding lower
image_exts = (
  ((refl, omega arith, omega arith), omega arith, refl),
  (
    ((refl, omega arith, omega arith), omega arith, refl),
    (
      ((refl, omega arith, omega arith), omega arith, refl),
      (
        ((refl, omega arith, omega arith), omega arith, refl),
        (
          ((refl, omega arith, omega arith), omega arith, refl),
          (((refl, omega arith, omega arith), omega arith, refl), tt),
        ),
      ),
    ),
  ),
)

file_exts : All IsExt (
    lit "bin"
    ∷ lit "pdf"
    ∷ lit "doc"
    ∷ lit "docx"
    ∷ lit "xls"
    ∷ lit "xlsx"
    ∷ lit "zip"
    ∷ lit "txt"
    ∷ lit "md"
    ∷ lit "csv"
    ∷ [])
unfolding lower
file_exts = (
  ((refl, omega arith, omega arith), omega arith, refl),
  (
    ((refl, omega arith, omega arith), omega arith, refl),
    (
      ((refl, omega arith, omega arith), omega arith, refl),
      (
        ((refl, omega arith, omega arith), omega arith, refl),
        (
          ((refl, omega arith, omega arith), omega arith, refl),
          (
            ((refl, omega arith, omega arith), omega arith, refl),
            (
              ((refl, omega arith, omega arith), omega arith, refl),
              (
                ((refl, omega arith, omega arith), omega arith, refl),
                (
                  ((refl, omega arith, omega arith), omega arith, refl),
                  (((refl, omega arith, omega arith), omega arith, refl), tt),
                ),
              ),
            ),
          ),
        ),
      ),
    ),
  ),
)

audio_exts : All IsExt (lit "opus" ∷ lit "mp3" ∷ lit "wav" ∷ lit "m4a" ∷ lit "aac" ∷ [])
unfolding lower
audio_exts = (
  ((refl, omega arith, omega arith), omega arith, refl),
  (
    ((refl, omega arith, omega arith), omega arith, refl),
    (
      ((refl, omega arith, omega arith), omega arith, refl),
      (
        ((refl, omega arith, omega arith), omega arith, refl),
        (((refl, omega arith, omega arith), omega arith, refl), tt),
      ),
    ),
  ),
)

All-IsExt-of :
    (xs exts : List Str)
    → All IsExt xs
    → ◌≡◌ {A = Option (List Str)} (some xs) (some exts)
    → All IsExt exts
All-IsExt-of xs exts h e = let same : xs ≡ exts = cc in subst (All IsExt) same h

allowed_is_path :
    (media_type : Str) (exts : List Str)
    → get allowed_exts media_type ≡ some exts
    → IsSegment media_type × All IsExt exts
unfolding get lower
allowed_is_path media_type exts e = elim (Bool-cases (lit "image" == media_type)) [
  | inl a ↦ (
    subst IsSegment ((eq_iff (lit "image") media_type).0 a) (refl, omega arith, omega arith),
    All-IsExt-of _ exts (image_exts) (rw a at e),
  )
  | inr a ↦ elim (Bool-cases (lit "file" == media_type)) [
    | inl b ↦ (
      subst IsSegment ((eq_iff (lit "file") media_type).0 b) (refl, omega arith, omega arith),
      All-IsExt-of _ exts (file_exts) (rw (a, b) at e),
    )
    | inr b ↦ elim (Bool-cases (lit "audio" == media_type)) [
      | inl c ↦ (
        subst IsSegment ((eq_iff (lit "audio") media_type).0 c) (refl, omega arith, omega arith),
        All-IsExt-of _ exts (audio_exts) (rw (a, b, c) at e),
      )
      | inr c ↦
          absurd (let h : ◌≡◌ {A = Option (List Str)} none (some exts) = rw (a, b, c) at e in cc)
    ]
  ]
]

Free-hex : (c n : ℕ) (s : Str) → is_hex c ≡ false → c ≢ b'\n' → hex_then_end n s ≡ true → Free c s
unfolding hex_then_end
Free-hex c zero [] p q h = tt
Free-hex c zero (d ∷ []) p q h = (ground arith, tt)
Free-hex c zero (d ∷ e ∷ s) p q h = cc
Free-hex c (suc n) [] p q h = cc
Free-hex c (suc n) (d ∷ s) p q h = (ground arith, Free-hex c n s p q (ground arith))

nonempty-append : (s : Str) (c : ℕ) (t : Str) → nonempty (s ++ (c ∷ t)) ≡ true
nonempty-append [] c t = refl
nonempty-append (d ∷ s) c t = refl

file_name-IsSegment :
    (sha256 e : Str) → is_sha256 sha256 ≡ true → IsExt e → IsSegment (sha256 ++ (b'.' ∷ e))
unfolding is_sha256
file_name-IsSegment sha256 e h x = (
  nonempty-append sha256 b'.' e,
  Free-append b'/' sha256 (b'.' ∷ e) (Free-hex b'/' 64 sha256 refl (omega arith) h)
      (omega arith, x.0.1),
  Free-append b'?' sha256 (b'.' ∷ e) (Free-hex b'?' 64 sha256 refl (omega arith) h)
      (omega arith, x.0.2),
)

env_or_org-IsOrg : (env : Option Str) → IsOrg env → env_or_org env none ≡ env
env_or_org-IsOrg none h = refl
env_or_org-IsOrg (some []) h = cc (h.0)
env_or_org-IsOrg (some (c ∷ s)) h = refl

split_ext-append :
    (sha256 e : Str) → Free b'.' e → split_ext (sha256 ++ (b'.' ∷ e)) ≡ ok (sha256, e)
unfolding split_ext
split_ext-append sha256 e h = rw (rcut-append b'.' sha256 e h, split_ext) refl

resources_is_new : contains legacy_types (lit "resources") ≡ false
unfolding contains ◌==◌
resources_is_new = refl

resources_is_path_style : contains path_style_types (lit "resources") ≡ true
unfolding contains ◌==◌
resources_is_path_style = refl

-- The text that is built for a resource.
abbrev resource_text : (media_type sha256 e : Str) → Option Str → Str → Str
resource_text media_type sha256 e env host =
    address env host none (join b'/' (lit "resources" ∷ media_type ∷ (sha256 ++ (b'.' ∷ e)) ∷ []))

nonempty-with_port :
    (host : Str) (port : Option ℕ)
    → nonempty host ≡ true
    → nonempty (with_port host (port_of port)) ≡ true
nonempty-with_port host none h = h
nonempty-with_port (c ∷ host) (some p) h = refl
nonempty-with_port [] (some p) h = cc

module _ (decode : Str → Dict Str) (encode : Dict Value → Str) where
  build_resource-text :
      (media_type sha256 ext : Str) (env : Option Str) (host : Str) (exts : List Str)
      → IsOrg env
      → nonempty host ≡ true
      → is_sha256 sha256 ≡ true
      → get allowed_exts media_type ≡ some exts
      → contains exts (lower ext) ≡ true
      → build_resource encode media_type sha256 ext env host
        ≡ ok (resource_text media_type sha256 (lower ext) env host)
  unfolding build_resource build_path contains ◌==◌ all_nonempty
  build_resource-text media_type sha256 ext env host exts o full sha allowed listed =
      let (m, es) = allowed_is_path media_type exts allowed in
      rw
        (
          sha,
          allowed,
          listed,
          full,
          m.0,
          nonempty-append sha256 b'.' (lower ext),
          env_or_org-IsOrg env o,
        )
        refl

  -- The same for a host that bears a port; the port is not among the parts that are given back.
  pub parse-build_resource_at :
      (media_type sha256 ext : Str) (env : Option Str) (host : Str) (port : Option ℕ)
      (exts : List Str)
      → IsOrg env
      → IsHost host
      → is_sha256 sha256 ≡ true
      → get allowed_exts media_type ≡ some exts
      → contains exts (lower ext) ≡ true
      → (text : Str) × (build_resource encode media_type sha256 ext env
            (with_port host (port_of port))
          ≡ ok text)
        × (parse_resource decode text
            ≡ ok (record {
              media_type = media_type;
              sha256 = sha256;
              ext = lower ext;
              env = env;
              host = host;
            }))
  unfolding parse_resource three_segments read_resource
  parse-build_resource_at media_type sha256 ext env host port exts o h sha allowed listed =
      let (m, es) = allowed_is_path media_type exts allowed in
      let x : IsExt (lower ext) = contains-All IsExt exts (lower ext) es listed in
      let name : IsSegment (sha256 ++ (b'.' ∷ lower ext)) =
        file_name-IsSegment sha256 (lower ext) sha x in
      (
        resource_text media_type sha256 (lower ext) env (with_port host (port_of port)),
        build_resource-text media_type sha256 ext env (with_port host (port_of port)) exts o
            (nonempty-with_port host port h.full) sha allowed listed,
        rw
            (
              parse-address decode encode env host port (lit "resources")
                  (media_type ∷ (sha256 ++ (b'.' ∷ lower ext)) ∷ []) [] o h
                  (
                    ((refl, omega arith, omega arith), (m, (name, tt))),
                    inr (resources_is_new, resources_is_path_style, omega arith),
                  ),
              eq_refl (lit "resources"),
              allowed,
              split_ext-append sha256 (lower ext) x.1,
              x.2,
              sha,
              listed,
            )
            refl,
      )

  -- A resource address that was built from an allowed media type and extension, a digest that
  -- passes
  -- the check, and an owner and a host that the address shows as they are, is parsed to these, with
  -- the extension in lower case.
  pub parse-build_resource :
      (media_type sha256 ext : Str) (env : Option Str) (host : Str) (exts : List Str)
      → IsOrg env
      → IsHost host
      → is_sha256 sha256 ≡ true
      → get allowed_exts media_type ≡ some exts
      → contains exts (lower ext) ≡ true
      → (text : Str) × (build_resource encode media_type sha256 ext env host ≡ ok text)
        × (parse_resource decode text
            ≡ ok (record {
              media_type = media_type;
              sha256 = sha256;
              ext = lower ext;
              env = env;
              host = host;
            }))
  parse-build_resource media_type sha256 ext env host exts o h sha allowed listed =
      parse-build_resource_at media_type sha256 ext env host none exts o h sha allowed listed
