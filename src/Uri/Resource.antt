-- ===== src/Uri/Resource.antt =====
-- `parse_resource` and `build_resource`: addresses of stored media.
pub mod Laws
use esr.Base.{
  ℕ, zero, suc, ◌+◌, Bool, true, false, not, ◌&&◌, ◌||◌, Option, none, some, List, [], ◌∷◌, ◌++◌,
  Str, ◌==◌, lit, contains, Dict, get, length, rcut, ltb, leb, eqb, if◌then◌else◌, take, drop,
}
use esr.Base.Result.{Result, ok, err, ◌>>=◌, ◌>>◌}
use esr.Value.{Value, nonempty}
use esr.Uri.{UriError, EsrUri, parse}
use esr.Uri.Build.{build_path}

pub data ResourceError : Type 0 where
  in_uri : UriError → ResourceError
  not_resources bad_segment_count unknown_media_type missing_ext bad_sha256 bad_ext : ResourceError

-- `_ALLOWED_EXTS`
abbrev pub allowed_exts : Dict (List Str)
allowed_exts =
    (lit "image", lit "png" ∷ lit "jpg" ∷ lit "jpeg" ∷ lit "gif" ∷ lit "webp" ∷ lit "heic" ∷ [])
    ∷ (
      lit "file",
      lit "bin"
          ∷ lit "pdf"
          ∷ lit "doc"
          ∷ lit "docx"
          ∷ lit "xls"
          ∷ lit "xlsx"
          ∷ lit "zip"
          ∷ lit "txt"
          ∷ lit "md"
          ∷ lit "csv"
          ∷ [],
    )
    ∷ (lit "audio", lit "opus" ∷ lit "mp3" ∷ lit "wav" ∷ lit "m4a" ∷ lit "aac" ∷ [])
    ∷ []

abbrev pub is_hex : ℕ → Bool
is_hex c = (leb 48 c && leb c 57) || (leb 97 c && leb c 102)

-- `^[0-9a-f]{64}$` read from a number of digits still to come. The `$` stands before a last line
-- feed
-- too.
unfoldable pub hex_then_end : ℕ → Str → Bool
hex_then_end zero [] = true
hex_then_end zero (c ∷ []) = eqb c 10
hex_then_end zero (c ∷ d ∷ s) = false
hex_then_end (suc n) [] = false
hex_then_end (suc n) (c ∷ s) = is_hex c && hex_then_end n s

-- `_SHA256_RE.match(s)`
unfoldable pub is_sha256 : Str → Bool
unfolding hex_then_end
is_sha256 s = hex_then_end 64 s

-- `s.lower()` on ASCII
unfoldable pub lower : Str → Str
lower [] = []
lower (c ∷ s) = (if leb 65 c && leb c 90 then c + 32 else c) ∷ lower s

pub record Resource : Type 0 where
  pub media_type : Str
  pub sha256 : Str
  pub ext : Str
  pub env : Option Str
  pub host : Str

abbrev pub require : Bool → ResourceError → Result ResourceError (Unit {0})
require true e = ok tt
require false e = err e

abbrev pub lift : {A : Type 0} → Result UriError A → Result ResourceError A
lift (ok a) = ok a
lift (err e) = err (in_uri e)

-- The media type and the last segment of a path of three segments.
unfoldable pub three_segments : List Str → Result ResourceError (Str × Str)
three_segments (_ ∷ media_type ∷ last_seg ∷ []) = ok (media_type, last_seg)
three_segments _ = err bad_segment_count

abbrev pub with_exts : Option (List Str) → ResourceError → Result ResourceError (List Str)
with_exts none e = err e
with_exts (some exts) e = ok exts

-- `last_seg.rsplit(".", 1)`
unfoldable pub split_ext : Str → Result ResourceError (Str × Str)
split_ext last_seg = elim (rcut b'.' last_seg) [ none ↦ err missing_ext | some p ↦ ok p ]

-- The checks on the media type and the last segment.
unfoldable pub read_resource : Option Str → Str → Str × Str → Result ResourceError Resource
read_resource env host (media_type, last_seg) = do
  exts ← with_exts (get allowed_exts media_type) unknown_media_type
  parts ← split_ext last_seg
  let ext = lower parts.1
  require (is_sha256 parts.0) bad_sha256
  require (contains exts ext) bad_ext
  ok (record { media_type = media_type; sha256 = parts.0; ext = ext; env = env; host = host })

module _ (decode : Str → Dict Str) where
  unfoldable pub parse_resource : Str → Result ResourceError Resource
  parse_resource uri = do
    parsed ← lift (parse decode uri)
    require (parsed.type == lit "resources") not_resources
    parts ← three_segments parsed.segments
    read_resource parsed.org parsed.host parts

module _ (encode : Dict Value → Str) where
  unfoldable pub build_resource :
      (media_type sha256 ext : Str) → (env : Option Str) → (host : Str) → Result ResourceError Str
  build_resource media_type sha256 ext env host = do
    let e = lower ext
    require (is_sha256 sha256) bad_sha256
    exts ← with_exts (get allowed_exts media_type) unknown_media_type
    require (contains exts e) bad_ext
    lift (
        build_path encode (lit "resources" ∷ media_type ∷ (sha256 ++ (b'.' ∷ e)) ∷ []) host none
          none env [])
