-- ===== src/Media/Phasers.antt =====
-- py/src/esr/resource/media: file_phaser.py, image_phaser.py and phaser_registry.py, by which what
-- stands at an address is read. A file is its bytes; `read_text` is the decoding of a text, `none` if
-- the bytes are not one, and `b64encode` is the library's.
pub mod Laws
use esr.Base.{
  ℕ, Bool, true, false, Option, none, some, List, [], ◌∷◌, ◌++◌, Str, ◌==◌, lit, Dict, get, ltb,
  suc, if◌then◌else◌,
}
use esr.Base.Result.{Result, ok, err}
use esr.Value.{Value}
use esr.Uri.Resource.{ResourceError, Resource, lower, parse_resource}
use esr.Media.{MediaError, Place, Disk, strip_dots, resolve}

-- `unreadable` is the `OSError` of a read, and `undecodable` the `UnicodeDecodeError`.
pub data PhaseError : Type 0 where
  unsupported_input_format unsupported_target no_phaser_for_media_type : Str → PhaseError
  too_large_for_inline unreadable undecodable : PhaseError
  not_a_resource : ResourceError → PhaseError
  unresolved : MediaError → PhaseError

pub data Phased : Type 0 where
  at_path in_bytes in_text : Str → Phased

-- `_PHASERS`
pub data Phaser : Type 0 where
  image file : Phaser

abbrev pub phasers : Dict Phaser
phasers = (lit "image", image) ∷ (lit "file", file) ∷ []

-- `_MIME`
abbrev pub mime_types : Dict Str
mime_types =
    (lit "png", lit "image/png")
    ∷ (lit "jpg", lit "image/jpeg")
    ∷ (lit "jpeg", lit "image/jpeg")
    ∷ (lit "gif", lit "image/gif")
    ∷ (lit "webp", lit "image/webp")
    ∷ (lit "heic", lit "image/heic")
    ∷ []

abbrev pub inline_text_max : ℕ
inline_text_max = 100000

unfoldable pub size : Str → ℕ
size [] = 0
size (c ∷ s) = suc (size s)

abbrev pub mime_or_default : Option Str → Str
mime_or_default none = lit "application/octet-stream"
mime_or_default (some mime) = mime

abbrev pub decoded : Option Str → Result PhaseError Phased
decoded none = err undecodable
decoded (some text) = ok (in_text text)

module _ (decode : Str → Dict Str) (encode : Dict Value → Str) (sha256 : Str → Str)
    (suffix : Str → Str) (b64encode : Str → Str) (read_text : Str → Option Str) where
  abbrev pub bytes_of : Option Str → Result PhaseError Phased
  bytes_of none = err unreadable
  bytes_of (some bytes) = ok (in_bytes bytes)

  abbrev pub inline_text : Option Str → Result PhaseError Phased
  inline_text none = err unreadable
  inline_text (some bytes) =
      if ltb inline_text_max (size bytes)
      then err too_large_for_inline
      else decoded (read_text bytes)

  abbrev pub mime_of : (path : Str) → Str
  mime_of path = mime_or_default (get mime_types (lower (strip_dots (suffix path))))

  abbrev pub data_url : (path : Str) → Option Str → Result PhaseError Phased
  data_url path none = err unreadable
  data_url path (some bytes) =
      ok (in_text ((lit "data:" ++ mime_of path) ++ (lit ";base64," ++ b64encode bytes)))

  -- The target that only one of the phasers knows.
  abbrev pub own_target : Phaser → Disk → (path target : Str) → Result PhaseError Phased
  own_target image disk path target =
      if target == lit "base64_data_url"
      then data_url path (get disk.files path)
      else err (unsupported_target target)
  own_target file disk path target =
      if target == lit "inline_text"
      then inline_text (get disk.files path)
      else err (unsupported_target target)

  -- `FilePhaser.transform` and `ImagePhaser.transform`
  unfoldable pub phase : Phaser → Disk → (kind value target : Str) → Result PhaseError Phased
  unfolding strip_dots lower size
  phase phaser disk kind value target =
      if kind == lit "path"
      then (if target == lit "path"
          then ok (at_path value)
          else if target == lit "bytes"
          then bytes_of (get disk.files value)
          else own_target phaser disk value target)
      else err (unsupported_input_format kind)

  abbrev pub phased :
      Disk → (media_type path target : Str) → Option Phaser → Result PhaseError Phased
  phased disk media_type path target none = err (no_phaser_for_media_type media_type)
  phased disk media_type path target (some phaser) = phase phaser disk (lit "path") path target

  abbrev pub phase_resolved :
      Disk → Resource → (target : Str) → Result MediaError Str → Result PhaseError Phased
  phase_resolved disk r target (err e) = err (unresolved e)
  phase_resolved disk r target (ok path) =
      phased disk r.media_type path target (get phasers r.media_type)

  abbrev pub phase_parsed :
      Place → Disk → (uri target : Str) → Result ResourceError Resource → Result PhaseError Phased
  phase_parsed place disk uri target (err e) = err (not_a_resource e)
  phase_parsed place disk uri target (ok r) =
      phase_resolved disk r target (resolve decode encode sha256 suffix place disk uri)

  unfoldable pub transform : Place → Disk → (uri target : Str) → Result PhaseError Phased
  unfolding phase
  transform place disk uri target = phase_parsed place disk uri target (parse_resource decode uri)
