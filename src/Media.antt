-- ===== src/Media.antt =====
-- py/src/esr/resource/media/__init__.py: the store of files by their content. The file system is a
-- dict from paths to bytes, with the lines that were appended to files of references; `sha256` is the
-- digest of the library, `suffix` the one of `pathlib`, and `encode` and `decode` are urllib's.
pub mod Contents
pub mod Phasers
use esr.Base.{
  Bool, true, false, not, Option, none, some, List, [], ◌∷◌, ◌++◌, Str, ◌==◌, lit, contains, Dict,
  get, has, put, eqb, if◌then◌else◌,
}
use esr.Base.Result.{Result, ok, err, ◌>>=◌}
use esr.Value.{Value, str, nonempty}
use esr.Uri.Resource.{ResourceError, Resource, allowed_exts, lower, parse_resource, build_resource}

-- The reasons of an `EsrResourceError`; `refused` is the `ValueError` of `build_resource`, which the
-- store does not catch.
pub data MediaError : Type 0 where
  invalid_uri wrong_env not_found unsupported_ext source_not_found : MediaError
  refused : ResourceError → MediaError

-- The environment: `ESRD_HOME`, `ESR_INSTANCE` and `ESRD_HOST_PORT` or their defaults.
pub record Place : Type 0 where
  pub home : Str
  pub env : Str
  pub host_port : Str

pub record Disk : Type 0 where
  pub files : Dict Str
  pub refs : List (Str × Dict Value)

pub record Stored : Type 0 where
  pub uri : Str
  pub sha256 : Str
  pub path : Str

-- `_resource_dir`
abbrev pub resource_dir : Place → (media_type : Str) → Str
resource_dir place media_type =
    place.home ++ (b'/' ∷ place.env) ++ (lit "/resources/") ++ media_type

abbrev pub file_path : Place → (media_type sha256 ext : Str) → Str
file_path place media_type sha256 ext =
    resource_dir place media_type ++ (b'/' ∷ sha256) ++ (b'.' ∷ ext)

-- `_validate_media_type_and_ext`; its table is that of the addresses.
abbrev pub listed_ext : Option (List Str) → (ext : Str) → Bool
listed_ext none ext = false
listed_ext (some exts) ext = contains exts ext

abbrev pub is_valid_ext : (media_type ext : Str) → Bool
is_valid_ext media_type ext = listed_ext (get allowed_exts media_type) ext

unfoldable pub strip_dots : Str → Str
strip_dots [] = []
strip_dots (c ∷ s) = if eqb c b'.' then strip_dots s else c ∷ s

abbrev or_bin : Str → Str
or_bin ext = if nonempty ext then ext else lit "bin"

-- `src.suffix.lstrip(".").lower() or "bin"`
abbrev pub ext_of : (suffix : Str) → Str
ext_of suffix = or_bin (lower (strip_dots suffix))

module _ (decode : Str → Dict Str) (encode : Dict Value → Str) (sha256 : Str → Str)
    (suffix : Str → Str) (place : Place) where
  -- An address that names no environment is one of this.
  abbrev pub is_other_env : Option Str → Bool
  is_other_env none = false
  is_other_env (some env) = not (env == place.env)

  abbrev pub look_up : Disk → Resource → Result MediaError Str
  look_up disk r =
      if is_other_env r.env
      then err wrong_env
      else if has disk.files (file_path place r.media_type r.sha256 r.ext)
      then ok (file_path place r.media_type r.sha256 r.ext)
      else err not_found

  unfoldable pub resolve : Disk → (uri : Str) → Result MediaError Str
  resolve disk uri = elim (parse_resource decode uri) [
    | err e ↦ err invalid_uri
    | ok r ↦ look_up disk r
  ]

  -- The bytes are copied if nothing stands at their path, and a reference is appended.
  abbrev pub saved : Disk → (media_type sha ext bytes : Str) → (ref : Dict Value) → Disk
  saved disk media_type sha ext bytes ref =
      let path = file_path place media_type sha ext in
      record {
        files = if has disk.files path then disk.files else put disk.files path bytes;
        refs =
            disk.refs
            ++ (resource_dir place media_type ++ (b'/' ∷ sha) ++ (lit ".refs.jsonl"), ref) ∷ [];
      }

  abbrev pub with_uri :
      (media_type sha ext : Str) → Result ResourceError Str → Result MediaError Stored
  with_uri media_type sha ext (err e) = err (refused e)
  with_uri media_type sha ext (ok uri) =
      ok (record { uri = uri; sha256 = sha; path = file_path place media_type sha ext })

  abbrev pub store_bytes :
      Disk → (media_type ext bytes : Str) → (ref : Dict Value) → Result MediaError Stored × Disk
  store_bytes disk media_type ext bytes ref = (
    with_uri media_type (sha256 bytes) ext
        (build_resource encode media_type (sha256 bytes) ext (some place.env) place.host_port),
    saved disk media_type (sha256 bytes) ext bytes ref,
  )

  abbrev pub store_found :
      Disk
      → (media_type source_path : Str) → (ref_meta : Dict Value) → (now : Str) → Option Str
      → Result MediaError Stored × Disk
  store_found disk media_type source_path ref_meta now none = (err source_not_found, disk)
  store_found disk media_type source_path ref_meta now (some bytes) =
      let ext = ext_of (suffix source_path) in
      if is_valid_ext media_type ext
      then store_bytes disk media_type ext bytes (put ref_meta (lit "received_at") (str now))
      else (err unsupported_ext, disk)

  unfoldable pub store :
      Disk
      → (media_type source_path : Str) → (ref_meta : Dict Value) → (now : Str)
      → Result MediaError Stored × Disk
  unfolding strip_dots lower
  store disk media_type source_path ref_meta now =
      store_found disk media_type source_path ref_meta now (get disk.files source_path)
