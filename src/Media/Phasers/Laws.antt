-- ===== src/Media/Phasers/Laws.antt =====
-- What was stored is read back by the phasers.
use esr.Base.{
  ℕ, ◌≡◌, refl, ◌⊎◌, inl, inr, true, false, Option, none, some, [], ◌∷◌, Str, ◌==◌, eq_refl, lit,
  Dict, get, has, put, get-put, if◌then◌else◌, arith,
}
use esr.Base.Result.{ok}
use esr.Value.{Value, str}
use esr.Uri.Build.{with_port}
use esr.Uri.RoundTrip.{IsHost, IsOrg, port_of}
use esr.Uri.Resource.{is_sha256}
use esr.Media.{Place, Disk, Stored, file_path, is_valid_ext, ext_of, resolve, saved, store}
use esr.Media.Contents.{parse-store, look_up-saved}
use esr.Media.Phasers.{
  in_bytes, Phaser, phasers, bytes_of, phase, phase_parsed, phase_resolved, phased, transform,
}

has-get : (d : Dict Str) (k v : Str) → get d k ≡ some v → has d k ≡ true
unfolding has get
has-get [] k v h = cc
has-get ((j, w) ∷ d) k v h = ground (arith, has-get d k v)

has_missing : (d : Dict Str) (k : Str) → get d k ≡ none → has d k ≡ false
unfolding has get
has_missing [] k h = refl
has_missing ((j, w) ∷ d) k h = ground (arith, has_missing d k)

-- What stands at a path after bytes are saved there, where nothing else stood.
get-saved :
    (d : Dict Str) (k v : Str)
    → (get d k ≡ none) ⊎ (get d k ≡ some v)
    → get (if has d k then d else put d k v) k ≡ some v
get-saved d k v (inl e) = rw (has_missing d k e, get-put d k k v, eq_refl k) refl
get-saved d k v (inr e) = rw (has-get d k v e) e

module _ (decode : Str → Dict Str) (encode : Dict Value → Str) (sha256 : Str → Str)
    (suffix : Str → Str) (b64encode : Str → Str) (read_text : Str → Option Str) where
  phase_bytes :
      (phaser : Phaser) (disk : Disk) (path : Str)
      → phase decode encode sha256 suffix b64encode read_text phaser disk
          (lit "path")
          path
          (lit "bytes")
        ≡ bytes_of decode encode sha256 suffix b64encode read_text (get disk.files path)
  unfolding phase ◌==◌
  phase_bytes phaser disk path = refl

  -- An image or a file that was stored is found by its address, and its bytes are those of the
  -- source: if the store allows its extension for the media type, the digest is one of 64 hexadecimal
  -- digits, the environment's name and the host, which may bear a port, can stand in an address, and
  -- nothing but these bytes stood at the path of the digest.
  pub transform-store :
      (place : Place) (disk : Disk) (media_type source_path bytes host : Str) (port : Option ℕ)
      (ref_meta : Dict Value) (now : Str) (phaser : Phaser)
      → IsOrg (some place.env)
      → IsHost host
      → place.host_port ≡ with_port host (port_of port)
      → get disk.files source_path ≡ some bytes
      → is_sha256 (sha256 bytes) ≡ true
      → is_valid_ext media_type (ext_of (suffix source_path)) ≡ true
      → get phasers media_type ≡ some phaser
      → (get disk.files (file_path place media_type (sha256 bytes) (ext_of (suffix source_path)))
          ≡ none)
        ⊎ (get disk.files (file_path place media_type (sha256 bytes) (ext_of (suffix source_path)))
            ≡ some bytes)
      → (stored : Stored) × (after : Disk) × (store decode encode sha256 suffix place disk
            media_type source_path ref_meta now
          ≡ (ok stored, after))
        × (resolve decode encode sha256 suffix place after stored.uri ≡ ok stored.path)
        × (transform decode encode sha256 suffix b64encode read_text place after stored.uri
              (lit "bytes")
            ≡ ok (in_bytes bytes))
  unfolding resolve transform
  transform-store place disk media_type source_path bytes host port ref_meta now phaser o h local
        held digest valid known free =
      let ext = ext_of (suffix source_path) in
      let path = file_path place media_type (sha256 bytes) ext in
      let (uri, done, read) =
        parse-store decode encode sha256 suffix place disk media_type source_path bytes host port
          ref_meta now o h local held digest valid in
      let ref = put ref_meta (lit "received_at") (str now) in
      let after =
        saved decode encode sha256 suffix place disk media_type (sha256 bytes) ext bytes ref in
      let found : resolve decode encode sha256 suffix place after uri ≡ ok path =
        rw (resolve, read)
          (look_up-saved decode encode sha256 suffix place disk media_type (sha256 bytes) ext bytes
            ref host) in
      (
        record { uri = uri; sha256 = sha256 bytes; path = path },
        after,
        done,
        found,
        rw
            (
              transform,
              read,
              phase_parsed,
              found,
              phase_resolved,
              known,
              phased,
              phase_bytes phaser after path,
              get-saved disk.files path bytes free,
            )
            refl,
      )
