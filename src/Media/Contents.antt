-- ===== src/Media/Contents.antt =====
-- What was stored is found.
use esr.Base.{
  ℕ, ◌≡◌, refl, ap, ◌∙◌, inl, inr, true, Option, none, some, List, [], ◌∷◌, Str, eq_refl, lit,
  contains, Dict, get, has, put, if◌then◌else◌, Bool-cases, arith,
}
use esr.Base.Result.{ok}
use esr.Value.{Value, str}
use esr.Uri.Build.{with_port}
use esr.Uri.RoundTrip.{IsHost, IsOrg, port_of}
use esr.Uri.Resource.{allowed_exts, is_sha256, lower, parse_resource, build_resource}
use esr.Uri.Resource.Laws.{parse-build_resource_at}
use esr.Media.{
  Place, Disk, Stored, file_path, listed_ext, is_valid_ext, strip_dots, ext_of, or_bin, look_up,
  resolve, saved, with_uri, store_found, store,
}

lower_twice : (s : Str) → lower (lower s) ≡ lower s
unfolding lower
lower_twice [] = refl
lower_twice (c ∷ s) = ground (arith, lower_twice s)

lower-or_bin : (s : Str) → lower (or_bin (lower s)) ≡ or_bin (lower s)
unfolding lower
lower-or_bin [] = refl
lower-or_bin (c ∷ s) = lower_twice (c ∷ s)

listed_ext_lem :
    (o : Option (List Str)) (ext : Str)
    → listed_ext o ext ≡ true
    → (exts : List Str) × (o ≡ some exts) × (contains exts ext ≡ true)
listed_ext_lem none ext h = cc
listed_ext_lem (some exts) ext h = (exts, refl, h)

has-put : (d : Dict Str) (k v : Str) → has (put d k v) k ≡ true
unfolding has put
has-put [] k v = ground (arith, eq_refl k)
has-put ((j, w) ∷ d) k v = ground (arith, eq_refl k, has-put d k v)

-- The file is there after it was saved.
has-saved : (d : Dict Str) (k v : Str) → has (if has d k then d else put d k v) k ≡ true
has-saved d k v = elim (Bool-cases (has d k)) [ inl e ↦ rw e e | inr e ↦ rw e (has-put d k v) ]

module _ (decode : Str → Dict Str) (encode : Dict Value → Str) (sha256 : Str → Str)
    (suffix : Str → Str) (place : Place) where
  pub look_up-saved :
      (disk : Disk) (media_type sha ext bytes : Str) (ref : Dict Value) (host : Str)
      → look_up decode encode sha256 suffix place
          (saved decode encode sha256 suffix place disk media_type sha ext bytes ref)
          (record {
            media_type = media_type;
            sha256 = sha;
            ext = ext;
            env = some place.env;
            host = host;
          })
        ≡ ok (file_path place media_type sha ext)
  look_up-saved disk media_type sha ext bytes ref host =
      rw (eq_refl place.env, has-saved disk.files (file_path place media_type sha ext) bytes) refl

  -- A file with an extension that the store allows is saved, and the address that is returned is
  -- read as that of its digest.
  pub parse-store :
      (disk : Disk) (media_type source_path bytes host : Str) (port : Option ℕ)
      (ref_meta : Dict Value) (now : Str)
      → IsOrg (some place.env)
      → IsHost host
      → place.host_port ≡ with_port host (port_of port)
      → get disk.files source_path ≡ some bytes
      → is_sha256 (sha256 bytes) ≡ true
      → is_valid_ext media_type (ext_of (suffix source_path)) ≡ true
      → (uri : Str) × (store decode encode sha256 suffix place disk media_type source_path ref_meta
            now
          ≡ (
            ok (record {
              uri = uri;
              sha256 = sha256 bytes;
              path = file_path place media_type (sha256 bytes) (ext_of (suffix source_path));
            }),
            saved decode encode sha256 suffix place disk media_type
                (sha256 bytes)
                (ext_of (suffix source_path))
                bytes
                (put ref_meta (lit "received_at") (str now)),
          ))
        × (parse_resource decode uri
            ≡ ok (record {
              media_type = media_type;
              sha256 = sha256 bytes;
              ext = ext_of (suffix source_path);
              env = some place.env;
              host = host;
            }))
  unfolding store
  parse-store disk media_type source_path bytes host port ref_meta now o h local held digest valid =
      let ext = ext_of (suffix source_path) in
      let same : lower ext ≡ ext = lower-or_bin (strip_dots (suffix source_path)) in
      let (exts, allowed, listed) = listed_ext_lem (get allowed_exts media_type) ext valid in
      let (uri, built, read) =
        parse-build_resource_at decode encode media_type (sha256 bytes) ext (some place.env) host
          port exts o h digest allowed (ap (contains exts) same ∙ listed) in
      let built' : build_resource encode media_type (sha256 bytes) ext (some place.env)
            place.host_port
          ≡ ok uri =
        rw local built in
      let ref = put ref_meta (lit "received_at") (str now) in
      (
        uri,
        rw (held, store_found, valid)
            (ap
              (λ r. (
                with_uri decode encode sha256 suffix place media_type (sha256 bytes) ext r,
                saved decode encode sha256 suffix place disk media_type (sha256 bytes) ext bytes
                    ref,
              ))
              built'),
        rw (read, same) refl,
      )

  -- A file whose extension the store allows for the media type is stored under its digest, and the
  -- address that is returned is resolved to the path of the stored file, which is there: if the
  -- digest is one of 64 hexadecimal digits, and the environment's name and the host, which may bear a
  -- port, can stand in an address.
  pub resolve-store :
      (disk : Disk) (media_type source_path bytes host : Str) (port : Option ℕ)
      (ref_meta : Dict Value) (now : Str)
      → IsOrg (some place.env)
      → IsHost host
      → place.host_port ≡ with_port host (port_of port)
      → get disk.files source_path ≡ some bytes
      → is_sha256 (sha256 bytes) ≡ true
      → is_valid_ext media_type (ext_of (suffix source_path)) ≡ true
      → (stored : Stored) × (after : Disk) × (store decode encode sha256 suffix place disk
            media_type source_path ref_meta now
          ≡ (ok stored, after))
        × (resolve decode encode sha256 suffix place after stored.uri ≡ ok stored.path)
        × (stored.path ≡ file_path place media_type (sha256 bytes) (ext_of (suffix source_path)))
  unfolding resolve
  resolve-store disk media_type source_path bytes host port ref_meta now o h local held digest
        valid =
      let ext = ext_of (suffix source_path) in
      let (uri, done, read) =
        parse-store disk media_type source_path bytes host port ref_meta now o h local held digest
          valid in
      let ref = put ref_meta (lit "received_at") (str now) in
      (
        record {
          uri = uri;
          sha256 = sha256 bytes;
          path = file_path place media_type (sha256 bytes) ext;
        },
        saved decode encode sha256 suffix place disk media_type (sha256 bytes) ext bytes ref,
        done,
        rw (resolve, read) (look_up-saved disk media_type (sha256 bytes) ext bytes ref host),
        refl,
      )
