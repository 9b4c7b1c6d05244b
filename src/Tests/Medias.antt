-- ===== src/Tests/Medias.antt =====
-- The media store at a concrete file.
use esr.Base.{◌≡◌, inl, Option, refl, some, [], ◌∷◌, ◌==◌, contains, Str, lit, Dict, get, arith}
use esr.Base.Result.{ok}
use esr.Value.{Value}
use esr.Uri.RoundTrip.{IsHost}
use esr.Uri.Resource.{is_sha256, lower}
use esr.Media.{Place, Disk, Stored, store, resolve, strip_dots}
use esr.Media.Phasers.{image, in_bytes, transform}
use esr.Media.Phasers.Laws.{transform-store}

abbrev no_decode : Str → Dict Str
no_decode s = []

abbrev no_encode : Dict Value → Str
no_encode d = []

-- The digest of every content here.
abbrev digest : Str → Str
digest bytes = lit "e3b0c44298fc1c149afbf4c8996fb92427ae41e4649b934ca495991b7852b855"

abbrev png : Str → Str
png path = lit ".PNG"

abbrev place : Place
place = record { home = lit "/home/esr"; env = lit "dev"; host_port = lit "localhost:4001" }

abbrev disk : Disk
disk = record { files = (lit "/tmp/a.PNG", lit "bytes") ∷ []; refs = [] }

localhost-IsHost : IsHost (lit "localhost")
localhost-IsHost = record {
  full = refl;
  no_slash = omega arith;
  no_query = omega arith;
  no_at = omega arith;
  no_colon = omega arith;
}

abbrev no_base64 : Str → Str
no_base64 bytes = bytes

abbrev ascii : Str → Option Str
ascii bytes = some bytes

transform-store_example :
    (stored : Stored) × (after : Disk) × (store no_decode no_encode digest png place disk
        (lit "image")
        (lit "/tmp/a.PNG")
        []
        (lit "t1")
      ≡ (ok stored, after))
    × (resolve no_decode no_encode digest png place after stored.uri ≡ ok stored.path)
    × (transform no_decode no_encode digest png no_base64 ascii place after stored.uri (lit "bytes")
        ≡ ok (in_bytes (lit "bytes")))
unfolding get ◌==◌ contains is_sha256 lower strip_dots esr.Decimal.show_int
transform-store_example =
    transform-store no_decode no_encode digest png no_base64 ascii place disk (lit "image")
      (lit "/tmp/a.PNG") (lit "bytes") (lit "localhost") (some 4001) [] (lit "t1") image
      (refl, omega arith, omega arith, omega arith) localhost-IsHost refl refl refl refl refl
      (inl refl)
