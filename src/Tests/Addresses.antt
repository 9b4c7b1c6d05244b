-- ===== src/Tests/Addresses.antt =====
-- Addresses at concrete inputs.
use esr.Base.{
  ℕ, ◌≡◌, refl, ◌⊎◌, ◌↔◌, inl, inr, Bool, true, false, Option, none, some, List, [], ◌∷◌, ◌++◌,
  ◌==◌, ◌≤◌, Str, lit, All, length, contains, Dict, get, arith,
}
use esr.Base.Result.{ok}
use esr.Decimal.{pos}
use esr.Value.{Value}
use esr.Uri.{parse, EsrUri, legacy_types, path_style_types}
use esr.Uri.Build.{build_path}
use esr.Uri.RoundTrip.{IsHost, expected, parse-build_path}
use esr.Uri.WellFormed.{IsWellFormed, parse-IsWellFormed}
use esr.Uri.Resource.{Resource, is_sha256}
use esr.Uri.Resource.Laws.{IsHex, is_sha256-IsHex}

-- No address here has a query.
abbrev no_decode : Str → Dict Str
no_decode s = []

abbrev no_encode : Dict Value → Str
no_encode d = []

localhost-IsHost : IsHost (lit "localhost")
localhost-IsHost = record {
  full = refl;
  no_slash = omega arith;
  no_query = omega arith;
  no_at = omega arith;
  no_colon = omega arith;
}

abbrev chat_path : List Str
chat_path = lit "chats" ∷ lit "oc_1" ∷ []

parse-build_path_example :
    (text : Str) × (build_path no_encode chat_path
        (lit "localhost")
        (some (pos 4001))
        (some (lit "dev"))
        none
        []
      ≡ ok text)
    × (parse no_decode text
        ≡ ok (
            expected no_decode no_encode
              (some (lit "dev"))
              (lit "localhost")
              (some 4001)
              (lit "chats")
              (lit "oc_1" ∷ [])
              []))
unfolding contains ◌==◌
parse-build_path_example =
    parse-build_path no_decode no_encode (some (lit "dev")) (lit "localhost") (some 4001)
      (lit "chats") (lit "oc_1" ∷ []) [] (refl, omega arith, omega arith, omega arith)
      localhost-IsHost refl refl (omega arith)
      ((refl, omega arith, omega arith), ((refl, omega arith, omega arith), tt))

abbrev actor_uri : EsrUri
actor_uri =
    expected no_decode no_encode none (lit "localhost") none (lit "actor") (lit "a1" ∷ []) []

parse-IsWellFormed_example : IsWellFormed actor_uri
unfolding parse esr.Base.starts_with esr.Uri.split_path esr.Base.cut esr.Uri.split_query
    esr.Uri.split_org esr.Uri.split_host esr.Uri.read_port esr.Uri.read_path esr.Uri.path_parts
    esr.Base.split esr.Uri.read_type contains ◌==◌ esr.Uri.last
parse-IsWellFormed_example =
    parse-IsWellFormed no_decode (lit "esr://localhost/actor/a1") actor_uri refl

abbrev digest : Str
digest = lit "0123456789abcdef0123456789abcdef0123456789abcdef0123456789abcdef"

is_sha256-IsHex_example :
    (is_sha256 digest ≡ true)
    ↔ (IsHex 64 digest ⊎ ((h : Str) × (digest ≡ h ++ b'\n' ∷ []) × IsHex 64 h))
is_sha256-IsHex_example = is_sha256-IsHex digest

-- A digest that a line feed follows is accepted.
is_sha256_line_feed : is_sha256 (digest ++ b'\n' ∷ []) ≡ true
unfolding is_sha256
is_sha256_line_feed = refl

abbrev image_exts : List Str
image_exts = lit "png" ∷ lit "jpg" ∷ lit "jpeg" ∷ lit "gif" ∷ lit "webp" ∷ lit "heic" ∷ []

abbrev an_image : Resource
an_image = record {
  media_type = lit "image";
  sha256 = digest;
  ext = lit "png";
  env = none;
  host = lit "localhost";
}
