-- ===== src/Uri/Build.antt =====
-- `build` and `build_path`.
use esr.Base.{
  Bool, true, false, not, Option, none, some, List, [], ◌∷◌, ◌++◌, Str, contains, Dict, length,
  join, ltb, if◌then◌else◌,
}
use esr.Base.Result.{Result, ok, ◌>>◌}
use esr.Decimal.{ℤ, show_int}
use esr.Value.{Value, nonempty}
use esr.Uri.{
  UriError, unknown_type, empty_host, empty_id, too_few_segments, not_path_style, empty_segment,
  scheme, path_style_types, is_valid_type, guard,
}

abbrev pub with_port : Str → Option ℤ → Str
with_port host none = host
with_port host (some port) = host ++ (b':' ∷ show_int port)

abbrev pub with_org : Option Str → Str → Str
with_org none authority = authority
with_org (some []) authority = authority
with_org (some (c ∷ org)) authority = (c ∷ org) ++ (b'@' ∷ authority)

abbrev pub address : Option Str → Str → Option ℤ → Str → Str
address org host port path = scheme ++ (with_org org (with_port host port) ++ (b'/' ∷ path))

-- `env or org`
abbrev pub env_or_org : Option Str → Option Str → Option Str
env_or_org none org = org
env_or_org (some []) org = org
env_or_org (some (c ∷ env)) org = some (c ∷ env)

unfoldable pub all_nonempty : List Str → Bool
all_nonempty [] = true
all_nonempty (s ∷ ss) = if nonempty s then all_nonempty ss else false

abbrev pub first_is_path_style : List Str → Bool
first_is_path_style [] = false
first_is_path_style (s ∷ ss) = contains path_style_types s

module _ (encode : Dict Value → Str) where
  abbrev pub with_params : Str → Dict Value → Str
  with_params s [] = s
  with_params s (p ∷ ps) = s ++ (b'?' ∷ encode (p ∷ ps))

  unfoldable pub build : Str → Str → Str → Option ℤ → Option Str → Dict Value → Result UriError Str
  build type id host port org params = do
    guard (is_valid_type type) unknown_type
    guard (nonempty host) empty_host
    guard (nonempty id) empty_id
    ok (with_params (address org host port (type ++ (b'/' ∷ id))) params)

  unfoldable pub build_path :
      List Str → Str → Option ℤ → (org env : Option Str) → Dict Value → Result UriError Str
  build_path segments host port org env params = do
    guard (not (ltb (length segments) 2)) too_few_segments
    guard (first_is_path_style segments) not_path_style
    guard (nonempty host) empty_host
    guard (all_nonempty segments) empty_segment
    ok (with_params (address (env_or_org env org) host port (join b'/' segments)) params)
