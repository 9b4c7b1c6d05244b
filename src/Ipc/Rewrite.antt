-- ===== src/Ipc/Rewrite.antt =====
-- py/src/_ipc_common/url.py: the port of a running runtime put into an address. The port file is its
-- text, `none` if it cannot be read, in ASCII; `urlparse` and `urlunparse` are urllib's.
use esr.Base.{Option, none, some, [], ◌∷◌, ◌++◌, Str, lit, strip, if◌then◌else◌}
use esr.Decimal.{is_digits}
use esr.Value.{nonempty}

-- The result of `urlparse`, with the three attributes that are read from its `netloc`.
pub record ParseResult : Type 0 where
  pub scheme : Str
  pub netloc : Str
  pub path : Str
  pub params : Str
  pub query : Str
  pub fragment : Str
  pub hostname : Option Str
  pub username : Option Str
  pub password : Option Str

abbrev given : Option Str → Str
given none = []
given (some s) = s

abbrev pub host_of : Option Str → Str
host_of hostname = if nonempty (given hostname) then given hostname else lit "127.0.0.1"

-- The user and the password before the host.
abbrev pub with_password : (user password : Str) → Str
with_password user password = if nonempty password then user ++ (b':' ∷ password) else user

abbrev pub with_user : (user password host : Str) → Str
with_user user password host =
    if nonempty user then with_password user password ++ (b'@' ∷ host) else host

abbrev pub new_netloc : ParseResult → (port : Str) → Str
new_netloc parsed port =
    with_user (given parsed.username) (given parsed.password)
      (host_of parsed.hostname ++ (b':' ∷ port))

unfoldable pub resolve_url :
    (urlparse : Str → ParseResult)
    → (urlunparse : ParseResult → Str) → (port_file : Option Str) → (fallback_url : Str) → Str
unfolding is_digits strip
resolve_url urlparse urlunparse none fallback_url = fallback_url
resolve_url urlparse urlunparse (some text) fallback_url =
    let parsed = urlparse fallback_url in
    if is_digits (strip text)
    then urlunparse (record parsed { netloc = new_netloc parsed (strip text) })
    else fallback_url
