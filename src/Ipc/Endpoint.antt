-- ===== src/Ipc/Endpoint.antt =====
-- py/src/esr/ipc/url.py: the address of the runtime that a process finds in its environment. The
-- environment is a dict, and the port file its text, `none` if it cannot be read. The text of the
-- port file is ASCII.
use esr.Base.{
  ℕ, ◌≡◌, refl, Option, none, some, List, [], ◌∷◌, ◌++◌, Str, lit, Dict, get, strip, if◌then◌else◌,
}
use esr.Decimal.{is_digits, read_nat, show_nat}
use esr.Value.{nonempty}

-- `DEFAULT_ADAPTER_HUB_URL` and `DEFAULT_HANDLER_HUB_URL`
abbrev pub default_adapter_hub_url : Str
default_adapter_hub_url = lit "ws://localhost:4001/adapter_hub/socket/websocket?vsn=2.0.0"

abbrev pub default_handler_hub_url : Str
default_handler_hub_url = lit "ws://localhost:4001/handler_hub/socket/websocket?vsn=2.0.0"

-- `Kind`, and the `None` of old callers.
pub data Kind : Type 0 where
  adapter handler legacy : Kind

-- `_read_port_file`
unfoldable pub read_port_file : Option Str → Option ℕ
unfolding is_digits
read_port_file none = none
read_port_file (some text) = let txt = strip text in if is_digits txt then read_nat txt else none

abbrev pub at_port : Option ℕ → (socket_path fallback : Str) → Str
at_port none socket_path fallback = fallback
at_port (some port) socket_path fallback =
    ((lit "ws://127.0.0.1:" ++ show_nat port) ++ (b'/' ∷ socket_path)) ++ lit "/websocket?vsn=2.0.0"

-- `_default_with_port_file`
unfoldable pub default_with_port_file : Option Str → (socket_path fallback : Str) → Str
unfolding read_port_file
default_with_port_file file socket_path fallback =
    at_port (read_port_file file) socket_path fallback

-- `os.environ.get(name, "")`
abbrev pub env_get : Dict Str → Str → Str
env_get env name = elim (get env name) [ none ↦ [] | some value ↦ value ]

-- The choice below the override.
unfoldable pub from_environment : Dict Str → Option Str → Kind → Str
unfolding default_with_port_file
from_environment env file handler =
    if nonempty (env_get env (lit "ESR_HANDLER_HUB_URL"))
    then env_get env (lit "ESR_HANDLER_HUB_URL")
    else if nonempty (env_get env (lit "ESR_RUNTIME_URL"))
    then env_get env (lit "ESR_RUNTIME_URL")
    else default_with_port_file file (lit "handler_hub/socket") default_handler_hub_url
from_environment env file _ =
    if nonempty (env_get env (lit "ESR_ADAPTER_HUB_URL"))
    then env_get env (lit "ESR_ADAPTER_HUB_URL")
    else if nonempty (env_get env (lit "ESR_RUNTIME_URL"))
    then env_get env (lit "ESR_RUNTIME_URL")
    else default_with_port_file file (lit "adapter_hub/socket") default_adapter_hub_url

unfoldable pub discover_runtime_url : Dict Str → Option Str → Option Str → Kind → Str
unfolding from_environment
discover_runtime_url env file none kind = from_environment env file kind
discover_runtime_url env file (some override) kind =
    if nonempty override then override else from_environment env file kind

-- The first text that is not empty.
abbrev pub first_full : List Str → Str → Str
first_full [] last = last
first_full (s ∷ ss) last = if nonempty s then s else first_full ss last

abbrev pub given_or_empty : Option Str → Str
given_or_empty none = []
given_or_empty (some s) = s

abbrev pub hub_variable : Kind → Str
hub_variable handler = lit "ESR_HANDLER_HUB_URL"
hub_variable _ = lit "ESR_ADAPTER_HUB_URL"

abbrev pub hub_socket : Kind → Str
hub_socket handler = lit "handler_hub/socket"
hub_socket _ = lit "adapter_hub/socket"

-- The address is the first text that is given and not empty, of the override, the variable of the
-- kind, and the common variable; and else the address on this host that names the socket of the
-- kind, at the port of the port file, or at 4001 under `localhost` if the file names none.
pub discover_runtime_url_lem :
    (env : Dict Str) (file override : Option Str) (kind : Kind)
    → discover_runtime_url env file override kind
      ≡ first_full
          (given_or_empty override
            ∷ env_get env (hub_variable kind)
            ∷ env_get env (lit "ESR_RUNTIME_URL")
            ∷ [])
          (at_port
            (read_port_file file)
            (hub_socket kind)
            ((lit "ws://localhost:4001/" ++ hub_socket kind) ++ lit "/websocket?vsn=2.0.0"))
unfolding discover_runtime_url
discover_runtime_url_lem env file none adapter = refl
discover_runtime_url_lem env file none handler = refl
discover_runtime_url_lem env file none legacy = refl
discover_runtime_url_lem env file (some override) adapter = refl
discover_runtime_url_lem env file (some override) handler = refl
discover_runtime_url_lem env file (some override) legacy = refl
