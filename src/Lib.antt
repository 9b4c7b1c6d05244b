-- ===== src/Lib.antt =====
-- ESR, the Python side: the SDK under py/src/esr, the plumbing under py/src/_ipc_common, and the
-- handlers under handlers/, with the processes that run them and the adapter of Feishu.
--
-- How the parts interact. An adapter turns what a user sends into an `event` envelope. The runtime
-- passes the event to a handler, a pure function of a state and an event that gives a new state and
-- a list of actions, which go back over the wire as dicts: an action emits a directive to an
-- adapter, routes a message to another actor, or asks for a new session. Every process speaks to the
-- runtime through one channel client, and every permission is checked against a file of
-- capabilities. Actors and resources are named by `esr://` addresses.
--
-- The files.
--   Base       texts (lists of code points), lists, maps (association lists in order of insertion),
--              splitting, and `Result` with the exceptions of Python that the code raises.
--   Decimal    `str` and `int` on integers.
--   Value      the dynamic values of JSON and YAML with their tests and subscripts.
--   Capability py/src/esr/capabilities.py: `matches` is `_matches`, `split_capability` is `_split`,
--              `reload` and `has_capability` are `reload` and `has` on the record `Checker`.
--   Actions    py/src/esr/actions.py and py/src/esr/events.py; Actions/Wire is `serialise_action` and
--              `deserialise_action` of py/src/esr/ipc/envelope.py.
--   Handlers   Handlers/Thread is handlers/feishu_thread, Handlers/App is handlers/feishu_app, and
--              Handlers/Session is handlers/cc_session and handlers/cc_adapter_runner. A field of
--              the pydantic models is a field of a record, a frozenset is a list that is only asked
--              for membership.
--   Uri        py/src/esr/uri.py: `parse`, `build` and `build_path`; Uri/Resource is `parse_resource`
--              and `build_resource`.
--   Ipc        Ipc/Envelope is the builders of py/src/esr/ipc/envelope.py, Ipc/Frame is
--              py/src/_ipc_common/frame.py, Ipc/Client is py/src/esr/ipc/channel_client.py with a step
--              for each method or part of a method between two waits.
--              Ipc/Endpoint is py/src/esr/ipc/url.py, Ipc/Rewrite is py/src/_ipc_common/url.py, and
--              Ipc/Reconnect is py/src/_ipc_common/reconnect.py; Ipc/Teardown is
--              py/src/_ipc_common/disconnect.py and the end of `run_with_client`.
--   Registry   py/src/esr/handler.py: what the decorators `handler` and `handler_state` make of the
--              registries.
--   Bridge     py/src/cc_channel_runner: Bridge/Notification is notification.py, Bridge/Receive is
--              phx_receive.py with the pending calls of mcp_server.py, Bridge/Tools the rest of its tool
--              calls, Bridge/Server its configuration and its list of tools, Bridge/Main the end of
--              __main__.py, and Bridge/Phoenix is phx_client.py with a step for each method or part of
--              a method between two waits.
--   Workspaces py/src/esr/workspaces.py: `read_workspaces`, `write_workspace` and, in
--              Workspaces/Removal, `remove_workspace` on the document of the file, if there is one;
--              Workspaces/RoundTrip is about what is written.
--   Adapters   py/src/esr/adapter.py: the registry of adapters and their configurations.
--   Runner     py/src/_adapter_common/runner_core.py and py/src/esr/ipc/channel_pusher.py: the process
--              of an adapter. `process_directive` and `wrap_event` are the bodies of the two loops,
--              `Turn` is one round of either, and `start_runner` is `run_with_client` before the loops.
--              Runner/Entry is py/src/_adapter_common/main.py with the entry points of the sidecars, and
--              py/src/esr/adapters.py.
--   Worker     py/src/esr/ipc/handler_worker.py: `process_handler_call` by its parts, `dump_state`, and
--              the loop; Worker/Dump is `_to_json_native` on the values of a dumped state, and
--              Worker/Entry the start of the process.
--   Feishu     adapters/feishu/src/esr_feishu. Feishu/Parsers and Feishu/Inbound are parsers.py; of
--              adapter.py, Feishu/Retry is `_with_ratelimit_retry`, Feishu/Services what it calls
--              outside of the repository, Feishu/Directives and Feishu/Download `on_directive` with the
--              methods that it calls, Feishu/Messages the three paths by which messages come in,
--              Feishu/Poll the poll of a chat, and Feishu/Stream `emit_events` over the connections to
--              the local stand-in.
--   Media      py/src/esr/resource/media: `store` and `resolve` on a file system that is a dict, with the
--              addresses of Uri/Resource; Media/Phasers is the phasers and their registry.
--   Verify     py/src/esr/verify: `scan_imports`, `scan_adapter` and `frozen_state_fixture`, on trees of
--              the nodes that the scans tell apart.
--   Tests      runs of the definitions, and the theorems at concrete inputs.
--
-- Parameters. `repr` is Python's text of a list or a dict, `load` the YAML parser, `decode` and
-- `encode` are `parse_qsl` (made a dict) and `urlencode`; fresh identifiers and times are arguments.
-- `loads` is `json.loads`, `World` what the worker takes from the language, `Services` and `Files`
-- what the adapter of Feishu calls, and `sha256`, `suffix`, `b64encode` and `read_text` are
-- hashlib's, pathlib's and base64's; `urlparse` and `urlunparse` are urllib's, and `import_module` is the
-- import of a module with the registry or the registries that it leaves. Nothing is assumed of them,
-- but that `str` of a text is the text where the order of a dumped set is concerned, that the registered handlers return states and actions
-- or raise where a reply is promised, that a digest has 64 hexadecimal digits where a file is
-- stored, and is not that of other bytes that are stored already, and that a service acts on the state
-- that is threaded through its calls and on nothing else.
--
-- Bounds and fuel. The memory of message ids and the queue of pushes are bounded by 1000 in the code,
-- and so they are here. Loops are structural recursion, but two on fuel: `show_nat` has one unit more
-- than the number, which is enough, since every digit divides it by ten, and the walk of a tree has one
-- for each node. Integers are
-- those of Python, without a bound.
--
-- Not modelled. Logging, the event loop and the sockets themselves; a write to an open socket
-- succeeds, and one to a closed socket raises. During a reconnect the read loop gets the replies to
-- the joins and nothing else, and its delays are left out. In the bridge the payload of a
-- frame is a dict, and a notification is written as soon as it is sent. The two loops of a runner are
-- a history of turns, since only their pushes meet; which task of a connection ends first is given to
-- the model. The service's library, HTTP, the file system and the
-- media store are parameters of the adapter, and its sockets are not modelled. Of the bridge, the stdio
-- transport and the race of its two tasks are left out, and of the scans the parser of the language.
pub mod Verify
pub mod Media
pub mod Worker
pub mod Adapters
pub mod Registry
pub mod Actions
pub mod Feishu
pub mod Uri
pub mod Ipc
pub mod Handlers
pub mod Value
pub mod Bridge
pub mod Base
pub mod Capability
pub mod Runner
pub mod Decimal
pub mod Workspaces
pub mod Tests
