-- ===== src/Ipc.antt =====
-- py/src/esr/ipc and py/src/_ipc_common: the plumbing between a Python process and the runtime.
pub mod Envelope
pub mod Client
pub mod Frame
pub mod Endpoint
pub mod Reconnect
pub mod Rewrite
pub mod Teardown
