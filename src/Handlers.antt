-- ===== src/Handlers.antt =====
-- handlers/: the pure functions from a state and an event to a state and actions, a module each.
pub mod Thread
pub mod App
pub mod Session
