-- ===== src/Bridge.antt =====
-- py/src/cc_channel_runner: the bridge between the runtime's channel and a Claude Code session.
pub mod Notification
pub mod Phoenix
pub mod Receive
pub mod Tools
pub mod Server
pub mod Main
