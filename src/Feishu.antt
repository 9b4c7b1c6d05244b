-- ===== src/Feishu.antt =====
-- adapters/feishu: the adapter of the Feishu chat service.
pub mod Parsers
pub mod Inbound
pub mod Retry
pub mod Services
pub mod Directives
pub mod Download
pub mod Effects
pub mod Messages
pub mod Poll
pub mod Stream
