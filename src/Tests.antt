-- ===== src/Tests.antt =====
-- The theorems at concrete inputs, and runs of the definitions.
mod Permissions
mod Pushes
mod Scans
mod Messages
mod Addresses
mod Channels
mod Bridges
mod Tables
mod Runners
mod Workers
mod Feishus
mod Medias
