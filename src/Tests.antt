-- ===== src/Tests.antt =====
-- A concrete platform and concrete rows, and each theorem at work on them.
pub mod Formats
pub mod World
pub mod Story
mod Witnesses
mod Keys
pub mod Contracts
pub mod Served
mod Session
mod Import
mod Commands
mod Envelopes
mod Broker
