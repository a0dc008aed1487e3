-- ===== src/Memory.antt =====
-- The cognitive-memory module (services/src/engrammesh/modules/memory).
pub mod Scope
pub mod Episode
pub mod Claim
pub mod Query
pub mod Database
pub mod UnitOfWork
pub mod Session
pub mod RecordEpisode
pub mod GetEpisode
pub mod ListEpisodes
pub mod Claims
pub mod Inbox
pub mod Relay
mod Examples
