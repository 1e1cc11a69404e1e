-- ===== src/App.antt =====
-- internal/app: the public API in front of a group, a source and a directory.
pub mod Mutations
pub mod Outcomes
pub mod Writes
pub mod Tags
pub mod Keys
pub mod Responses
pub mod Handlers
