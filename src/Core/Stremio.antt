-- ===== src/Core/Stremio.antt =====
-- The Stremio add-on protocol of core/src/stremio.rs.
pub mod Address
pub mod Checks
pub mod Manifests
pub mod Items
pub mod Streams
pub mod Metas
pub mod Client
mod Tests
