-- ===== src/Core/Catalog.antt =====
-- Catalog pages: their caches (core/src/catalog_cache.rs) and the board (core/src/board.rs).
pub mod Memory
pub mod Page
pub mod Disk
pub mod DiskKept
pub mod DiskBound
pub mod Offline
pub mod Board
mod Tests
mod DiskTests
