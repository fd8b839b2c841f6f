-- ===== src/Core.antt =====
-- The client's core crate (core/src): the parts of it that are modelled.
pub mod Store
pub mod Top8
pub mod Manifest
pub mod Addons
pub mod Catalog
pub mod Watchlist
pub mod Playback
pub mod Friends
pub mod Stremio
mod Tests
mod WatchlistTests
mod PlaybackTests
mod FriendsTests
