-- ===== src/Directory.antt =====
-- The directory server, server/directory/src: usernames (username.rs), storage (db.rs), signed
-- requests (auth.rs), the request paths (paths.rs) and the handlers (app.rs).
pub mod Username
pub mod Storage
pub mod Auth
pub mod App
mod Tests
