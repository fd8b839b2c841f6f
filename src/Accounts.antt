-- ===== src/Accounts.antt =====
-- The accounts server (server/accounts), and the part of core/src/account.rs that it rests on.
pub mod Registration
pub mod Auth
pub mod Storage
pub mod App
mod Tests
mod AppTests
