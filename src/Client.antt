-- ===== src/Client.antt =====
-- The desktop client (client/src): the parts of it that are modelled.
pub mod Images
pub mod Player
mod Tests
mod PlayerTests
