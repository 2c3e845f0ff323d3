-- ===== src/Api/Server/Handlers.antt =====
-- The handlers of app/api/server.go, by what they are about.
pub mod Epochs
pub mod EpochIdentities
pub mod Blocks
pub mod Identities
pub mod Addresses
pub mod Contracts
pub mod Network
