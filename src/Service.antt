-- ===== src/Service.antt =====
-- app/service: the pieces between the HTTP side, the database and the indexer.
pub mod NetworkSize
pub mod Contracts
mod Examples
