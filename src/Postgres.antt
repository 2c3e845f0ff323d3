-- ===== src/Postgres.antt =====
-- app/db/postgres: the accessor that runs the SQL scripts.
pub mod Paging
pub mod Tokens
pub mod Rewards
pub mod Filter
pub mod Estimates
pub mod OracleRewards
pub mod Balances
pub mod Upgrades
pub mod Queries
pub mod IdentityRewards
pub mod Keyed
pub mod Search
pub mod TokenBalances
pub mod States
pub mod Answers
pub mod Votings
mod Examples
