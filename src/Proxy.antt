-- ===== src/Proxy.antt =====
-- The package proxy: sessions between clients, the main database and its replicas.
pub mod Choice
pub mod Secondaries
pub mod Statements
pub mod Session
pub mod Kinds
pub mod Outbound
pub mod MySql
pub mod Postgres
mod Runs
