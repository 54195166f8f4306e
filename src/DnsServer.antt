-- ===== src/DnsServer.antt =====
-- dns-server: a DNS server over a Bolt data store, with an HTTP interface that manages its records.
pub mod Records
pub mod Names
pub mod Backend
pub mod Store
pub mod Mgmt
pub mod Server
pub mod Config
mod TestDb
mod Tests
