-- ===== src/MepServer.antt =====
-- mepserver: the tasks that its handlers run.
pub mod DnsRule
pub mod Backend
pub mod Sync
pub mod Appd
pub mod Plans
mod Tests
