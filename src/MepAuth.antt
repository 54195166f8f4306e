-- ===== src/MepAuth.antt =====
-- mepauth: who may have a token. An application proves its access key by signing its request.
pub mod BlockList
pub mod Token
pub mod Validation
mod Tests
