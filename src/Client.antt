-- ===== src/Client.antt =====
-- src/client.h, src/client.cc.
mod Tests
pub mod Delegates
pub mod Escape
pub mod ParsedQuery
