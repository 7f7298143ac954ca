-- ===== src/Dns.antt =====
-- src/dns and the DNS types of src/domain.
pub mod Profiles
pub mod Generator
pub mod Servers
mod Tests
