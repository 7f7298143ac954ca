-- ===== src/SingBox.antt =====
-- src/runtime/singbox: the configuration of sing-box for TUN mode.
pub mod RuleSets
pub mod Matchers
pub mod Rule
pub mod Route
pub mod DnsSection
pub mod Outbounds
pub mod Config
pub mod References
pub mod RuleTags
pub mod DnsRules
pub mod Closed
pub mod Tagged
pub mod Complete
pub mod Success
mod Tests
