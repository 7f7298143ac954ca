-- ===== src/Xray.antt =====
-- src/core: the configuration of Xray for a profile.
pub mod Support
pub mod Stream
pub mod Outbounds
pub mod Config
pub mod Reading
pub mod Layers
pub mod Faithful
pub mod Address
pub mod Success
pub mod Tags
mod Tests
