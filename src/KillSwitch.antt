-- ===== src/KillSwitch.antt =====
-- src/killswitch: the kill switch of the helper, its marker file and its manager.
pub mod Marker
pub mod Manager
pub mod LinuxNft
mod Tests
