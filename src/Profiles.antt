-- ===== src/Profiles.antt =====
-- The proxy profiles of src/domain and their validation.
pub mod Profile
pub mod Validation
mod Tests
