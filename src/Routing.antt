-- ===== src/Routing.antt =====
-- src/routing, with RoutingMode, RoutingRule and RoutingProfile of src/domain.
pub mod Mode
pub mod Profiles
pub mod Validator
pub mod Generator
pub mod Manager
mod Tests
