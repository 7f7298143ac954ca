-- ===== src/Subscriptions.antt =====
-- src/subscription: updating the profiles of a subscription.
pub mod Update
pub mod Parser
pub mod ShareLink
mod Tests
mod ParserTests
mod ShareLinkTests
