-- ===== src/Gateway.antt =====
-- services/gateway-go: the public entry of the platform.
pub mod Auth
pub mod Client
pub mod Ratelimit
pub mod Handler
pub mod Agreement
pub mod Submission
pub mod Entry
pub mod Service
mod Tests
