-- ===== src/RideGroup.antt =====
-- internal/ridegroup: what the adapter of ride groups sends, and when it may.
pub mod State
pub mod Publication
pub mod Authorization
pub mod Egress
pub mod Channels
pub mod Messages
pub mod Validation
pub mod Session
