-- ===== src/Events.antt =====
-- internal/events: what is reported as an event, and how it reaches the cloud.
pub mod Types
pub mod Buffer
pub mod Movement
pub mod Confirmation
pub mod Detector
