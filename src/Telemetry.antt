-- ===== src/Telemetry.antt =====
-- internal/telemetry: which changed fields of the scooter's state are reported, and when.
pub mod Priority
pub mod Monitor
