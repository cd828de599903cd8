-- ===== src/Client.antt =====
-- internal/client: what the MQTT client keeps and sends.
pub mod TelemetryBuffer
pub mod TelemetryDelta
pub mod PublishFailures
