-- ===== src/Notifications.antt =====
-- internal/notifications: which configured rules a change of the scooter's state triggers.
pub mod Rules
