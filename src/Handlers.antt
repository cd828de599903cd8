-- ===== src/Handlers.antt =====
-- internal/handlers: the commands that keep a state of their own.
pub mod SelfUpdate
