-- ===== src/Config.antt =====
-- config/: the host's settings.
pub mod Edge
mod Tests
