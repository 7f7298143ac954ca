-- ===== src/Logging.antt =====
-- src/logging: the buffer of recent log lines.
pub mod LogBuffer
mod Tests
