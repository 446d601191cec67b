-- ===== src/Settings.antt =====
-- The files that the worker keeps under its data directory: src/fsutil.cpp, src/config.cpp and
-- src/credentials.cpp.
pub mod Files
pub mod Config
pub mod Credentials
pub mod Tests
