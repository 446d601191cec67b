-- ===== src/Runner.antt =====
-- include/mass_worker/runner.hpp and src/runner.cpp.
pub mod Backoff
pub mod Reconnect
pub mod Session
pub mod Enroll
