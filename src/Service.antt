-- ===== src/Service.antt =====
-- include/mass_worker/worker_service.hpp and src/worker_service.cpp: the job dispatcher.
pub mod State
pub mod Active
pub mod Errors
pub mod Messages
pub mod Load
pub mod Jobs
pub mod Bench
pub mod Execute
pub mod Placement
pub mod Cancel
