-- ===== src/Runner/Session/Gate.antt =====
-- A job never starts before the loads of its model that were read are answered.
use mass_worker_llama_cpp.Prelude.{List}
use mass_worker_llama_cpp.Runner.Session.{Session}
