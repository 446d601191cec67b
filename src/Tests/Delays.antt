-- ===== src/Tests/Delays.antt =====
-- The theorems on the reconnect schedule with whole numbers for doubles.
use mass_worker_llama_cpp.Prelude.Int.{pos, ◌≤ℤ◌}
use mass_worker_llama_cpp.Tests.{whole, whole-Laws}
use mass_worker_llama_cpp.Runner.Backoff.{reconnect_delay, reconnect_delay-le}

reconnect_delay-le_example : reconnect_delay whole 1000 60000 9 0 ≤ℤ pos 60000
reconnect_delay-le_example = reconnect_delay-le whole whole-Laws 1000 60000 9 0
