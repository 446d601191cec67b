-- ===== src/Service/Cancel/Tests.antt =====
-- The theorems on pending cancellations at a concrete map.
use mass_worker_llama_cpp.Prelude.{ℕ, ◌≤◌, [], ◌∷◌, text, length}
use mass_worker_llama_cpp.Prelude.Map.{Dict}
use mass_worker_llama_cpp.Service.Cancel.{max_pending, request_job_cancel}
use mass_worker_llama_cpp.Service.Cancel.Bounds.{length-request_job_cancel}

-- One entry that has expired at the time `late`, and one that has not.
abbrev pending : Dict ℕ
pending = (text "old", 0) ∷ (text "new", 600000000000) ∷ []

abbrev late : ℕ
late = 600000000001

length-request_job_cancel_example :
    length (request_job_cancel (text "j") late pending) ≤ max_pending
length-request_job_cancel_example = length-request_job_cancel (text "j") late pending
