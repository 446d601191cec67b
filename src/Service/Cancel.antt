-- ===== src/Service/Cancel.antt =====
-- Pending cancellations of src/worker_service.cpp: `cancel_requested_` and the three members that
-- use it. Times are ticks of the steady clock; the list is the map in its iteration order, with a
-- new entry last.
pub mod Bounds
pub mod Requests
mod Tests
use mass_worker_llama_cpp.Prelude.{
  ℕ, zero, suc, ◌*◌, ◌-◌, Bool, true, false, List, [], ◌∷◌, ◌++◌, Bytes, text_eq, ltb, length,
  if◌then◌else◌,
}
use mass_worker_llama_cpp.Prelude.Map.{Dict, contains, assign, erase, try_emplace}

-- kCancelRetention, ten minutes in nanoseconds, and kMaxPendingCancels.
abbrev pub retention : ℕ
retention = 600 * 1000000000

abbrev pub max_pending : ℕ
max_pending = 4096

-- `std::erase_if` of the expired entries; the clock never runs backwards, and `-` on ℕ keeps an
-- entry from the future, as the signed difference does.
pub sweep : ℕ → Dict ℕ → Dict ℕ
sweep now [] = []
sweep now ((id, at) ∷ m) =
    let rest = sweep now m in if ltb retention (now - at) then rest else (id, at) ∷ rest

-- The search for the oldest entry: the first one with the least time.
oldest : Bytes × ℕ → Dict ℕ → Bytes × ℕ
oldest best [] = best
oldest best (e ∷ m) = oldest (if ltb e.1 best.1 then e else best) m

evict_oldest : Dict ℕ → Dict ℕ
unfolding oldest
evict_oldest [] = []
evict_oldest (e ∷ m) = erase (oldest e m).0 (e ∷ m)

-- The `while` loop: each round removes an entry, so the map's size is enough fuel.
shrink : ℕ → Dict ℕ → Dict ℕ
shrink zero m = m
shrink (suc fuel) m =
    let rest = shrink fuel (evict_oldest m) in if ltb max_pending (length m) then rest else m

pub request_job_cancel : Bytes → ℕ → Dict ℕ → Dict ℕ
request_job_cancel id now m =
    let kept = (try_emplace id now (sweep now m)).0 in shrink (length kept) kept

pub is_job_cancel_requested : Bytes → Dict ℕ → Bool
is_job_cancel_requested id m = contains id m

pub clear_job_cancel : Bytes → Dict ℕ → Dict ℕ
clear_job_cancel id m = erase id m
