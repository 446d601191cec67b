-- ===== src/Service/Cancel/Requests.antt =====
-- What a request, a poll and a completion see of one another.
use mass_worker_llama_cpp.Prelude.{
  ℕ, zero, suc, ◌+◌, ◌≤◌, ◌<◌, false, ◌||◌, [], ◌∷◌, Bytes, text_eq, text_eq_iff, length,
  if◌then◌else◌, ◌≡◌, inl, inr, refl, arith, Bool-cases, some,
}
use mass_worker_llama_cpp.Prelude.Map.{
  Dict, contains, assign, try_emplace, lookup, contains-erase, contains-assign, contains-lookup,
}
use mass_worker_llama_cpp.Service.Cancel.{
  max_pending, sweep, shrink, request_job_cancel, is_job_cancel_requested, clear_job_cancel,
}

-- Below the size cap no entry is evicted.
shrink-small : (fuel : ℕ) (m : Dict ℕ) → length m ≤ max_pending → shrink fuel m ≡ m
unfolding shrink
shrink-small zero m h = refl
shrink-small (suc fuel) m h = ground arith

length-sweep-le : (now : ℕ) (m : Dict ℕ) → length (sweep now m) ≤ length m
unfolding sweep
length-sweep-le now [] = omega arith
length-sweep-le now ((j, t) ∷ m) = ground (arith, length-sweep-le now m)

length-assign-le : (k : Bytes) (v : ℕ) (m : Dict ℕ) → length (assign k v m) ≤ length m + 1
unfolding assign
length-assign-le k v [] = omega arith
length-assign-le k v ((j, t) ∷ m) = ground (arith, length-assign-le k v m)

length-try_emplace-le :
    (k : Bytes) (v : ℕ) (m : Dict ℕ) → length (try_emplace k v m).0 ≤ length m + 1
unfolding try_emplace
length-try_emplace-le k v m = ground (arith, length-assign-le k v m)

-- With room in the map a request is the sweep and the insertion.
request-eq :
    (id : Bytes) (now : ℕ) (m : Dict ℕ)
    → length m < max_pending
    → request_job_cancel id now m ≡ (try_emplace id now (sweep now m)).0
unfolding request_job_cancel
request-eq id now m h =
    shrink-small _ _
      (omega (arith, length-try_emplace-le id now (sweep now m), length-sweep-le now m))

contains-try_emplace :
    (k j : Bytes) (v : ℕ) (m : Dict ℕ)
    → contains j (try_emplace k v m).0 ≡ (text_eq k j || contains j m)
unfolding try_emplace
contains-try_emplace k j v m = elim (Bool-cases (contains k m)) [
  | inl e ↦ rw e (elim (Bool-cases (text_eq k j)) [
    | inl f ↦ let p : k ≡ j = (text_eq_iff k j).0 f in rw (f) (rw (← p) e)
    | inr f ↦ rw f
  ])
  | inr e ↦ rw e (contains-assign k j v m)
]

-- While fewer than `kMaxPendingCancels` cancellations are pending, a job is seen as cancelled after
-- a request exactly if the request names it or an earlier request for it has not expired.
pub requested-request_job_cancel :
    (id job : Bytes) (now : ℕ) (m : Dict ℕ)
    → length m < max_pending
    → is_job_cancel_requested job (request_job_cancel id now m)
      ≡ (text_eq id job || is_job_cancel_requested job (sweep now m))
unfolding is_job_cancel_requested
requested-request_job_cancel id job now m h =
    rw (request-eq id now m h) (contains-try_emplace id job now (sweep now m))

-- A job that completes clears its own mark and no other.
pub requested-clear_job_cancel :
    (id job : Bytes) (m : Dict ℕ)
    → is_job_cancel_requested job (clear_job_cancel id m)
      ≡ (if text_eq id job then false else is_job_cancel_requested job m)
unfolding is_job_cancel_requested clear_job_cancel
requested-clear_job_cancel id job m = contains-erase id job m

lookup-try_emplace_present :
    (k j : Bytes) (v t : ℕ) (m : Dict ℕ)
    → lookup k m ≡ some t
    → lookup j (try_emplace k v m).0 ≡ lookup j m
unfolding try_emplace
lookup-try_emplace_present k j v t m h = rw (contains-lookup k m, h)

-- Sending the same cancellation again keeps the time of the first, unless that one has expired.
pub lookup-request_job_cancel_again :
    (id : Bytes) (now at : ℕ) (m : Dict ℕ)
    → length m < max_pending
    → lookup id (sweep now m) ≡ some at
    → lookup id (request_job_cancel id now m) ≡ some at
lookup-request_job_cancel_again id now at m h e =
    rw (request-eq id now m h, lookup-try_emplace_present id id now at (sweep now m) e) e
