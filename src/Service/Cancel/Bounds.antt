-- ===== src/Service/Cancel/Bounds.antt =====
-- The map of pending cancellations stays bounded.
use mass_worker_llama_cpp.Prelude.{
  ℕ, zero, suc, ◌≤◌, ◌<◌, Bool, true, false, [], ◌∷◌, Bytes, text_eq_refl, ltb, length,
  if◌then◌else◌, ◌≡◌, arith,
}
use mass_worker_llama_cpp.Prelude.Map.{Dict, contains, erase}
use mass_worker_llama_cpp.Service.Cancel.{
  max_pending, oldest, evict_oldest, shrink, request_job_cancel,
}

length-erase-le : (k : Bytes) (m : Dict ℕ) → length (erase k m) ≤ length m
unfolding erase
length-erase-le k [] = omega arith
length-erase-le k ((j, w) ∷ m) = ground (arith, length-erase-le k m)

-- Erasing a key that is there makes the map smaller.
length-erase-lt : (k : Bytes) (m : Dict ℕ) → contains k m ≡ true → length (erase k m) < length m
unfolding erase contains
length-erase-lt k [] h = cc
length-erase-lt k ((j, w) ∷ m) h = ground (arith, length-erase-lt k m, length-erase-le k m)

contains-first :
    (k : Bytes) (a b : Bytes × ℕ) (m : Dict ℕ)
    → contains k (a ∷ m) ≡ true
    → contains k (a ∷ b ∷ m) ≡ true
unfolding contains
contains-first k a b m h = ground arith

contains-second :
    (k : Bytes) (a b : Bytes × ℕ) (m : Dict ℕ)
    → contains k (b ∷ m) ≡ true
    → contains k (a ∷ b ∷ m) ≡ true
unfolding contains
contains-second k a b m h = ground arith

contains_self : (e : Bytes × ℕ) → contains e.0 (e ∷ []) ≡ true
unfolding contains
contains_self e = rw (text_eq_refl e.0)

contains-choice :
    (e b : Bytes × ℕ) (m : Dict ℕ) (c : Bool)
    → contains (oldest b m).0 (b ∷ m) ≡ true
    → contains (oldest e m).0 (e ∷ m) ≡ true
    → contains (oldest (if c then b else e) m).0 (e ∷ b ∷ m) ≡ true
contains-choice e b m true hb he = contains-second _ e b m hb
contains-choice e b m false hb he = contains-first _ e b m he

contains-oldest : (e : Bytes × ℕ) (m : Dict ℕ) → contains (oldest e m).0 (e ∷ m) ≡ true
unfolding oldest
contains-oldest e [] = contains_self e
contains-oldest e (b ∷ m) =
    contains-choice e b m (ltb b.1 e.1) (contains-oldest b m) (contains-oldest e m)

length-evict_oldest : (m : Dict ℕ) → 0 < length m → length (evict_oldest m) < length m
unfolding evict_oldest
length-evict_oldest [] h = elim h [ ]
length-evict_oldest (e ∷ m) h = length-erase-lt (oldest e m).0 (e ∷ m) (contains-oldest e m)

length-shrink : (fuel : ℕ) (m : Dict ℕ) → length m ≤ fuel → length (shrink fuel m) ≤ max_pending
unfolding shrink
length-shrink zero m h = omega arith
length-shrink (suc fuel) m h =
    ground (arith, length-evict_oldest m, length-shrink fuel (evict_oldest m))

-- Whatever the map held and however many cancellations match no job, at most `kMaxPendingCancels`
-- entries are left after a request.
pub length-request_job_cancel :
    (id : Bytes) (now : ℕ) (m : Dict ℕ) → length (request_job_cancel id now m) ≤ max_pending
unfolding request_job_cancel
length-request_job_cancel id now m = length-shrink _ _ (omega arith)
