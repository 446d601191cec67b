-- ===== src/Runner/Backoff.antt =====
-- The reconnect schedule of src/runner.cpp: how long to wait after a session, and how the streak of
-- failed sessions grows. Durations are milliseconds, and never negative.
use mass_worker_llama_cpp.Prelude.{
  ℕ, ◌+◌, ◌-◌, ◌≤◌, Bool, ◌&&◌, ◌||◌, inl, inr, arith, leb, min, if◌then◌else◌, Bool-cases,
}
use mass_worker_llama_cpp.Prelude.Int.{ℤ, pos, ◌≤ℤ◌}
use mass_worker_llama_cpp.Prelude.Double.{Double, Laws, Le, fmin, fclamp}

-- kWorkedSessionMinAge.
abbrev pub worked_session_min_age : ℕ
worked_session_min_age = 30000

-- `reached_working_state`, `lifetime` and `saw_inbound_message` say whether the session worked.
pub worked : Bool → ℕ → Bool → Bool
worked reached lifetime saw = reached && (leb worked_session_min_age lifetime || saw)

pub next_failure_streak : ℕ → Bool → ℕ → Bool → ℕ
unfolding worked
next_failure_streak streak reached lifetime saw =
    if worked reached lifetime saw then 1 else streak + 1

-- `std::clamp(consecutive_failures - 1, 0, 62)`: `-` on ℕ already stops at 0.
pub doublings : ℕ → ℕ
doublings failures = min (failures - 1) 62

module _ (d : Double) where
  open d use {F, of_ℤ, mul, add, exp2, trunc, quarter, minus_quarter}

  -- base * 2^(failures - 1), at most `cap`.
  pub raw_delay : ℕ → ℕ → ℕ → F
  raw_delay base cap failures =
      fmin d (mul (of_ℤ (pos base)) (exp2 (doublings failures))) (of_ℤ (pos cap))

  pub reconnect_delay : ℕ → ℕ → ℕ → F → ℤ
  unfolding raw_delay
  reconnect_delay base cap failures jitter = trunc (
      mul (raw_delay base cap failures)
        (add (of_ℤ (pos 1)) (fclamp d jitter minus_quarter quarter)))

module _ (d : Double) (l : Laws d) where
  open d use {F, of_ℤ, mul, add, exp2, trunc, quarter, minus_quarter}

  fmin-le-right : (a b : F) → Le d (fmin d a b) b
  unfolding fmin
  fmin-le-right a b = elim (Bool-cases (d.lt b a)) [ inl e ↦ rw e (l.irrefl b) | inr e ↦ rw e e ]

  fmin_mono : (a b c : F) → Le d a b → Le d (fmin d a c) (fmin d b c)
  unfolding fmin
  fmin_mono a b c h = elim (Bool-cases (d.lt c a)) [
    | inl e ↦ elim (Bool-cases (d.lt c b)) [
      | inl f ↦ rw (e, f) (l.irrefl c)
      | inr f ↦ rw (e, f) (l.trans c a b (l.asym c a e) h)
    ]
    | inr e ↦ elim (Bool-cases (d.lt c b)) [ inl f ↦ rw (e, f) e | inr f ↦ rw (e, f) h ]
  ]

  fclamp-bounds :
      (v lo hi : F) → Le d lo hi → Le d lo (fclamp d v lo hi) × Le d (fclamp d v lo hi) hi
  unfolding fclamp
  fclamp-bounds v lo hi h = elim (Bool-cases (d.lt v lo)) [
    | inl e ↦ rw e (l.irrefl lo, h)
    | inr e ↦ elim (Bool-cases (d.lt hi v)) [
      | inl f ↦ rw (e, f) (h, l.irrefl hi)
      | inr f ↦ rw (e, f) (e, f)
    ]
  ]

  -- The factor `1 + jitter` lies between 3/4 and 5/4, so it is not negative.
  abbrev factor : F → F
  factor j = add (of_ℤ (pos 1)) (fclamp d j minus_quarter quarter)

  factor_nonneg : (j : F) → Le d (of_ℤ (pos 0)) (factor j)
  factor_nonneg j =
      l.trans _ _ _ l.shrink_nonneg
        (l.add_mono _ _ _ (fclamp-bounds j minus_quarter quarter l.quarters).0)

  factor_le : (j : F) → Le d (factor j) (add (of_ℤ (pos 1)) quarter)
  factor_le j = l.add_mono _ _ _ (fclamp-bounds j minus_quarter quarter l.quarters).1

  raw_delay_mono :
      (base cap m n : ℕ) → m ≤ n → Le d (raw_delay d base cap m) (raw_delay d base cap n)
  unfolding raw_delay doublings
  raw_delay_mono base cap m n h = fmin_mono _ _ _ (
      l.mul_mono _ _ _ (l.of_ℤ_mono (pos 0) (pos base) (omega arith))
        (l.exp2_mono _ _ (omega arith)))

  -- With the arithmetic of finite doubles, more failures in a row never shorten the wait for the
  -- same jitter.
  reconnect_delay_mono :
      (base cap m n : ℕ) (jitter : F)
      → m ≤ n
      → reconnect_delay d base cap m jitter ≤ℤ reconnect_delay d base cap n jitter
  unfolding reconnect_delay
  reconnect_delay_mono base cap m n jitter h =
      l.trunc_mono _ _
        (l.mul_mono_left _ _ _ (factor_nonneg jitter) (raw_delay_mono base cap m n h))

  -- With the arithmetic of finite doubles, the wait is at most five quarters of the cap, however
  -- many sessions failed.
  pub reconnect_delay-le :
      (base cap failures : ℕ) (jitter : F)
      → reconnect_delay d base cap failures jitter
        ≤ℤ trunc (mul (of_ℤ (pos cap)) (add (of_ℤ (pos 1)) quarter))
  unfolding reconnect_delay raw_delay
  reconnect_delay-le base cap failures jitter = l.trunc_mono _ _ (
      l.trans _ _ _ (l.mul_mono_left _ _ _ (factor_nonneg jitter) (fmin-le-right _ _))
        (l.mul_mono _ _ _ (l.of_ℤ_mono (pos 0) (pos cap) (omega arith)) (factor_le jitter)))
