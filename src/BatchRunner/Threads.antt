-- ===== src/BatchRunner/Threads.antt =====
-- What a step does to the threads of a batch: it moves one of them at most.
use mass_worker_llama_cpp.Prelude.{
  ℕ, Bool, Option, none, some, ltb, min, max, replicate, get_elem?, set, ◌≡◌, ◌⊎◌, refl, inl, inr,
  Bool-cases,
}
use mass_worker_llama_cpp.BatchRunner.{
  Result, ok, fail, Phase, testing, claiming, running, failing, stopping, done, Batch, start,
  settle, advance, step,
}

pub start-threads :
    (T E : Type 0) (n max_concurrency : ℕ)
    → (start {T = T} {E = E} n max_concurrency).threads
      ≡ replicate (min (max max_concurrency 1) n) testing
unfolding start
start-threads T E n c = refl

module _ {T E : Type 0} (n : ℕ) (fn : ℕ → Bool → Result T E) where
  -- Nothing moved, or the thread went from a phase to another.
  abbrev pub Moved : ℕ → Batch T E → Batch T E → Type 0
  Moved w b c =
      (c.threads ≡ b.threads)
      ⊎ ((q : Phase E) × (r : Phase E) × (get_elem? b.threads w ≡ some q)
          × (c.threads ≡ set b.threads w r))

  settle-Moved :
      (w i : ℕ) (r : Result T E) (b : Batch T E)
      → get_elem? b.threads w ≡ some (running i)
      → Moved w b (settle w i r b)
  unfolding settle
  settle-Moved w i (ok v) b at = inr (running i, testing, at, refl)
  settle-Moved w i (fail e) b at = inr (running i, failing i e, at, refl)

  advance-Moved :
      (w : ℕ) (saw : Bool) (o : Option (Phase E)) (b : Batch T E)
      → get_elem? b.threads w ≡ o
      → Moved w b (advance n fn w saw o b)
  unfolding advance
  advance-Moved w saw none b at = inl refl
  advance-Moved w saw (some done) b at = inl refl
  advance-Moved w saw (some testing) b at = inr (testing, _, at, refl)
  advance-Moved w saw (some claiming) b at = elim (Bool-cases (ltb b.next n)) [
    | inl e ↦ rw e (inr (claiming, running b.next, at, refl))
    | inr e ↦ rw e (inr (claiming, done, at, refl))
  ]
  advance-Moved w saw (some (running i)) b at = settle-Moved w i _ b at
  advance-Moved w saw (some (failing i e)) b at = inr (failing i e, stopping, at, refl)
  advance-Moved w saw (some stopping) b at = inr (stopping, testing, at, refl)

  pub step-Moved : (b : Batch T E) (w : ℕ) (saw : Bool) → Moved w b (step n fn b (w, saw))
  unfolding step
  step-Moved b w saw = advance-Moved w saw (get_elem? b.threads w) b refl
