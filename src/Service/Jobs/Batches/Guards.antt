-- ===== src/Service/Jobs/Batches/Guards.antt =====
-- The guards of a batch's items: as many as there are threads in an item, and none behind the join.
use mass_worker_llama_cpp.Prelude.{
  ℕ, zero, suc, ◌+◌, ◌<◌, Bool, true, false, List, [], ◌∷◌, ◌++◌, none, some, Bytes, length,
  get_elem?, get_elem?-set_self, replicate, text_eq_refl, ◌≡◌, ◌≢◌, ◌⊎◌, refl, sym, subst, ap, ◌∙◌,
  arith, inl, inr, min, max,
}
use mass_worker_llama_cpp.Prelude.Sums.{total, total-set}
use mass_worker_llama_cpp.Service.State.{Service}
use mass_worker_llama_cpp.Service.Active.{enter, leave}
use mass_worker_llama_cpp.Service.Active.Guards.{Tracks, enter-Tracks, leave-Tracks}
use mass_worker_llama_cpp.BatchRunner.{
  Result, Phase, testing, claiming, running, failing, stopping, done, Batch, start, step,
}
use mass_worker_llama_cpp.BatchRunner.Outcome.{measure, step-measure}
use mass_worker_llama_cpp.BatchRunner.Threads.{Moved, start-threads, step-Moved}
use mass_worker_llama_cpp.Service.Jobs.Batches.{
  Move, moves, meanwhile, holds_guard, turn, first_live, batch_move, batch_run, join, run_items,
}

-- The other threads of the worker balance their own guards.
abbrev pub AreBalanced : List Move → Type 0
AreBalanced [] = Unit {0}
AreBalanced (moves w saw ∷ ms) = AreBalanced ms
AreBalanced (meanwhile f ∷ ms) =
    ((held : List Bytes) (s : Service) → Tracks held s → Tracks held (f s)) × AreBalanced ms

pub leave_last-Tracks :
    (mid : Bytes) (held : List Bytes) (s : Service)
    → Tracks (mid ∷ held) s
    → Tracks held (leave mid s)
leave_last-Tracks mid held s t =
    subst (λ h. Tracks h (leave mid s)) (rw (text_eq_refl mid))
      (leave-Tracks (mid ∷ held) s mid (rw (text_eq_refl mid) (omega arith)) t)

abbrev bit : Bool → ℕ
bit true = 1
bit false = 0

in_range : {A : Type 0} (xs : List A) (i : ℕ) (a : A) → get_elem? xs i ≡ some a → i < length xs
in_range [] i a h = cc
in_range (x ∷ xs) zero a h = omega arith
in_range (x ∷ xs) (suc i) a h = omega (arith, in_range xs i a h)

-- Every thread has returned, or there is a first one that has not.
live-cases :
    (ps : List (Phase Bytes))
    → (first_live ps ≡ none)
      ⊎ ((i : ℕ) × (q : Phase Bytes) × (first_live ps ≡ some i)
          × (get_elem? ps i ≡ some q)
          × (q ≢ done))
unfolding first_live
live-cases [] = inl refl
live-cases (done ∷ ps) = elim (live-cases ps) [
  | inl e ↦ inl (rw e refl)
  | inr (i, q, e, at, ne) ↦ inr (suc i, q, rw e refl, at, ne)
]
live-cases (testing ∷ ps) = inr (0, testing, refl, refl, λ e. cc)
live-cases (claiming ∷ ps) = inr (0, claiming, refl, refl, λ e. cc)
live-cases (running j ∷ ps) = inr (0, running j, refl, refl, λ e. cc)
live-cases (failing j x ∷ ps) = inr (0, failing j x, refl, refl, λ e. cc)
live-cases (stopping ∷ ps) = inr (0, stopping, refl, refl, λ e. cc)

module _ (mid : Bytes) (held : List Bytes) where
  guards : ℕ → List Bytes
  guards k = replicate k mid ++ held

  turn-Tracks :
      (x y : Bool) (k m : ℕ) (s : Service)
      → m + bit x ≡ k + bit y
      → Tracks (guards k) s
      → Tracks (guards m) (turn mid x y s)
  unfolding turn guards
  turn-Tracks false false k m s e t =
      let h : k ≡ m = omega arith in subst (λ j. Tracks (replicate j mid ++ held) s) h t
  turn-Tracks true true k m s e t =
      let h : k ≡ m = omega arith in subst (λ j. Tracks (replicate j mid ++ held) s) h t
  turn-Tracks false true k m s e t =
      let h : suc k ≡ m = omega arith in
      subst (λ j. Tracks (replicate j mid ++ held) (enter mid s)) h (enter-Tracks _ s mid t)
  turn-Tracks true false k m s e t =
      let h : k ≡ suc m = omega arith in
      leave_last-Tracks mid _ s (subst (λ j. Tracks (replicate j mid ++ held) s) h t)

  module _ (n : ℕ) (opens : ℕ → Bool) (item : ℕ → Bool → Result Bytes Bytes) where
    in_item : Phase Bytes → ℕ
    in_item q = bit (holds_guard opens (some q))

    -- A guard is live for each thread that is in an item with one.
    Tracked : Batch Bytes Bytes × Service → Type 0
    Tracked r = Tracks (guards (total in_item r.0.threads)) r.1

    counted :
        (w : ℕ) (b c : Batch Bytes Bytes)
        → Moved n item w b c
        → total in_item c.threads + bit (holds_guard opens (get_elem? b.threads w))
          ≡ total in_item b.threads + bit (holds_guard opens (get_elem? c.threads w))
    unfolding in_item
    counted w b c (inl e) =
        subst
          (λ ts.
            total in_item ts + bit (holds_guard opens (get_elem? b.threads w))
            ≡ total in_item b.threads + bit (holds_guard opens (get_elem? ts w)))
          (sym e) refl
    counted w b c (inr (q, r, at, e)) =
        subst
          (λ ts.
            total in_item ts + bit (holds_guard opens (get_elem? b.threads w))
            ≡ total in_item b.threads + bit (holds_guard opens (get_elem? ts w)))
          (sym e)
          (rw at (
            rw (get_elem?-set_self b.threads w r (in_range b.threads w q at))
              (total-set in_item b.threads w q r at)))

    all_testing : (m : ℕ) → total in_item (replicate m testing) ≡ 0
    unfolding total in_item holds_guard
    all_testing zero = refl
    all_testing (suc m) = omega (arith, all_testing m)

    later_ne : (i : ℕ) → some (suc i) ≢ none
    later_ne i e = cc

    batch_move-Tracked :
        (m : Move) (r : Batch Bytes Bytes × Service)
        → AreBalanced (m ∷ [])
        → Tracked r
        → Tracked (batch_move mid n opens item m r)
    unfolding batch_move Tracked guards
    batch_move-Tracked (meanwhile f) (b, s) (g, u) t = g _ s t
    batch_move-Tracked (moves w saw) (b, s) g t =
        turn-Tracks _ _ _ _ s (counted w b (step n item b (w, saw)) (step-Moved n item b w saw)) t

    batch_run-Tracked :
        (ms : List Move) (r : Batch Bytes Bytes × Service)
        → AreBalanced ms
        → Tracked r
        → Tracked (batch_run mid n opens item ms r)
    unfolding batch_run
    batch_run-Tracked [] r g t = t
    batch_run-Tracked (moves w saw ∷ ms) r g t =
        batch_run-Tracked ms _ g (batch_move-Tracked (moves w saw) r tt t)
    batch_run-Tracked (meanwhile f ∷ ms) r (g, gs) t =
        batch_run-Tracked ms _ gs (batch_move-Tracked (meanwhile f) r (g, tt) t)

    none_held : (ps : List (Phase Bytes)) → first_live ps ≡ none → total in_item ps ≡ 0
    unfolding first_live total in_item holds_guard
    none_held [] e = refl
    none_held (done ∷ ps) e = elim (live-cases ps) [
      | inl h ↦ omega (arith, none_held ps h)
      | inr (i, q, h, at, ne) ↦ absurd (later_ne i (sym (rw h refl) ∙ e))
    ]
    none_held (testing ∷ ps) e = cc
    none_held (claiming ∷ ps) e = cc
    none_held (running j ∷ ps) e = cc
    none_held (failing j x ∷ ps) e = cc
    none_held (stopping ∷ ps) e = cc

    -- The join ends with all threads returned, so that no item has a guard any more.
    join-Tracked :
        (k : ℕ) (r : Batch Bytes Bytes × Service)
        → measure n r.0 < k
        → Tracked r
        → Tracks held (join mid n opens item k r).1
    unfolding join Tracked guards batch_move
    join-Tracked zero r h t = absurd (omega arith)
    join-Tracked (suc k) r h t = elim (live-cases r.0.threads) [
      | inl e ↦
          rw (e, join)
            (subst (λ j. Tracks (replicate j mid ++ held) r.1) (none_held r.0.threads e) t)
      | inr (i, q, e, at, ne) ↦
          rw (e, join)
            (join-Tracked k (batch_move mid n opens item (moves i false) r)
              (omega (arith, step-measure n item r.0 i false q at ne))
              (batch_move-Tracked (moves i false) r tt t))
    ]

    pub run_items-Tracks :
        (ms : List Move) (max_concurrency : ℕ) (s : Service)
        → AreBalanced ms
        → Tracks held s
        → Tracks held (run_items mid n opens item ms max_concurrency s).1
    unfolding run_items Tracked guards
    run_items-Tracks ms c s g t =
        let r = batch_run mid n opens item ms (start n c, s) in
        join-Tracked (suc (measure n r.0)) r (omega arith) (
          batch_run-Tracked ms (start n c, s) g
            (subst (λ j. Tracks (replicate j mid ++ held) s)
              (sym (
                ap (total in_item) (start-threads Bytes Bytes n c) ∙ all_testing (min (max c 1) n)))
              t))
