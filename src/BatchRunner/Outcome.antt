-- ===== src/BatchRunner/Outcome.antt =====
-- What a batch comes to once its threads have returned, and that they do return.
use mass_worker_llama_cpp.Prelude.{
  ℕ, zero, suc, ◌+◌, ◌-◌, ◌*◌, ◌≤◌, ◌<◌, Bool, false, List, [], ◌∷◌, Option, none, some, ltb,
  get_elem?, length, ◌≡◌, ◌≢◌, refl, ap, ◌∙◌, inl, inr, arith, Bool-cases, Option-cases,
}
use mass_worker_llama_cpp.Prelude.Sums.{total, total-set}
use mass_worker_llama_cpp.BatchRunner.{
  Result, ok, fail, Phase, testing, claiming, running, failing, stopping, done, Batch, start,
  settle, advance, step, run, collect, Out, items, item_error, result,
}
use mass_worker_llama_cpp.BatchRunner.Invariant.{holds, has_error, Inv}
use mass_worker_llama_cpp.BatchRunner.Steps.{run-start-Inv}

abbrev pub Returned : {T E : Type 0} → Batch T E → Type 0
Returned b = (w : ℕ) (q : Phase _) → get_elem? b.threads w ≡ some q → q ≡ done

no_hands :
    {E : Type 0} (i : ℕ) (ps : List (Phase E))
    → ((w : ℕ) (q : Phase E) → get_elem? ps w ≡ some q → q ≡ done)
    → total (holds i) ps ≡ 0
unfolding total
no_hands i [] h = refl
no_hands i (p ∷ ps) h = rw (h 0 p refl) (omega (arith, no_hands i ps (λ w q at. h (suc w) q at)))

module _ {T : Type 0} where
  -- Full slots are emptied in order.
  collect-full :
      (ss : List (Option T))
      → ((i : ℕ) → i < length ss → (v : T) × (get_elem? ss i ≡ some (some v)))
      → (vs : List T) × (collect ss ≡ some vs)
        × (length vs ≡ length ss)
        × ((i : ℕ) (v : T) → get_elem? ss i ≡ some (some v) → get_elem? vs i ≡ some v)
  unfolding collect
  collect-full [] h = ([], refl, refl, λ i v e. cc)
  collect-full (none ∷ ss) h = let (v, e) = h 0 (omega arith) in cc
  collect-full (some a ∷ ss) h =
      let (vs, e, l, g) = collect-full ss (λ i k. h (suc i) (omega arith)) in
      (a ∷ vs, rw (e, collect), ap suc l, at vs g)
    where
      at :
          (vs : List T)
          → ((i : ℕ) (v : T) → get_elem? ss i ≡ some (some v) → get_elem? vs i ≡ some v)
          → (i : ℕ) (v : T) → get_elem? (some a ∷ ss) i ≡ some (some v)
          → get_elem? (a ∷ vs) i ≡ some v
      at vs g zero v k = ground arith
      at vs g (suc i) v k = g i v k

module _ {T E : Type 0} (n : ℕ) (fn : ℕ → Bool → Result T E) where
  -- The values of all items in the order of the inputs, or an error that an item has of its own,
  -- unaffected by the abort.
  abbrev pub Correct : Out T E → Type 0
  Correct (items none) = ⊥
  Correct (items (some vs)) =
      (length vs ≡ n)
      × ((i : ℕ) → i < n → (v : T) × (get_elem? vs i ≡ some v) × (fn i false ≡ ok v))
  Correct (item_error i e) = (i < n) × (fn i false ≡ fail e)

  all_claimed :
      (b : Batch T E)
      → Inv n fn b
      → Returned b
      → has_error b.first_error ≡ false
      → 0 < n
      → n ≤ b.next
  all_claimed b v r e h =
      let (q, at) = first b.threads (v.staffed h) in
      let p : get_elem? b.threads 0 ≡ some done = at ∙ ap some (r 0 q at) in
      elim (v.fits 0 done p) [ inl k ↦ k | inr k ↦ cc ]
    where
      first : (ps : List (Phase E)) → 0 < length ps → (q : Phase E) × (get_elem? ps 0 ≡ some q)
      first [] h = absurd (omega arith)
      first (p ∷ ps) h = (p, refl)

  slot_full :
      (b : Batch T E)
      → Inv n fn b
      → Returned b
      → has_error b.first_error ≡ false
      → (i : ℕ) → i < n
      → (v : T) × (get_elem? b.slots i ≡ some (some v)) × (fn i false ≡ ok v)
  slot_full b v r e i h = elim (v.settled i h (omega (arith, all_claimed b v r e (omega arith)))) [
    | inl (a, at) ↦ (a, at, elim (v.values i a at) [ inl k ↦ k | inr k ↦ cc ])
    | inr (inl p) ↦ absurd (omega (arith, no_hands i b.threads r))
    | inr (inr k) ↦ cc
  ]

  result-Correct : (b : Batch T E) → Inv n fn b → Returned b → Correct (result b)
  unfolding result
  result-Correct b v r = elim (Option-cases b.first_error) [
    | inr ((i, e), h) ↦ rw (h, result) (v.genuine i e h)
    | inl h ↦
        let clean : has_error b.first_error ≡ false = rw h refl in
        let full = slot_full b v r clean in
        let (vs, e, l, g) =
          collect-full b.slots
            (λ i k. let (a, at, own) = full i (omega (arith, v.sized)) in (a, at)) in
        rw (h, result)
          (rw (e, result) (l ∙ v.sized, λ i k. let (a, at, own) = full i k in (a, g i a at, own)))
  ]

  -- However the threads interleave, once all of them have returned the result is that of running the
  -- items one by one: all values in the order of the inputs if no item fails, and otherwise an error
  -- that its item comes to on its own, never one that only follows from the abort.
  pub run-Correct :
      (max_concurrency : ℕ) (es : List (ℕ × Bool))
      → Returned (run n fn (start n max_concurrency) es)
      → Correct (result (run n fn (start n max_concurrency) es))
  run-Correct c es r = result-Correct _ (run-start-Inv n fn c es) r

-- What is left for a thread to do before it tests for another item.
abbrev pub rest : {E : Type 0} → Phase E → ℕ
rest (running i) = 5
rest (failing i e) = 4
rest stopping = 3
rest testing = 2
rest claiming = 1
rest done = 0

pub measure : {T E : Type 0} → ℕ → Batch T E → ℕ
measure n b = 5 * (n - b.next) + total rest b.threads

module _ {T E : Type 0} (n : ℕ) (fn : ℕ → Bool → Result T E) where
  settle-measure :
      (w i : ℕ) (r : Result T E) (b : Batch T E)
      → get_elem? b.threads w ≡ some (running i)
      → measure n (settle w i r b) < measure n b
  unfolding settle measure
  settle-measure w i (ok a) b at = omega (arith, total-set rest b.threads w (running i) testing at)
  settle-measure w i (fail e) b at =
      omega (arith, total-set rest b.threads w (running i) (failing i e) at)

  advance-measure :
      (w : ℕ) (saw : Bool) (q : Phase E) (b : Batch T E)
      → get_elem? b.threads w ≡ some q
      → q ≢ done
      → measure n (advance n fn w saw (some q) b) < measure n b
  unfolding advance measure
  advance-measure w saw done b at h = absurd (h refl)
  advance-measure w saw testing b at h = elim (Bool-cases b.abort) [
    | inl e ↦ rw e (omega (arith, total-set rest b.threads w testing done at))
    | inr e ↦ rw e (omega (arith, total-set rest b.threads w testing claiming at))
  ]
  advance-measure w saw claiming b at h = elim (Bool-cases (ltb b.next n)) [
    | inl e ↦ rw e (ground (arith, total-set rest b.threads w claiming (running b.next) at))
    | inr e ↦ rw e (omega (arith, total-set rest b.threads w claiming done at))
  ]
  advance-measure w saw (running i) b at h = settle-measure w i _ b at
  advance-measure w saw (failing i e) b at h =
      omega (arith, total-set rest b.threads w (failing i e) stopping at)
  advance-measure w saw stopping b at h =
      omega (arith, total-set rest b.threads w stopping testing at)

  -- Every step of a thread that has not returned lowers the measure, which is five for each item
  -- that is not claimed and up to five for each thread.
  pub step-measure :
      (b : Batch T E) (w : ℕ) (saw : Bool) (q : Phase E)
      → get_elem? b.threads w ≡ some q
      → q ≢ done
      → measure n (step n fn b (w, saw)) < measure n b
  unfolding step
  step-measure b w saw q at h = rw at (advance-measure w saw q b at h)
