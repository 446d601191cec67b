-- ===== src/BatchRunner/Steps.antt =====
-- Every step of a batch keeps the invariant.
use mass_worker_llama_cpp.Prelude.{
  ℕ, ◌+◌, ◌≤◌, ◌<◌, Bool, true, false, ◌&&◌, List, [], ◌∷◌, ◌++◌, Option, none, some, ltb, ◌==◌,
  get_elem?, set, length-set, get_elem?-set_self, get_elem?-set_ne, if◌then◌else◌, ◌≡◌, refl, subst,
  ◌⊎◌, inl, inr, ◌∙◌, ==_iff, arith, Bool-cases,
}
use mass_worker_llama_cpp.Prelude.Sums.{total-set, get_elem?-set_cases}
use mass_worker_llama_cpp.BatchRunner.{
  Result, ok, fail, Phase, testing, claiming, running, failing, stopping, done, Batch, start,
  keep_first, settle, advance, step, run,
}
use mass_worker_llama_cpp.BatchRunner.Invariant.{
  holds, has_error, count-append, Fits, Inv, Fits-set, in_hand, start-Inv,
}

module _ {T E : Type 0} (n : ℕ) (fn : ℕ → Bool → Result T E) where
  testing-Inv :
      (b : Batch T E) (w : ℕ)
      → get_elem? b.threads w ≡ some testing
      → Inv n fn b
      → Inv n fn (record b { threads = set b.threads w (if b.abort then done else claiming) })
  testing-Inv b w at v = record {
    sized = v.sized;
    staffed = λ h.
        omega (arith, length-set b.threads w (if b.abort then done else claiming), v.staffed h);
    aborts = v.aborts;
    genuine = v.genuine;
    fits = Fits-set n fn b w b.next (has_error b.first_error) _ v (omega arith) (λ k. k) fit;
    settled = λ i h l. elim (v.settled i h l) [
      | inl x ↦ inl x
      | inr (inl p) ↦ inr (inl (in_hand n fn b w i testing _ at (omega arith) p))
      | inr (inr e) ↦ inr (inr e)
    ];
    values = v.values;
    once = v.once;
  }
    where
      fit : Fits n fn b.next (has_error b.first_error) (if b.abort then done else claiming)
      fit = elim (Bool-cases b.abort) [ inl e ↦ rw e (inr (v.aborts e)) | inr e ↦ rw e tt ]

  claiming-Inv :
      (b : Batch T E) (w : ℕ)
      → get_elem? b.threads w ≡ some claiming
      → b.next < n
      → Inv n fn b
      → Inv n fn (record b {
        next = b.next + 1;
        claimed = b.claimed ++ (b.next ∷ []);
        threads = set b.threads w (running b.next);
      })
  claiming-Inv b w at lt v = record {
    sized = v.sized;
    staffed = λ h. omega (arith, length-set b.threads w (running b.next), v.staffed h);
    aborts = v.aborts;
    genuine = v.genuine;
    fits = Fits-set n fn b w (b.next + 1) (has_error b.first_error) _ v (omega arith) (λ k. k) lt;
    settled = λ i h l. elim (Bool-cases (b.next == i)) [
      | inl e ↦
          inr (inl (ground (arith, total-set (holds i) b.threads w claiming (running b.next) at)))
      | inr e ↦ elim (v.settled i h (ground arith)) [
        | inl x ↦ inl x
        | inr (inl p) ↦ inr (inl (in_hand n fn b w i claiming _ at (omega arith) p))
        | inr (inr k) ↦ inr (inr k)
      ]
    ];
    values = v.values;
    once = λ i. ground (arith, count-append i b.claimed (b.next ∷ []), v.once i);
  }

  claiming_end-Inv :
      (b : Batch T E) (w : ℕ)
      → get_elem? b.threads w ≡ some claiming
      → n ≤ b.next
      → Inv n fn b
      → Inv n fn (record b { next = b.next + 1; threads = set b.threads w done })
  claiming_end-Inv b w at ge v = record {
    sized = v.sized;
    staffed = λ h. omega (arith, length-set b.threads w done, v.staffed h);
    aborts = v.aborts;
    genuine = v.genuine;
    fits =
        Fits-set n fn b w (b.next + 1) (has_error b.first_error) done v (omega arith) (λ k. k)
          (inl (omega arith));
    settled = λ i h l. elim (v.settled i h (omega arith)) [
      | inl x ↦ inl x
      | inr (inl p) ↦ inr (inl (in_hand n fn b w i claiming done at (omega arith) p))
      | inr (inr k) ↦ inr (inr k)
    ];
    values = v.values;
    once = λ i. ground (arith, v.once i);
  }

  ok-Inv :
      (b : Batch T E) (w i : ℕ) (saw : Bool) (a : T)
      → get_elem? b.threads w ≡ some (running i)
      → fn i (saw && b.abort) ≡ ok a
      → Inv n fn b
      → Inv n fn (record b { slots = set b.slots i (some a); threads = set b.threads w testing })
  ok-Inv b w i saw a at e v = record {
    sized = length-set b.slots i (some a) ∙ v.sized;
    staffed = λ h. omega (arith, length-set b.threads w testing, v.staffed h);
    aborts = v.aborts;
    genuine = v.genuine;
    fits = Fits-set n fn b w b.next (has_error b.first_error) testing v (omega arith) (λ k. k) tt;
    settled = λ j h l. elim (Bool-cases (i == j)) [
      | inl same ↦
          let p : i ≡ j = (==_iff i j).0 same in
          inl (
            a,
            subst (λ k. get_elem? (set b.slots i (some a)) k ≡ some (some a)) p
                (get_elem?-set_self b.slots i (some a)
                  (omega (arith, v.sized, v.fits w (running i) at))),
          )
      | inr other ↦ elim (v.settled j h l) [
        | inl (u, q) ↦ inl (u, get_elem?-set_ne b.slots i j (some a) (λ p. ground arith) ∙ q)
        | inr (inl p) ↦
            inr (inl (ground (arith, total-set (holds j) b.threads w (running i) testing at)))
        | inr (inr k) ↦ inr (inr k)
      ]
    ];
    values = λ j u q. elim (get_elem?-set_cases b.slots i j (some a) (some u) q) [
      | inr old ↦ v.values j u old
      | inl (p, k) ↦ value j u p k
    ];
    once = v.once;
  }
    where
      value :
          (j : ℕ) (u : T)
          → i ≡ j
          → some u ≡ some a
          → (fn j false ≡ ok u) ⊎ (has_error b.first_error ≡ true)
      value j u p k = elim (Bool-cases (saw && b.abort)) [
        | inl f ↦ inr (v.aborts (ground arith))
        | inr f ↦ inl cc
      ]

  fail-Inv :
      (b : Batch T E) (w i : ℕ) (saw : Bool) (e : E)
      → get_elem? b.threads w ≡ some (running i)
      → fn i (saw && b.abort) ≡ fail e
      → Inv n fn b
      → Inv n fn (record b { threads = set b.threads w (failing i e) })
  fail-Inv b w i saw e at q v = record {
    sized = v.sized;
    staffed = λ h. omega (arith, length-set b.threads w (failing i e), v.staffed h);
    aborts = v.aborts;
    genuine = v.genuine;
    fits =
        Fits-set n fn b w b.next (has_error b.first_error) (failing i e) v (omega arith) (λ k. k)
          (v.fits w (running i) at, cause);
    settled = λ j h l. elim (v.settled j h l) [
      | inl x ↦ inl x
      | inr (inl p) ↦ inr (inl (in_hand n fn b w j (running i) (failing i e) at (omega arith) p))
      | inr (inr k) ↦ inr (inr k)
    ];
    values = v.values;
    once = v.once;
  }
    where
      cause : (fn i false ≡ fail e) ⊎ (has_error b.first_error ≡ true)
      cause = elim (Bool-cases (saw && b.abort)) [
        | inl f ↦ inr (v.aborts (ground arith))
        | inr f ↦ inl cc
      ]

  has_error-keep_first : (o : Option (ℕ × E)) (i : ℕ) (e : E) → has_error (keep_first o i e) ≡ true
  unfolding keep_first
  has_error-keep_first none i e = refl
  has_error-keep_first (some p) i e = refl

  -- The error that is recorded first is the item's own, not one that follows from the abort.
  keep_first-genuine :
      (o : Option (ℕ × E)) (i : ℕ) (e : E)
      → ((j : ℕ) (x : E) → o ≡ some (j, x) → (j < n) × (fn j false ≡ fail x))
      → (i < n) × ((fn i false ≡ fail e) ⊎ (has_error o ≡ true))
      → (j : ℕ) (x : E) → keep_first o i e ≡ some (j, x)
      → (j < n) × (fn j false ≡ fail x)
  unfolding keep_first
  keep_first-genuine none i e g (l, inl p) j x h = (ground arith, cc)
  keep_first-genuine none i e g (l, inr p) j x h = cc
  keep_first-genuine (some q) i e g c j x h = g j x h

  failing-Inv :
      (b : Batch T E) (w i : ℕ) (e : E)
      → get_elem? b.threads w ≡ some (failing i e)
      → Inv n fn b
      → Inv n fn (record b {
        first_error = keep_first b.first_error i e;
        threads = set b.threads w stopping;
      })
  failing-Inv b w i e at v =
      let err : has_error (keep_first b.first_error i e) ≡ true =
        has_error-keep_first b.first_error i e in
      record {
        sized = v.sized;
        staffed = λ h. omega (arith, length-set b.threads w stopping, v.staffed h);
        aborts = λ h. err;
        genuine = keep_first-genuine b.first_error i e v.genuine (v.fits w (failing i e) at);
        fits = Fits-set n fn b w b.next _ stopping v (omega arith) (λ k. err) err;
        settled = λ j h l. inr (inr err);
        values = λ j u q. inr err;
        once = v.once;
      }

  stopping-Inv :
      (b : Batch T E) (w : ℕ)
      → get_elem? b.threads w ≡ some stopping
      → Inv n fn b
      → Inv n fn (record b { abort = true; threads = set b.threads w testing })
  stopping-Inv b w at v =
      let err = v.fits w stopping at in
      record {
        sized = v.sized;
        staffed = λ h. omega (arith, length-set b.threads w testing, v.staffed h);
        aborts = λ h. err;
        genuine = v.genuine;
        fits = Fits-set n fn b w b.next _ testing v (omega arith) (λ k. k) tt;
        settled = λ j h l. inr (inr err);
        values = λ j u q. inr err;
        once = v.once;
      }

  settle-Inv :
      (b : Batch T E) (w i : ℕ) (saw : Bool) (r : Result T E)
      → get_elem? b.threads w ≡ some (running i)
      → fn i (saw && b.abort) ≡ r
      → Inv n fn b
      → Inv n fn (settle w i r b)
  unfolding settle
  settle-Inv b w i saw (ok a) at e v = ok-Inv b w i saw a at e v
  settle-Inv b w i saw (fail x) at e v = fail-Inv b w i saw x at e v

  advance-Inv :
      (b : Batch T E) (w : ℕ) (saw : Bool) (o : Option (Phase E))
      → get_elem? b.threads w ≡ o
      → Inv n fn b
      → Inv n fn (advance n fn w saw o b)
  unfolding advance
  advance-Inv b w saw none at v = v
  advance-Inv b w saw (some done) at v = v
  advance-Inv b w saw (some testing) at v = testing-Inv b w at v
  advance-Inv b w saw (some claiming) at v = elim (Bool-cases (ltb b.next n)) [
    | inl e ↦ rw e (claiming-Inv b w at (ground arith) v)
    | inr e ↦ rw e (claiming_end-Inv b w at (ground arith) v)
  ]
  advance-Inv b w saw (some (running i)) at v = settle-Inv b w i saw _ at refl v
  advance-Inv b w saw (some (failing i e)) at v = failing-Inv b w i e at v
  advance-Inv b w saw (some stopping) at v = stopping-Inv b w at v

  pub run-Inv : (b : Batch T E) (es : List (ℕ × Bool)) → Inv n fn b → Inv n fn (run n fn b es)
  unfolding run step
  run-Inv b [] v = v
  run-Inv b ((w, saw) ∷ es) v = run-Inv (step n fn b (w, saw)) es (advance-Inv b w saw _ refl v)

  -- After any schedule: each item that has been handed out is settled, in the hands of a thread or
  -- behind an error; no item is handed out twice; the recorded error is one that its item comes to
  -- without the abort; an abort has an error behind it; and without an error every stored value is
  -- that of its item.
  pub run-start-Inv :
      (max_concurrency : ℕ) (es : List (ℕ × Bool))
      → Inv n fn (run n fn (start n max_concurrency) es)
  run-start-Inv c es = run-Inv (start n c) es (start-Inv n fn c)
