-- ===== src/BatchRunner/Invariant.antt =====
-- What holds of a batch after any schedule.
use mass_worker_llama_cpp.Prelude.{
  ℕ, zero, suc, ◌+◌, ◌≤◌, ◌<◌, Bool, true, false, ◌&&◌, List, [], ◌∷◌, ◌++◌, Option, none, some,
  ltb, ◌==◌, min, max, replicate, get_elem?, set, length, length-replicate, if◌then◌else◌, ◌≡◌, sym,
  subst, ◌⊎◌, inl, inr, arith,
}
use mass_worker_llama_cpp.Prelude.Sums.{total, total-set, get_elem?-set_cases}
use mass_worker_llama_cpp.BatchRunner.{
  Result, ok, fail, Phase, testing, claiming, running, failing, stopping, done, Batch, start,
}

-- The thread has the item in hand.
abbrev pub holds : {E : Type 0} → ℕ → Phase E → ℕ
holds i (running j) = if j == i then 1 else 0
holds i (failing j e) = if j == i then 1 else 0
holds i _ = 0

abbrev pub has_error : {E : Type 0} → Option (ℕ × E) → Bool
has_error none = false
has_error (some p) = true

abbrev pub count : ℕ → List ℕ → ℕ
count t [] = 0
count t (u ∷ us) = (if u == t then 1 else 0) + count t us

pub count-append : (t : ℕ) (xs ys : List ℕ) → count t (xs ++ ys) ≡ count t xs + count t ys
count-append t [] ys = omega arith
count-append t (x ∷ xs) ys = omega (arith, count-append t xs ys)

of_replicate : {A : Type 0} (k i : ℕ) (a q : A) → get_elem? (replicate k a) i ≡ some q → q ≡ a
of_replicate zero i a q h = cc
of_replicate (suc k) zero a q h = cc
of_replicate (suc k) (suc i) a q h = of_replicate k i a q h

module _ {T E : Type 0} (n : ℕ) (fn : ℕ → Bool → Result T E) where
  -- What is known of a thread in a phase. An item that fails before any error is recorded has not
  -- seen the abort token.
  abbrev pub Fits : ℕ → Bool → Phase E → Type 0
  Fits next err testing = Unit {0}
  Fits next err claiming = Unit {0}
  Fits next err (running i) = i < n
  Fits next err (failing i e) = (i < n) × ((fn i false ≡ fail e) ⊎ (err ≡ true))
  Fits next err stopping = err ≡ true
  Fits next err done = (n ≤ next) ⊎ (err ≡ true)

  pub record Inv (b : Batch T E) : Type 0 where
    pub sized : length b.slots ≡ n
    pub staffed : 0 < n → 0 < length b.threads
    pub aborts : b.abort ≡ true → has_error b.first_error ≡ true
    pub genuine : (i : ℕ) (e : E) → b.first_error ≡ some (i, e) → (i < n) × (fn i false ≡ fail e)
    pub fits :
        (w : ℕ) (q : Phase E)
        → get_elem? b.threads w ≡ some q
        → Fits b.next (has_error b.first_error) q
    pub settled :
        (i : ℕ)
        → i < n
        → i < b.next
        → ((v : T) × (get_elem? b.slots i ≡ some (some v)))
          ⊎ ((0 < total (holds i) b.threads) ⊎ (has_error b.first_error ≡ true))
    pub values :
        (i : ℕ) (v : T)
        → get_elem? b.slots i ≡ some (some v)
        → (fn i false ≡ ok v) ⊎ (has_error b.first_error ≡ true)
    pub once : (i : ℕ) → count i b.claimed ≡ (if ltb i n && ltb i b.next then 1 else 0)

  Fits-mono :
      (m m' : ℕ) (x x' : Bool) (q : Phase E)
      → m ≤ m'
      → (x ≡ true → x' ≡ true)
      → Fits m x q
      → Fits m' x' q
  Fits-mono m m' x x' testing h k f = tt
  Fits-mono m m' x x' claiming h k f = tt
  Fits-mono m m' x x' (running i) h k f = f
  Fits-mono m m' x x' (failing i e) h k (l, inl p) = (l, inl p)
  Fits-mono m m' x x' (failing i e) h k (l, inr p) = (l, inr (k p))
  Fits-mono m m' x x' stopping h k f = k f
  Fits-mono m m' x x' done h k (inl p) = inl (omega arith)
  Fits-mono m m' x x' done h k (inr p) = inr (k p)

  -- A thread's new phase fits, and the others fit still.
  pub Fits-set :
      (b : Batch T E) (w m' : ℕ) (x' : Bool) (p : Phase E)
      → Inv b
      → b.next ≤ m'
      → (has_error b.first_error ≡ true → x' ≡ true)
      → Fits m' x' p
      → (j : ℕ) (q : Phase E) → get_elem? (set b.threads w p) j ≡ some q
      → Fits m' x' q
  Fits-set b w m' x' p v h k f j q at = elim (get_elem?-set_cases b.threads w j p q at) [
    | inl e ↦ subst (Fits m' x') (sym e.1) f
    | inr e ↦ Fits-mono b.next m' (has_error b.first_error) x' q h k (v.fits j q e)
  ]

  pub start-Inv : (max_concurrency : ℕ) → Inv (start n max_concurrency)
  unfolding start
  start-Inv c = record {
    sized = length-replicate n none;
    staffed =
        λ h. let t : Phase E = testing in ground (arith, length-replicate (min (max c 1) n) t);
    aborts = λ h. cc;
    genuine = λ i e h. cc;
    fits = λ w q at. subst (Fits 0 false) (sym (of_replicate _ w testing q at)) tt;
    settled = λ i h l. absurd (omega arith);
    values = λ i v at. let e : some v ≡ none = of_replicate n i none (some v) at in cc;
    once = λ i. ground arith;
  }

  -- An item in hand stays in hand when a thread that does not hold it moves on.
  pub in_hand :
      (b : Batch T E) (w i : ℕ) (p q : Phase E)
      → get_elem? b.threads w ≡ some p
      → holds i p ≤ holds i q
      → 0 < total (holds i) b.threads
      → 0 < total (holds i) (set b.threads w q)
  in_hand b w i p q at le h = omega (arith, total-set (holds i) b.threads w p q at)
