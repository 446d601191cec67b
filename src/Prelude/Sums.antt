-- ===== src/Prelude/Sums.antt =====
-- Sums of a weight over a list, and what an update of the list does to them.
use Prim.Native.Nat.{ℕ, zero, suc, ◌+◌}
use mathlib.Core.Path.{◌≡◌, refl}
use mathlib.Core.Logic.{◌⊎◌, inl, inr}
use mathlib.Core.List.{List, [], ◌∷◌, ◌++◌}
use mathlib.Core.Option.{some}
use native.Mathlib.Omega.{arith}
use mass_worker_llama_cpp.Prelude.Lists.{get_elem?, set}

module _ {A : Type 0} where
  unfoldable pub total : (A → ℕ) → List A → ℕ
  total w [] = 0
  total w (p ∷ ps) = w p + total w ps

  pub total-set :
      (w : A → ℕ) (ps : List A) (i : ℕ) (p q : A)
      → get_elem? ps i ≡ some p
      → total w (set ps i q) + w p ≡ total w ps + w q
  unfolding total
  total-set w [] i p q h = ground arith
  total-set w (x ∷ ps) zero p q h = ground arith
  total-set w (x ∷ ps) (suc i) p q h = omega (arith, total-set w ps i p q h)

  pub total-append : (w : A → ℕ) (ps qs : List A) → total w (ps ++ qs) ≡ total w ps + total w qs
  unfolding total
  total-append w [] qs = omega arith
  total-append w (p ∷ ps) qs = omega (arith, total-append w ps qs)

  pub total-one : (w : A → ℕ) (p : A) → total w (p ∷ []) ≡ w p
  unfolding total
  total-one w p = omega arith

  -- What stands in an updated list was there before, or is the new value at its place.
  pub get_elem?-set_cases :
      (xs : List A) (i j : ℕ) (q r : A)
      → get_elem? (set xs i q) j ≡ some r
      → ((i ≡ j) × (r ≡ q)) ⊎ (get_elem? xs j ≡ some r)
  get_elem?-set_cases [] i j q r h = inr h
  get_elem?-set_cases (x ∷ xs) zero zero q r h = inl (refl, ground arith)
  get_elem?-set_cases (x ∷ xs) zero (suc j) q r h = inr h
  get_elem?-set_cases (x ∷ xs) (suc i) zero q r h = inr h
  get_elem?-set_cases (x ∷ xs) (suc i) (suc j) q r h = elim (get_elem?-set_cases xs i j q r h) [
    | inl e ↦ inl (omega arith, e.1)
    | inr e ↦ inr e
  ]
