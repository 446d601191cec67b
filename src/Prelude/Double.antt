-- ===== src/Prelude/Double.antt =====
-- `double` is a parameter of the model: a type of finite values with the operations that the
-- program applies, and, apart, the laws of IEEE arithmetic that its decisions rest on.
use Prim.Native.Nat.{ℕ}
use mathlib.Core.Path.{◌≡◌}
use mathlib.Core.Bool.{Bool, true, false}
use mass_worker_llama_cpp.Prelude.Int.{ℤ, ◌≤ℤ◌}
use mass_worker_llama_cpp.Prelude.Tests.{if◌then◌else◌}

pub record Double : Type 1 where
  pub F : Type 0
  pub lt : F → F → Bool  -- `a < b`
  pub of_ℤ : ℤ → F  -- `static_cast<double>`
  pub add : F → F → F
  pub mul : F → F → F
  pub div : F → F → F
  pub exp2 : ℕ → F
  pub trunc : F → ℤ  -- `static_cast<std::int64_t>`
  pub quarter : F
  pub minus_quarter : F

module _ (d : Double) where
  -- `a <= b` on values that are not NaN.
  abbrev pub Le : d.F → d.F → Type 0
  Le a b = d.lt b a ≡ false

  -- `std::min` and `std::clamp`.
  unfoldable pub fmin : d.F → d.F → d.F
  fmin a b = if d.lt b a then b else a

  unfoldable pub fclamp : d.F → d.F → d.F → d.F
  fclamp v lo hi = if d.lt v lo then lo else if d.lt hi v then hi else v

-- What finite doubles satisfy: `<` is a strict weak order, and rounding keeps the order of sums, of
-- products of values that are not negative, and of casts.
pub record Laws (d : Double) : Type 0 where
  pub irrefl : (a : d.F) → d.lt a a ≡ false
  pub asym : (a b : d.F) → d.lt a b ≡ true → d.lt b a ≡ false
  pub trans : (a b c : d.F) → Le d a b → Le d b c → Le d a c
  pub of_ℤ_mono : (a b : ℤ) → a ≤ℤ b → Le d (d.of_ℤ a) (d.of_ℤ b)
  pub exp2_mono : (m n : ℕ) → Prim.Native.Nat.◌≤◌ m n → Le d (d.exp2 m) (d.exp2 n)
  pub exp2_nonneg : (n : ℕ) → Le d (d.of_ℤ (ℤ.pos 0)) (d.exp2 n)
  pub add_mono : (a b c : d.F) → Le d b c → Le d (d.add a b) (d.add a c)
  pub mul_mono : (a b c : d.F) → Le d (d.of_ℤ (ℤ.pos 0)) a → Le d b c → Le d (d.mul a b) (d.mul a c)
  pub mul_mono_left :
      (a b c : d.F) → Le d (d.of_ℤ (ℤ.pos 0)) c → Le d a b → Le d (d.mul a c) (d.mul b c)
  pub quarters : Le d d.minus_quarter d.quarter
  pub shrink_nonneg : Le d (d.of_ℤ (ℤ.pos 0)) (d.add (d.of_ℤ (ℤ.pos 1)) d.minus_quarter)
  pub trunc_mono : (a b : d.F) → Le d a b → d.trunc a ≤ℤ d.trunc b
