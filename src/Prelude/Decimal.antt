-- ===== src/Prelude/Decimal.antt =====
-- `std::to_string` of a non-negative integer, and `std::stoi` and `std::from_chars` on such a text:
-- the longest run of digits is read. The program applies them to unsigned decimals only; a sign or
-- leading blanks are not modelled.
use Prim.Native.Nat.{ℕ, zero, suc, ◌+◌, ◌-◌, ◌*◌, ◌/◌, ◌%◌, ◌≤◌}
use mathlib.Core.Path.{◌≡◌, refl, ◌∙◌, ap}
use mathlib.Core.Logic.{inl, inr}
use mathlib.Core.List.{[], ◌∷◌}
use mathlib.Core.Bool.{Bool, true, false, ◌&&◌}
use mathlib.Core.Option.{Option, none, some}
use native.Mathlib.Omega.{arith}
use mass_worker_llama_cpp.Prelude.Tests.{leb, ◌==◌, if◌then◌else◌, Bool-cases}
use mass_worker_llama_cpp.Prelude.Text.{Bytes}
use mass_worker_llama_cpp.Prelude.Lines.{lacks, ends_in}

-- Each round takes the last digit off; `n` rounds are more than enough.
digits : ℕ → ℕ → Bytes → Bytes
digits zero n out = out
digits (suc f) n out =
    let rest = digits f (n / 10) ((48 + n % 10) ∷ out) in if n == 0 then out else rest

unfoldable pub to_string : ℕ → Bytes
unfolding digits
to_string n = if n == 0 then 48 ∷ [] else digits n n []

is_digit : ℕ → Bool
is_digit c = leb 48 c && leb c 57

-- The value read so far, carried over the digits.
scan : ℕ → Bytes → ℕ
unfolding is_digit
scan n [] = n
scan n (c ∷ s) = let rest = scan (n * 10 + (c - 48)) s in if is_digit c then rest else n

-- `none` is the exception or the error code of a text that does not start with a digit.
unfoldable pub stoi : Bytes → Option ℕ
unfolding scan
stoi [] = none
stoi (c ∷ s) = if is_digit c then some (scan 0 (c ∷ s)) else none

scan-digit : (n d : ℕ) (s : Bytes) → d ≤ 9 → scan n ((48 + d) ∷ s) ≡ scan (n * 10 + d) s
unfolding scan
scan-digit n d s h = let e : 48 + d - 48 ≡ d = omega arith in rw e (ground arith)

scan-digits : (f n : ℕ) (out : Bytes) → n ≤ f → scan 0 (digits f n out) ≡ scan n out
unfolding digits
scan-digits zero n out h = let e : n ≡ 0 = omega arith in rw e
scan-digits (suc f) n out h = elim (Bool-cases (n == 0)) [
  | inl e ↦ let z : n ≡ 0 = ground arith in rw z
  | inr e ↦ rw e (
      scan-digits f (n / 10) ((48 + n % 10) ∷ out) (ground arith)
      ∙ scan-digit (n / 10) (n % 10) out (omega arith)
      ∙ ap (λ m. scan m out) (omega arith))
]

-- The first byte is a digit.
abbrev Starts : Bytes → Type 0
Starts [] = Unit {0}
Starts (c ∷ s) = is_digit c ≡ true

digits-Starts : (f n : ℕ) (out : Bytes) → Starts out → Starts (digits f n out)
unfolding digits is_digit
digits-Starts zero n out h = h
digits-Starts (suc f) n out h = elim (Bool-cases (n == 0)) [
  | inl e ↦ rw e h
  | inr e ↦ rw e (digits-Starts f (n / 10) ((48 + n % 10) ∷ out) (ground arith))
]

stoi_of_scan : (s : Bytes) (n : ℕ) → Starts s → scan 0 s ≡ suc n → stoi s ≡ some (suc n)
unfolding stoi
stoi_of_scan [] n h e = ground arith
stoi_of_scan (c ∷ s) n h e = ground arith

stoi-digits : (n : ℕ) → stoi (digits (suc n) (suc n) []) ≡ some (suc n)
unfolding scan
stoi-digits n =
    stoi_of_scan (digits (suc n) (suc n) []) n (digits-Starts (suc n) (suc n) [] tt)
      (scan-digits (suc n) (suc n) [] (omega arith))

to_string-suc : (n : ℕ) → to_string (suc n) ≡ digits (suc n) (suc n) []
unfolding to_string
to_string-suc n = ground arith

-- Reading back what was printed.
pub stoi-to_string : (n : ℕ) → stoi (to_string n) ≡ some n
unfolding to_string stoi
stoi-to_string zero = refl
stoi-to_string (suc n) = ap stoi (to_string-suc n) ∙ stoi-digits n

all_digits : Bytes → Bool
all_digits [] = true
all_digits (c ∷ s) = is_digit c && all_digits s

digits_all : (f n : ℕ) (out : Bytes) → all_digits out ≡ true → all_digits (digits f n out) ≡ true
unfolding digits all_digits is_digit
digits_all zero n out h = h
digits_all (suc f) n out h = elim (Bool-cases (n == 0)) [
  | inl e ↦ rw e h
  | inr e ↦ rw e (digits_all f (n / 10) ((48 + n % 10) ∷ out) (ground arith))
]

to_string_all : (n : ℕ) → all_digits (to_string n) ≡ true
unfolding to_string all_digits is_digit
to_string_all zero = refl
to_string_all (suc n) = rw to_string-suc (digits_all (suc n) (suc n) [] refl)

lacks_of_digits : (c : ℕ) (s : Bytes) → is_digit c ≡ false → all_digits s ≡ true → lacks c s ≡ true
unfolding all_digits is_digit
lacks_of_digits c [] h k = refl
lacks_of_digits c (x ∷ s) h k = ground (arith, lacks_of_digits c s h)

ends_in_of_digits :
    (c : ℕ) (s : Bytes) → is_digit c ≡ false → all_digits s ≡ true → ends_in c s ≡ false
unfolding all_digits is_digit ends_in
ends_in_of_digits c [] h k = refl
ends_in_of_digits c (x ∷ []) h k = ground arith
ends_in_of_digits c (x ∷ y ∷ s) h k = ends_in_of_digits c (y ∷ s) h (ground arith)

-- A printed number holds digits only.
pub lacks-to_string : (c n : ℕ) → leb 48 c && leb c 57 ≡ false → lacks c (to_string n) ≡ true
unfolding is_digit
lacks-to_string c n h = lacks_of_digits c (to_string n) h (to_string_all n)

pub ends_in-to_string : (c n : ℕ) → leb 48 c && leb c 57 ≡ false → ends_in c (to_string n) ≡ false
unfolding is_digit
ends_in-to_string c n h = ends_in_of_digits c (to_string n) h (to_string_all n)

-- A text that starts with another byte is no number.
pub stoi_other : (c : ℕ) (s : Bytes) → leb 48 c && leb c 57 ≡ false → stoi (c ∷ s) ≡ none
unfolding stoi is_digit
stoi_other c s h = rw h refl
