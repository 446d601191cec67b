-- ===== src/Prelude/Lines.antt =====
-- Reading a text line by line, as `std::getline` does, and the `key=value` lines of the settings.
use Prim.Native.Nat.{ℕ}
use mathlib.Core.Path.{◌≡◌, refl}
use mathlib.Core.List.{List, [], ◌∷◌, ◌++◌}
use mathlib.Core.Bool.{Bool, true, false, ◌&&◌, not}
use mathlib.Core.Option.{Option, none, some}
use native.Mathlib.Omega.{arith}
use mass_worker_llama_cpp.Prelude.Tests.{◌==◌, if◌then◌else◌}
use mass_worker_llama_cpp.Prelude.Text.{Bytes}

-- A byte put before the first line.
unfoldable pub put : ℕ → List Bytes → List Bytes
put c [] = (c ∷ []) ∷ []
put c (l ∷ ls) = (c ∷ l) ∷ ls

-- The lines without their newlines; what stands behind the last newline is a line if it is not
-- empty.
unfoldable pub lines : Bytes → List Bytes
unfolding put
lines [] = []
lines (c ∷ s) = let rest = lines s in if c == b'\n' then [] ∷ rest else put c rest

-- `back() == c`.
unfoldable pub ends_in : ℕ → Bytes → Bool
ends_in c [] = false
ends_in c (x ∷ []) = x == c
ends_in c (x ∷ y ∷ s) = ends_in c (y ∷ s)

-- `pop_back()`.
unfoldable pub pop_back : Bytes → Bytes
pop_back [] = []
pop_back (x ∷ []) = []
pop_back (x ∷ y ∷ s) = x ∷ pop_back (y ∷ s)

-- A line written under CRLF loses its carriage return.
unfoldable pub chomp : Bytes → Bytes
unfolding ends_in pop_back
chomp s = if ends_in b'\r' s then pop_back s else s

-- `find(c)`: what stands before the first `c`, and behind it.
unfoldable pub before : ℕ → Bytes × Bytes → Bytes × Bytes
before x (k, v) = (x ∷ k, v)

unfoldable pub cut_at : ℕ → Bytes → Option (Bytes × Bytes)
unfolding before
cut_at c [] = none
cut_at c (x ∷ s) =
    let rest = cut_at c s in
    if x == c then some ([], s) else elim rest [ none ↦ none | some kv ↦ some (before x kv) ]

-- The byte occurs nowhere.
abbrev pub lacks : ℕ → Bytes → Bool
lacks c [] = true
lacks c (x ∷ s) = not (x == c) && lacks c s

pub lines-append :
    (l rest : Bytes) → lacks b'\n' l ≡ true → lines (l ++ (b'\n' ∷ rest)) ≡ l ∷ lines rest
unfolding lines put
lines-append [] rest h = refl
lines-append (c ∷ l) rest h = rw (lines-append l rest (ground arith)) (ground arith)

pub cut_at-append : (c : ℕ) (k v : Bytes) → lacks c k ≡ true → cut_at c (k ++ (c ∷ v)) ≡ some (k, v)
unfolding cut_at before
cut_at-append c [] v h = ground arith
cut_at-append c (x ∷ k) v h = rw (cut_at-append c k v (ground arith)) (ground arith)

pub lacks-append :
    (c : ℕ) (s t : Bytes) → lacks c s ≡ true → lacks c t ≡ true → lacks c (s ++ t) ≡ true
lacks-append c [] t h k = k
lacks-append c (x ∷ s) t h k = ground (arith, lacks-append c s t)

-- Behind a byte that is not `c`, the end of a text is that of what follows.
pub ends_in-append :
    (c x : ℕ) (s t : Bytes)
    → (x == c) ≡ false
    → ends_in c t ≡ false
    → ends_in c (s ++ (x ∷ t)) ≡ false
unfolding ends_in
ends_in-append c x [] [] h k = h
ends_in-append c x [] (y ∷ t) h k = k
ends_in-append c x (z ∷ []) t h k = ends_in-append c x [] t h k
ends_in-append c x (z ∷ y ∷ s) t h k = ends_in-append c x (y ∷ s) t h k

pub chomp_plain : (s : Bytes) → ends_in b'\r' s ≡ false → chomp s ≡ s
unfolding chomp
chomp_plain s h = rw h refl

-- A value that a line can hold.
abbrev pub keepable : Bytes → Bool
keepable v = lacks b'\n' v && not (ends_in b'\r' v)
