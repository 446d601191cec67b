-- ===== src/Prelude/Map.antt =====
-- `std::unordered_map<std::string, V>`: an association list in the map's iteration order.
use mathlib.Core.Path.{◌≡◌, refl}
use mathlib.Core.Bool.{Bool, true, false, ◌||◌}
use mathlib.Core.Option.{Option, none, some}
use mathlib.Core.List.{List, [], ◌∷◌}
use native.Mathlib.Omega.{arith}
use mass_worker_llama_cpp.Prelude.Tests.{if◌then◌else◌}
use mass_worker_llama_cpp.Prelude.Text.{Bytes, text_eq, text_eq_iff, text_eq_refl}

abbrev pub Dict {ℓ} : Type ℓ → Type ℓ
Dict V = List (Bytes × V)

module _ {ℓ} {V : Type ℓ} where
  -- `find`.
  unfoldable pub lookup : Bytes → Dict V → Option V
  lookup k [] = none
  lookup k ((j, v) ∷ m) = if text_eq j k then some v else lookup k m

  -- `contains`.
  unfoldable pub contains : Bytes → Dict V → Bool
  contains k [] = false
  contains k ((j, v) ∷ m) = text_eq j k || contains k m

  -- `m[k] = v`.
  unfoldable pub assign : Bytes → V → Dict V → Dict V
  assign k v [] = (k, v) ∷ []
  assign k v ((j, w) ∷ m) = if text_eq j k then (j, v) ∷ m else (j, w) ∷ assign k v m

  -- `erase(k)`: a map holds a key at most once; the model drops every entry with it.
  unfoldable pub erase : Bytes → Dict V → Dict V
  erase k [] = []
  erase k ((j, w) ∷ m) = let rest = erase k m in if text_eq j k then rest else (j, w) ∷ rest

  -- `try_emplace(k, v)`: the new map, and whether it inserted.
  unfoldable pub try_emplace : Bytes → V → Dict V → Dict V × Bool
  unfolding contains assign
  try_emplace k v m = if contains k m then (m, false) else (assign k v m, true)

  pub lookup-assign :
      (k j : Bytes) (v : V) (m : Dict V)
      → lookup j (assign k v m) ≡ (if text_eq k j then some v else lookup j m)
  unfolding lookup assign
  lookup-assign k j v [] = refl
  lookup-assign k j v ((i, w) ∷ m) = ground (
    arith,
    text_eq_iff k j,
    text_eq_iff i k,
    text_eq_iff i j,
    text_eq_refl j,
    lookup-assign k j v m,
  )

  pub lookup-erase :
      (k j : Bytes) (m : Dict V) → lookup j (erase k m) ≡ (if text_eq k j then none else lookup j m)
  unfolding lookup erase
  lookup-erase k j [] = ground arith
  lookup-erase k j ((i, w) ∷ m) =
      ground (
        arith,
        text_eq_iff k j,
        text_eq_iff i k,
        text_eq_iff i j,
        text_eq_refl j,
        lookup-erase k j m,
      )

  pub contains-lookup :
      (k : Bytes) (m : Dict V) → contains k m ≡ elim (lookup k m) [ none ↦ false | some _ ↦ true ]
  unfolding lookup contains
  contains-lookup k [] = refl
  contains-lookup k ((i, w) ∷ m) = ground (arith, contains-lookup k m)

  pub contains-assign :
      (k j : Bytes) (v : V) (m : Dict V) → contains j (assign k v m) ≡ (text_eq k j || contains j m)
  unfolding contains assign
  contains-assign k j v [] = refl
  contains-assign k j v ((i, w) ∷ m) = ground (
    arith,
    text_eq_iff k j,
    text_eq_iff i k,
    text_eq_iff i j,
    text_eq_refl j,
    contains-assign k j v m,
  )

  pub contains-erase :
      (k j : Bytes) (m : Dict V)
      → contains j (erase k m) ≡ (if text_eq k j then false else contains j m)
  unfolding contains erase
  contains-erase k j [] = ground arith
  contains-erase k j ((i, w) ∷ m) = ground (
    arith,
    text_eq_iff k j,
    text_eq_iff i k,
    text_eq_iff i j,
    text_eq_refl j,
    contains-erase k j m,
  )
