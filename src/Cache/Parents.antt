-- ===== src/Cache/Parents.antt =====
-- The climb of `Cache::prune_empty_parents`: it ends, and by which paths.
use mass_worker_llama_cpp.Prelude.{
  ◌⊎◌, ap, ==_iff, text_eq_iff, ℕ, zero, suc, ◌<◌, Bool, true, false, ◌||◌, [], ◌∷◌, Option, none,
  some, Bytes, text_eq, length, ◌==◌, if◌then◌else◌, ◌≡◌, refl, arith, inl, inr, Bool-cases,
}
use mass_worker_llama_cpp.Cache.{
  unreadable, nonempty, vacant, FileSystem, behind, lead, parent_at, parent_path,
  prune_empty_parents,
}

-- The lead is shorter than the path.
abbrev Shorter : ℕ → Option Bytes → Type 0
Shorter n none = Unit {0}
Shorter n (some d) = length d < n

behind-Shorter : (c n : ℕ) (o : Option Bytes) → Shorter n o → Shorter (suc n) (behind c o)
unfolding behind
behind-Shorter c n none h = elim (Bool-cases (c == b'/')) [
  | inl e ↦ rw e omega arith
  | inr e ↦ rw e tt
]
behind-Shorter c n (some []) h = elim (Bool-cases (c == b'/')) [
  | inl e ↦ rw e omega arith
  | inr e ↦ rw e omega arith
]
behind-Shorter c n (some (x ∷ d)) h = omega arith

lead-Shorter : (s : Bytes) → Shorter (length s) (lead s)
unfolding lead
lead-Shorter [] = tt
lead-Shorter (c ∷ s) = behind-Shorter c (length s) (lead s) (lead-Shorter s)

parent_at-Shorter : (n : ℕ) (o : Option Bytes) → 1 < n → Shorter n o → length (parent_at o) < n
unfolding parent_at
parent_at-Shorter n none l h = omega arith
parent_at-Shorter n (some []) l h = l
parent_at-Shorter n (some (x ∷ d)) l h = h

single-Shorter :
    (c : ℕ)
    → (c == b'/') ≡ true ⊎ (c == b'/') ≡ false
    → text_eq (c ∷ []) (parent_path (c ∷ [])) ≡ false
    → length (parent_path (c ∷ [])) < 1
unfolding parent_path lead behind parent_at
single-Shorter c (inl h) e = ground (arith, ==_iff c b'/', text_eq_iff (c ∷ []) (b'/' ∷ []), h, e)
single-Shorter c (inr h) e = rw h (omega arith)

parent_path-Shorter :
    (s : Bytes) → text_eq s (parent_path s) ≡ false → length (parent_path s) < length s
unfolding parent_path lead parent_at text_eq
parent_path-Shorter [] e = ground arith
parent_path-Shorter (c ∷ []) e = single-Shorter c (Bool-cases (c == b'/')) e
parent_path-Shorter (c ∷ x ∷ s) e =
    parent_at-Shorter (length (c ∷ x ∷ s)) (lead (c ∷ x ∷ s)) (omega arith)
      (lead-Shorter (c ∷ x ∷ s))

or_right : (a b : Bool) → (a || b) ≡ false → b ≡ false
or_right false b e = e
or_right true b e = ground arith

module _ (fs : FileSystem) (models_dir : Bytes) where
  shorter :
      (n : ℕ) (dir : Bytes)
      → (text_eq dir models_dir || text_eq dir (parent_path dir)) ≡ false
      → length dir < suc n
      → length (parent_path dir) < n
  shorter n dir e h = omega (arith, parent_path-Shorter dir (or_right (text_eq dir models_dir) _ e))

  -- The loop of `prune_empty_parents` ends: it goes to a shorter path each time, so with more
  -- rounds than the path has bytes, its result does not depend on how many rounds it may take.
  pub prune_empty_parents-ends :
      (n m : ℕ) (dir : Bytes) (w : fs.W)
      → length dir < n
      → length dir < m
      → prune_empty_parents fs models_dir n dir w ≡ prune_empty_parents fs models_dir m dir w
  unfolding prune_empty_parents
  prune_empty_parents-ends zero m dir w h l = ground arith
  prune_empty_parents-ends (suc n) zero dir w h l = ground arith
  prune_empty_parents-ends (suc n) (suc m) dir w h l =
      elim (Bool-cases (text_eq dir models_dir || text_eq dir (parent_path dir))) [
        | inl e ↦ rw e refl
        | inr e ↦ rw e (
            ap
              (λ v. elim (fs.dir_state dir w) [
                | unreadable ↦ w
                | nonempty ↦ w
                | vacant ↦ if (fs.remove_dir dir w).0 then v else (fs.remove_dir dir w).1
              ])
              (prune_empty_parents-ends n m (parent_path dir) _ (shorter n dir e h)
                (shorter m dir e l)))
      ]
