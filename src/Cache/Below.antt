-- ===== src/Cache/Below.antt =====
-- The paths of `parent_path()` above a file of the cache, when models_dir has no '/' at its end.
use mass_worker_llama_cpp.Prelude.{
  ℕ, false, [], ◌∷◌, ◌++◌, Option, none, some, Bytes, ◌≡◌, ◌≢◌, ◌⊎◌, inl, inr, refl, ap, ◌==◌,
}
use mass_worker_llama_cpp.Prelude.Lines.{ends_in}
use mass_worker_llama_cpp.Settings.Files.{join}
use mass_worker_llama_cpp.Cache.{behind, lead, parent_at, parent_path}

pub join_plain : (m s : Bytes) → m ≢ [] → ends_in b'/' m ≡ false → join m s ≡ m ++ (b'/' ∷ s)
unfolding join ends_in
join_plain [] s n h = absurd (n refl)
join_plain (c ∷ []) s n h = rw h refl
join_plain (c ∷ x ∷ m) s n h = ap (λ r. c ∷ r) (join_plain (x ∷ m) s (λ e. cc) h)

-- The lead of a path behind models_dir: models_dir, or a path strictly below it.
abbrev Climbs : Bytes → Option Bytes → Type 0
Climbs m o = (o ≡ some m) ⊎ ((x : ℕ) × (t : Bytes) × (o ≡ some (m ++ (b'/' ∷ x ∷ t))))

behind-Climbs :
    (c : ℕ) (o : Option Bytes) → (c == b'/') ≡ false → Climbs (c ∷ []) (behind c (behind b'/' o))
unfolding behind
behind-Climbs c none h = inl (rw h refl)
behind-Climbs c (some []) h = inl (rw h refl)
behind-Climbs c (some (x ∷ d)) h = inr (x, d, refl)

lead-Climbs :
    (c : ℕ) (m s : Bytes)
    → ends_in b'/' (c ∷ m) ≡ false
    → Climbs (c ∷ m) (lead (c ∷ m ++ (b'/' ∷ s)))
unfolding lead ends_in behind
lead-Climbs c [] s h = behind-Climbs c (lead s) h
lead-Climbs c (y ∷ m) s h = elim (lead-Climbs y m s h) [
  | inl e ↦ inl (ap (behind c) e)
  | inr (x, t, e) ↦ inr (x, t, ap (behind c) e)
]

-- Strictly below a directory.
abbrev pub Below : Bytes → Bytes → Type 0
Below m dir = (x : ℕ) × (t : Bytes) × (dir ≡ m ++ (b'/' ∷ x ∷ t))

pub parent_path-Below :
    (m s : Bytes)
    → m ≢ []
    → ends_in b'/' m ≡ false
    → (parent_path (m ++ (b'/' ∷ s)) ≡ m) ⊎ Below m (parent_path (m ++ (b'/' ∷ s)))
unfolding parent_path parent_at
parent_path-Below [] s n h = absurd (n refl)
parent_path-Below (c ∷ m) s n h = elim (lead-Climbs c m s h) [
  | inl e ↦ inl (ap parent_at e)
  | inr (x, t, e) ↦ inr (x, t, ap parent_at e)
]
