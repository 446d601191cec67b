-- ===== src/Settings/Files.antt =====
-- src/fsutil.cpp: `write_private_file`, on a disk that may refuse every call.
use mass_worker_llama_cpp.Prelude.{
  ℕ, Bool, true, false, [], ◌∷◌, ◌++◌, Option, some, Bytes, text, length, length-append,
  if◌then◌else◌, ◌==◌, ◌≡◌, ◌≢◌, ◌⊎◌, refl, sym, ap, ◌∙◌, inl, inr, arith,
}

-- `std::filesystem` and `std::ofstream`: the calls of the settings, each with its success.
pub record Disk : Type 1 where
  pub W : Type 0
  pub create_directories : Bytes → W → Bool × W
  pub open_empty : Bytes → W → Bool × W
  pub make_private : Bytes → W → W
  pub write : Bytes → Bytes → W → Bool × W
  pub rename : Bytes → Bytes → W → Bool × W
  pub remove : Bytes → W → W
  pub content : Bytes → W → Option Bytes

-- What POSIX promises of them: a call touches only the files it names, an opened file is empty, a
-- written one has the text at its end, and a rename is atomic.
pub record DiskLaws (d : Disk) : Type 0 where
  pub create_keeps :
      (p q : Bytes) (w : d.W) → d.content q (d.create_directories p w).1 ≡ d.content q w
  pub open_keeps :
      (p q : Bytes) (w : d.W) → p ≢ q → d.content q (d.open_empty p w).1 ≡ d.content q w
  pub open_done :
      (p : Bytes) (w : d.W)
      → (d.open_empty p w).0 ≡ true
      → d.content p (d.open_empty p w).1 ≡ some []
  pub private_keeps : (p q : Bytes) (w : d.W) → d.content q (d.make_private p w) ≡ d.content q w
  pub write_keeps :
      (p q s : Bytes) (w : d.W) → p ≢ q → d.content q (d.write p s w).1 ≡ d.content q w
  pub write_done :
      (p s t : Bytes) (w : d.W)
      → d.content p w ≡ some t
      → (d.write p s w).0 ≡ true
      → d.content p (d.write p s w).1 ≡ some (t ++ s)
  pub rename_done :
      (p q : Bytes) (w : d.W)
      → (d.rename p q w).0 ≡ true
      → d.content q (d.rename p q w).1 ≡ d.content p w
  pub rename_fails :
      (p q r : Bytes) (w : d.W)
      → (d.rename p q w).0 ≡ false
      → d.content r (d.rename p q w).1 ≡ d.content r w
  pub rename_keeps :
      (p q r : Bytes) (w : d.W) → p ≢ r → q ≢ r → d.content r (d.rename p q w).1 ≡ d.content r w
  pub remove_keeps : (p q : Bytes) (w : d.W) → p ≢ q → d.content q (d.remove p w) ≡ d.content q w

-- `fs::path(dir) / name` for a relative name.
unfoldable pub join : Bytes → Bytes → Bytes
unfolding text
join [] name = name
join (c ∷ []) name = if c == b'/' then c ∷ name else c ∷ b'/' ∷ name
join (c ∷ x ∷ dir) name = c ∷ join (x ∷ dir) name

abbrev pub temp_path : Bytes → Bytes
temp_path path = path ++ text ".tmp"

module _ (d : Disk) where
  unfoldable renamed : Bytes → Bool × d.W → Bool × d.W
  renamed tmp (true, w) = (true, w)
  renamed tmp (false, w) = (false, d.remove tmp w)

  unfoldable written : Bytes → Bytes → Bool × d.W → Bool × d.W
  unfolding renamed
  written path tmp (true, w) = renamed tmp (d.rename tmp path w)
  written path tmp (false, w) = (false, w)

  unfoldable opened : Bytes → Bytes → Bytes → Bool × d.W → Bool × d.W
  unfolding written
  opened path tmp s (true, w) = written path tmp (d.write tmp s (d.make_private tmp w))
  opened path tmp s (false, w) = (false, w)

  unfoldable pub write_private_file : Bytes → Bytes → d.W → Bool × d.W
  unfolding opened
  write_private_file path s w = opened path (temp_path path) s (d.open_empty (temp_path path) w)

longer : (s t : Bytes) (c : ℕ) → (s ++ (c ∷ t)) ≢ s
longer s t c e =
    let h : length (s ++ (c ∷ t)) ≡ length s = ap length e in
    absurd (omega (arith, length-append s (c ∷ t)))

temp_path_ne : (path : Bytes) → temp_path path ≢ path
unfolding text
temp_path_ne path e = longer path _ _ e

-- What a write left: the file complete, or as it was before in `w`; all others but the temporary
-- one as they were.
pub record Written (d : Disk) (path s : Bytes) (w : d.W) (r : Bool × d.W) : Type 0 where
  pub file :
      ((r.0 ≡ true) × (d.content path r.1 ≡ some s))
      ⊎ ((r.0 ≡ false) × (d.content path r.1 ≡ d.content path w))
  pub others : (q : Bytes) → path ≢ q → temp_path path ≢ q → d.content q r.1 ≡ d.content q w

module _ (d : Disk) (law : DiskLaws d) (path s : Bytes) (w : d.W) where
  -- In `v` only the temporary file may differ from `w`.
  abbrev Kept : d.W → Type 0
  Kept v = (q : Bytes) → temp_path path ≢ q → d.content q v ≡ d.content q w

  untouched : (v : d.W) → Kept v → Written d path s w (false, v)
  untouched v k = record { file = inr (refl, k path (temp_path_ne path)); others = λ q h t. k q t }

  renamed-Written :
      (v : d.W) (r : Bool × d.W)
      → r ≡ d.rename (temp_path path) path v
      → Kept v
      → d.content (temp_path path) v ≡ some s
      → Written d path s w (renamed d (temp_path path) r)
  unfolding renamed
  renamed-Written v (true, u) e k c = record {
    file = inl (
      refl,
      ap (λ r. d.content path r.1) e
          ∙ law.rename_done (temp_path path) path v (sym (ap (λ r. r.0) e))
          ∙ c,
    );
    others = λ q h t.
        ap (λ r. d.content q r.1) e ∙ law.rename_keeps (temp_path path) path q v t h ∙ k q t;
  }
  renamed-Written v (false, u) e k c = untouched (d.remove (temp_path path) u) (λ q t.
      law.remove_keeps (temp_path path) q u t
      ∙ ap (λ r. d.content q r.1) e
      ∙ law.rename_fails (temp_path path) path q v (sym (ap (λ r. r.0) e))
      ∙ k q t)

  written-Written :
      (v : d.W) (r : Bool × d.W)
      → r ≡ d.write (temp_path path) s v
      → Kept v
      → d.content (temp_path path) v ≡ some []
      → Written d path s w (written d path (temp_path path) r)
  unfolding written
  written-Written v (true, u) e k c =
      renamed-Written u _ refl
        (λ q t. ap (λ r. d.content q r.1) e ∙ law.write_keeps (temp_path path) q s v t ∙ k q t)
        (ap (λ r. d.content (temp_path path) r.1) e
          ∙ law.write_done (temp_path path) s [] v c (sym (ap (λ r. r.0) e)))
  written-Written v (false, u) e k c =
      untouched u
        (λ q t. ap (λ r. d.content q r.1) e ∙ law.write_keeps (temp_path path) q s v t ∙ k q t)

  opened-Written :
      (r : Bool × d.W)
      → r ≡ d.open_empty (temp_path path) w
      → Written d path s w (opened d path (temp_path path) s r)
  unfolding opened
  opened-Written (true, u) e =
      written-Written _ _ refl
        (λ q t.
          law.private_keeps (temp_path path) q u
          ∙ ap (λ r. d.content q r.1) e
          ∙ law.open_keeps (temp_path path) q w t)
        (law.private_keeps (temp_path path) (temp_path path) u
          ∙ ap (λ r. d.content (temp_path path) r.1) e
          ∙ law.open_done (temp_path path) w (sym (ap (λ r. r.0) e)))
  opened-Written (false, u) e =
      untouched u (λ q t. ap (λ r. d.content q r.1) e ∙ law.open_keeps (temp_path path) q w t)

-- On a disk that keeps the laws, a write that returns true leaves the whole text in the file, one
-- that returns false leaves the file as it was, whichever call refused; no other file but the
-- temporary one is touched.
pub write_private_file-Written :
    (d : Disk) (law : DiskLaws d) (path s : Bytes) (w : d.W)
    → Written d path s w (write_private_file d path s w)
unfolding write_private_file
write_private_file-Written d law path s w = opened-Written d law path s w _ refl
