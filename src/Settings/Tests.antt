-- ===== src/Settings/Tests.antt =====
-- A disk in memory, for the examples of the settings.
use mass_worker_llama_cpp.Prelude.{
  Bool, true, false, [], ◌∷◌, ◌++◌, Option, none, some, Bytes, text, text_eq, text_eq_iff,
  text_eq_refl, if◌then◌else◌, ◌≡◌, ◌≢◌, refl, arith, Bool-cases, inl, inr,
}
use mass_worker_llama_cpp.Prelude.Map.{Dict, lookup, assign, erase, lookup-assign, lookup-erase}
use mass_worker_llama_cpp.Settings.Files.{
  Disk, DiskLaws, Written, write_private_file, write_private_file-Written,
}

abbrev pub Files : Type 0
Files = Dict Bytes

abbrev pub write_to : Bytes → Bytes → Files → Option Bytes → Bool × Files
write_to p s w none = (false, w)
write_to p s w (some t) = (true, assign p (t ++ s) w)

abbrev pub moved : Bytes → Bytes → Bytes → Files → Files
moved p q s w = if text_eq p q then w else assign q s (erase p w)

abbrev pub rename_to : Bytes → Bytes → Files → Option Bytes → Bool × Files
rename_to p q w none = (false, w)
rename_to p q w (some s) = (true, moved p q s w)

abbrev pub memory : Disk
memory = record {
  W = Files;
  create_directories = λ p w. (true, w);
  open_empty = λ p w. (true, assign p [] w);
  make_private = λ p w. w;
  write = λ p s w. write_to p s w (lookup p w);
  rename = λ p q w. rename_to p q w (lookup p w);
  remove = λ p w. erase p w;
  content = λ p w. lookup p w;
}

ne_text : (p q : Bytes) → p ≢ q → text_eq p q ≡ false
ne_text p q h = elim (Bool-cases (text_eq p q)) [
  | inl e ↦ absurd (h ((text_eq_iff p q).0 e))
  | inr e ↦ e
]

write_keeps_lem :
    (p q s : Bytes) (w : Files) (o : Option Bytes)
    → p ≢ q
    → lookup q (write_to p s w o).1 ≡ lookup q w
write_keeps_lem p q s w none h = refl
write_keeps_lem p q s w (some t) h = ground (arith, lookup-assign p q (t ++ s) w, ne_text p q h)

write_done_lem :
    (p s t : Bytes) (w : Files) (o : Option Bytes)
    → o ≡ some t
    → lookup p (write_to p s w o).1 ≡ some (t ++ s)
write_done_lem p s t w none h = cc
write_done_lem p s t w (some u) h = ground (arith, lookup-assign p p (u ++ s) w, text_eq_refl p)

rename_done_lem :
    (p q : Bytes) (w : Files) (o : Option Bytes)
    → lookup p w ≡ o
    → (rename_to p q w o).0 ≡ true
    → lookup q (rename_to p q w o).1 ≡ lookup p w
rename_done_lem p q w none h e = cc
rename_done_lem p q w (some s) h e =
    ground (arith, lookup-assign q q s (erase p w), text_eq_refl q, text_eq_iff p q)

rename_fails_lem :
    (p q r : Bytes) (w : Files) (o : Option Bytes)
    → (rename_to p q w o).0 ≡ false
    → lookup r (rename_to p q w o).1 ≡ lookup r w
rename_fails_lem p q r w none e = refl
rename_fails_lem p q r w (some s) e = cc

rename_keeps_lem :
    (p q r : Bytes) (w : Files) (o : Option Bytes)
    → p ≢ r
    → q ≢ r
    → lookup r (rename_to p q w o).1 ≡ lookup r w
rename_keeps_lem p q r w none h k = refl
rename_keeps_lem p q r w (some s) h k =
    ground
      (arith, lookup-assign q r s (erase p w), lookup-erase p r w, ne_text p r h, ne_text q r k)

pub memory-Laws : DiskLaws memory
memory-Laws = record {
  create_keeps = λ p q w. refl;
  open_keeps = λ p q w h. ground (arith, lookup-assign p q [] w, ne_text p q h);
  open_done = λ p w h. ground (arith, lookup-assign p p [] w, text_eq_refl p);
  private_keeps = λ p q w. refl;
  write_keeps = λ p q s w h. write_keeps_lem p q s w _ h;
  write_done = λ p s t w h e. write_done_lem p s t w _ h;
  rename_done = λ p q w h. rename_done_lem p q w _ refl h;
  rename_fails = λ p q r w h. rename_fails_lem p q r w _ h;
  rename_keeps = λ p q r w h k. rename_keeps_lem p q r w _ h k;
  remove_keeps = λ p q w h. ground (arith, lookup-erase p q w, ne_text p q h);
}

write_private_file-Written_example :
    Written memory
      (text "f")
      (text "new")
      ((text "f", text "old") ∷ [])
      (write_private_file memory (text "f") (text "new") ((text "f", text "old") ∷ []))
write_private_file-Written_example =
    write_private_file-Written memory memory-Laws (text "f") (text "new")
      ((text "f", text "old") ∷ [])
