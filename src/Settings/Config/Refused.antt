-- ===== src/Settings/Config/Refused.antt =====
-- Which files `load_config` refuses.
use mass_worker_llama_cpp.Prelude.{
  ℕ, not, ◌==◌, arith, ==_iff, sym, subst, if_true, if_false, Bool, true, false, ◌&&◌, ◌||◌, List,
  [], ◌∷◌, Option, none, some, Bytes, text, any, text_eq, text_eq_iff, if◌then◌else◌, ◌≡◌, refl, ap,
  ◌∙◌, inl, inr, Bool-cases,
}
use mass_worker_llama_cpp.Prelude.Int.{ℤ}
use mass_worker_llama_cpp.Prelude.Lines.{lines, chomp, cut_at, before}
use mass_worker_llama_cpp.Settings.Config.{
  WorkerConfig, unset, from_chars, Line, entry, skipped, malformed, drop_blank, cons_key, trim_end,
  split_entry, read_entry, parse_line, set_entry, set_pct, apply_line, read_lines, and_then,
  parse_config,
}

abbrev pub is_none {ℓ} : {A : Type ℓ} → Option A → Bool
is_none none = true
is_none (some a) = false

-- What the parser makes of a line that is refused.
abbrev bad_entry : Line → Bool
bad_entry skipped = false
bad_entry malformed = true
bad_entry (entry key value) = text_eq key (text "vram_headroom_pct") && is_none (from_chars value)

-- The rest behind the blanks in front.
abbrev pub unindented : Bytes → Bytes
unindented [] = []
unindented (c ∷ s) = let rest = unindented s in if c == b' ' || c == b'\t' then rest else c ∷ s

-- The text behind the first '='.
abbrev pub value_of : Bytes → Option Bytes
value_of [] = none
value_of (c ∷ s) = let rest = value_of s in if c == b'=' then some s else rest

-- The text begins with the name, blanks and an '='.
abbrev pub sets : Bytes → Bytes → Bool
sets [] [] = false
sets [] (c ∷ s) =
    let rest = sets [] s in if c == b'=' then true else (c == b' ' || c == b'\t') && rest
sets (x ∷ p) [] = false
sets (x ∷ p) (c ∷ s) = c == x && sets p s

-- The value of an assignment, if there is one: refused for want of one, or if the text sets the
-- percentage and `std::from_chars` reads no `int` at the start of the value.
abbrev pub bad_value : Bytes → Option Bytes → Bool
bad_value s none = true
bad_value s (some v) = sets (text "vram_headroom_pct") s && is_none (from_chars v)

abbrev pub bad_text : Bytes → Bool
bad_text [] = false
bad_text (c ∷ s) = not (c == b'#') && bad_value (c ∷ s) (value_of (c ∷ s))

-- A line as the file has it, with or without a carriage return at its end.
abbrev pub bad_line : Bytes → Bool
bad_line l = bad_text (unindented (chomp l))

unindented_eq : (s : Bytes) → drop_blank s ≡ unindented s
unfolding drop_blank
unindented_eq [] = refl
unindented_eq (c ∷ s) = rw (unindented_eq s) refl

-- A name without blanks and '='.
abbrev is_plain : Bytes → Bool
is_plain [] = true
is_plain (x ∷ p) = not (x == b'=') && not (x == b' ' || x == b'\t') && is_plain p

plain_tail : (x : ℕ) (p : Bytes) → is_plain (x ∷ p) ≡ true → is_plain p ≡ true
plain_tail x p g = ground arith

-- What is cut at the first '=' is the key, with blanks at its end, and the value.
Agrees : Bytes → Option (Bytes × Bytes) → Type 0
Agrees s none = value_of s ≡ none
Agrees s (some (k, v)) =
    (value_of s ≡ some v) × ((p : Bytes) → is_plain p ≡ true → sets p s ≡ text_eq (trim_end k) p)

at_equals :
    (c : ℕ) (s p : Bytes) → (c == b'=') ≡ true → is_plain p ≡ true → sets p (c ∷ s) ≡ text_eq [] p
unfolding text_eq
at_equals c s [] h g = rw h refl
at_equals c s (x ∷ p) h g = ground (arith, ==_iff c b'=', ==_iff x b'=', ==_iff c x, h, g)

longer_key :
    (c : ℕ) (s t p : Bytes)
    → (c == b'=') ≡ false
    → is_plain p ≡ true
    → ((q : Bytes) → is_plain q ≡ true → sets q s ≡ text_eq t q)
    → sets p (c ∷ s) ≡ text_eq (cons_key c t) p
unfolding text_eq cons_key
longer_key c s [] [] h g ih = ground (arith, h, ih [] refl)
longer_key c s (y ∷ t) [] h g ih = ground (arith, h, ih [] refl)
longer_key c s [] (x ∷ p) h g ih = ground (
  arith,
  h,
  g,
  ih p (plain_tail x p g),
  ==_iff c x,
  ==_iff c 32,
  ==_iff c 9,
  ==_iff x 32,
  ==_iff x 9,
)
longer_key c s (y ∷ t) (x ∷ p) h g ih = ap (λ b. c == x && b) (ih p (plain_tail x p g))

consed :
    (c : ℕ) (s : Bytes) (o : Option (Bytes × Bytes))
    → (c == b'=') ≡ false
    → Agrees s o
    → Agrees (c ∷ s) (elim o [ none ↦ none | some kv ↦ some (before c kv) ])
unfolding Agrees before trim_end
consed c s none h a = rw h a
consed c s (some (k, v)) h (e, f) = (rw h e, λ p g. longer_key c s (trim_end k) p h g f)

cut_here : (c : ℕ) (s : Bytes) → (c == b'=') ≡ true → Agrees (c ∷ s) (some ([], s))
unfolding Agrees trim_end
cut_here c s h = (rw h refl, λ p g. at_equals c s p h g)

cut_at-Agrees : (s : Bytes) → Agrees s (cut_at b'=' s)
unfolding cut_at
cut_at-Agrees [] = unfold Agrees in refl
cut_at-Agrees (c ∷ s) = elim (Bool-cases (c == b'=')) [
  | inl h ↦ subst (Agrees (c ∷ s)) (sym (if_true (c == b'=') _ _ h)) (cut_here c s h)
  | inr h ↦
      subst (Agrees (c ∷ s)) (sym (if_false (c == b'=') _ _ h)) (consed c s _ h (cut_at-Agrees s))
]

split_entry-bad :
    (s : Bytes) (o : Option (Bytes × Bytes))
    → Agrees s o
    → bad_entry (split_entry o) ≡ bad_value s (value_of s)
unfolding Agrees split_entry text
split_entry-bad s none a = rw a refl
split_entry-bad s (some (k, v)) (e, f) =
    rw e (ap (λ b. b && is_none (from_chars v)) (sym (f (text "vram_headroom_pct") refl)))

read_entry-bad : (s : Bytes) → bad_entry (read_entry s) ≡ bad_text s
unfolding read_entry
read_entry-bad [] = refl
read_entry-bad (c ∷ s) = elim (Bool-cases (c == b'#')) [
  | inl h ↦ rw h refl
  | inr h ↦ rw h (split_entry-bad (c ∷ s) _ (cut_at-Agrees (c ∷ s)))
]

parse_line-bad : (l : Bytes) → bad_entry (parse_line l) ≡ bad_line l
unfolding parse_line
parse_line-bad l =
    ap (λ s. bad_entry (read_entry s)) (unindented_eq (chomp l))
    ∙ read_entry-bad (unindented (chomp l))

other_key : (k n p : Bytes) → text_eq k n ≡ true → text_eq n p ≡ false → text_eq k p ≡ false
other_key k n p e h = ap (λ x. text_eq x p) ((text_eq_iff k n).0 e) ∙ h

set_pct_none : (c : WorkerConfig) (o : Option ℤ) → is_none (set_pct c o) ≡ is_none o
unfolding set_pct
set_pct_none c none = refl
set_pct_none c (some n) = refl

abbrev pct_key : Bytes
pct_key = text "vram_headroom_pct"

-- A key that is not the percentage's is set or passed on, and refuses nothing.
passed :
    (k n : Bytes) (c : WorkerConfig) (z : Bool) (rest : Option WorkerConfig)
    → text_eq n pct_key ≡ false
    → is_none rest ≡ (text_eq k pct_key && z)
    → is_none (if text_eq k n then some c else rest) ≡ (text_eq k pct_key && z)
passed k n c z rest h e = elim (Bool-cases (text_eq k n)) [
  | inl t ↦ rw t (rw (other_key k n pct_key t h) refl)
  | inr t ↦ rw t e
]

last_key :
    (k : Bytes) (c : WorkerConfig) (o : Option ℤ)
    → is_none (if text_eq k pct_key then set_pct c o else some c) ≡ (text_eq k pct_key && is_none o)
last_key k c o = elim (Bool-cases (text_eq k pct_key)) [
  | inl t ↦ rw t (set_pct_none c o)
  | inr t ↦ rw t refl
]

set_entry_none :
    (k v : Bytes) (c : WorkerConfig)
    → is_none (set_entry k v c) ≡ (text_eq k pct_key && is_none (from_chars v))
unfolding set_entry text text_eq
set_entry_none k v c = passed k (text "name") _ _ _ refl (
    passed k (text "models_dir") _ _ _ refl (
      passed k (text "gpu_backend") _ _ _ refl (
        passed k (text "log_level") _ _ _ refl
          (passed k (text "log_file") _ _ _ refl (last_key k c (from_chars v))))))

apply_line_none : (l : Line) (c : WorkerConfig) → is_none (apply_line l c) ≡ bad_entry l
unfolding apply_line
apply_line_none skipped c = refl
apply_line_none malformed c = refl
apply_line_none (entry key value) c = set_entry_none key value c

and_then_none :
    (o : Option WorkerConfig) (f : WorkerConfig → Option WorkerConfig) (b z : Bool)
    → is_none o ≡ b
    → ((c : WorkerConfig) → is_none (f c) ≡ z)
    → is_none (and_then o f) ≡ (b || z)
unfolding and_then
and_then_none none f b z h k = rw (← h) refl
and_then_none (some c) f b z h k = rw (← h) (k c)

read_lines_none : (ls : List Bytes) (c : WorkerConfig) → is_none (read_lines ls c) ≡ any bad_line ls
unfolding read_lines any
read_lines_none [] c = refl
read_lines_none (l ∷ ls) c =
    and_then_none _ _ _ _ (apply_line_none (parse_line l) c ∙ parse_line-bad l)
      (λ n. read_lines_none ls n)

-- A file is refused exactly if one of its lines is bad: behind the blanks in front it is not empty,
-- is no comment and has no '=', or it sets the headroom percentage and `std::from_chars` reads no
-- `int` at the start of its value; what stands behind that `int` is accepted.
pub parse_config-any : (body : Bytes) → is_none (parse_config body) ≡ any bad_line (lines body)
unfolding parse_config
parse_config-any body = read_lines_none (lines body) unset
