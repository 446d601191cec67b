-- ===== src/Settings/Config/RoundTrip.antt =====
-- A configuration that is saved and loaded again.
use mathlib.Core.List.{append_assoc}
use mass_worker_llama_cpp.Prelude.{
  ℕ, suc, ◌≤◌, ◌<◌, ◌^◌, Bool, true, false, ◌&&◌, not, List, [], ◌∷◌, ◌++◌, Option, none, some,
  Bytes, text, text_eq, text_eq_iff, ◌==◌, ◌≡◌, ◌≢◌, refl, sym, ap, ◌∙◌, inl, inr, arith,
  Bool-cases,
}
use mass_worker_llama_cpp.Prelude.Int.{ℤ, pos, negsuc, pos_part, neg_part}
use mass_worker_llama_cpp.Prelude.Decimal.{
  to_string, stoi, stoi-to_string, stoi_other, lacks-to_string, ends_in-to_string,
}
use mass_worker_llama_cpp.Prelude.Lines.{
  lines, chomp, chomp_plain, keepable, ends_in, lacks, lines-append, cut_at-append, lacks-append,
  ends_in-append,
}
use mass_worker_llama_cpp.Settings.Files.{Disk, DiskLaws, write_private_file-Written}
use mass_worker_llama_cpp.Settings.Config.{
  WorkerConfig, unset, from_chars, bounded, in_range, minus, show_int, is_blank, drop_blank,
  trim_end, cons_key, Line, entry, skipped, split_entry, read_entry, parse_line, set_entry, set_pct,
  apply_line, read_lines, and_then, parse_config, parse_file, field, shown, fields, comment, title,
  format_note, secrets_note, setup_note, render, config_path, load_config, saved, save_config,
}

-- A key as the code writes it.
abbrev is_key : Bytes → Bool
unfolding trim_end cons_key
is_key [] = false
is_key (c ∷ k) =
    not (is_blank c)
    && (not (c == b'#')
        && (lacks b'=' (c ∷ k) && (lacks b'\n' (c ∷ k) && text_eq (trim_end (c ∷ k)) (c ∷ k))))

lines-field :
    (k v rest : Bytes)
    → lacks b'\n' k ≡ true
    → lacks b'\n' v ≡ true
    → lines (field k (some v) rest) ≡ (k ++ (b'=' ∷ v)) ∷ lines rest
unfolding field
lines-field k v rest h e =
    rw (← append_assoc k (b'=' ∷ v) (b'\n' ∷ rest))
      (lines-append (k ++ (b'=' ∷ v)) rest (lacks-append b'\n' k (b'=' ∷ v) h e))

read_entry-key :
    (c : ℕ) (k v : Bytes)
    → (c == b'#') ≡ false
    → lacks b'=' (c ∷ k) ≡ true
    → trim_end (c ∷ k) ≡ c ∷ k
    → read_entry ((c ∷ k) ++ (b'=' ∷ v)) ≡ entry (c ∷ k) v
unfolding read_entry split_entry
read_entry-key c k v h l t = rw h (rw (cut_at-append b'=' (c ∷ k) v l) (ap (λ x. entry x v) t))

drop_blank_plain : (c : ℕ) (s : Bytes) → is_blank c ≡ false → drop_blank (c ∷ s) ≡ c ∷ s
unfolding drop_blank
drop_blank_plain c s h = rw h refl

parse_line_entry :
    (k v : Bytes) → is_key k ≡ true → keepable v ≡ true → parse_line (k ++ (b'=' ∷ v)) ≡ entry k v
unfolding parse_line
parse_line_entry [] v h e = cc
parse_line_entry (c ∷ k) v h e =
    rw
      (chomp_plain ((c ∷ k) ++ (b'=' ∷ v))
        (ends_in-append b'\r' b'=' (c ∷ k) v refl (ground arith)))
      (rw (drop_blank_plain c (k ++ (b'=' ∷ v)) (ground arith)) (
        read_entry-key c k v (ground arith) (ground arith)
          ((text_eq_iff (trim_end (c ∷ k)) (c ∷ k)).0 (ground arith))))

-- The bounds of an `int`.
abbrev pub IsInt : ℤ → Type 0
IsInt n = (pos_part n < 2 ^ 31) × (neg_part n ≤ 2 ^ 31)

true_ne : true ≢ false
true_ne e = cc

none_ne : {n : ℕ} → none ≢ some n
none_ne e = cc

key_lines : (k : Bytes) → is_key k ≡ true → lacks b'\n' k ≡ true
unfolding trim_end
key_lines [] h = refl
key_lines (c ∷ k) h = ground arith

from_chars_plain : (s : Bytes) (n : ℕ) → stoi s ≡ some n → n < 2 ^ 31 → from_chars s ≡ some (pos n)
unfolding from_chars bounded in_range stoi
from_chars_plain [] n h k = cc
from_chars_plain (c ∷ s) n h k = elim (Bool-cases (c == b'-')) [
  | inl e ↦ absurd (none_ne (sym (stoi_other c s (ground arith)) ∙ h))
  | inr e ↦ rw e (rw h (ground arith))
]

from_chars-show_int : (n : ℤ) → IsInt n → from_chars (show_int n) ≡ some n
unfolding show_int
from_chars-show_int (pos n) h = from_chars_plain (to_string n) n (stoi-to_string n) h.0
from_chars-show_int (negsuc n) h =
    unfold from_chars minus bounded in_range in rw (stoi-to_string (suc n)) (ground arith)

keepable-show_int : (n : ℤ) → keepable (show_int n) ≡ true
unfolding show_int ends_in
keepable-show_int (pos n) =
    ground (arith, lacks-to_string b'\n' n refl, ends_in-to_string b'\r' n refl)
keepable-show_int (negsuc n) = ground (
  arith,
  lacks-to_string b'\n' (suc n) refl,
  ends_in-append b'\r' b'-' [] (to_string (suc n)) refl (ends_in-to_string b'\r' (suc n) refl),
)

read_lines-cons :
    (l : Bytes) (ls : List Bytes) (line : Line) (cfg next : WorkerConfig)
    → parse_line l ≡ line
    → apply_line line cfg ≡ some next
    → read_lines (l ∷ ls) cfg ≡ read_lines ls next
unfolding read_lines and_then
read_lines-cons l ls line cfg next p e =
    ap (λ x. and_then (apply_line x cfg) (read_lines ls)) p ∙ ap (λ o. and_then o (read_lines ls)) e

read_lines-some :
    (k v rest : Bytes) (cfg next : WorkerConfig)
    → is_key k ≡ true
    → keepable v ≡ true
    → set_entry k v cfg ≡ some next
    → read_lines (lines (field k (some v) rest)) cfg ≡ read_lines (lines rest) next
unfolding apply_line
read_lines-some k v rest cfg next h e s = rw (lines-field k v rest (key_lines k h) (ground arith)) (
    read_lines-cons (k ++ (b'=' ∷ v)) (lines rest) (entry k v) cfg next (parse_line_entry k v h e)
      s)

abbrev pub kept : Option Bytes → Bool
kept none = true
kept (some v) = keepable v

-- A field that is set by its line, and left alone without one.
read_lines-field :
    (k : Bytes) (o : Option Bytes) (rest : Bytes) (f : Option Bytes → WorkerConfig)
    → is_key k ≡ true
    → kept o ≡ true
    → ((v : Bytes) → set_entry k v (f none) ≡ some (f (some v)))
    → read_lines (lines (field k o rest)) (f none) ≡ read_lines (lines rest) (f o)
read_lines-field k none rest f h e s = unfold field in refl
read_lines-field k (some v) rest f h e s = read_lines-some k v rest (f none) (f (some v)) h e (s v)

read_lines-comment :
    (s rest : Bytes) (cfg : WorkerConfig)
    → lacks b'\n' s ≡ true
    → parse_line s ≡ skipped
    → read_lines (lines (comment s rest)) cfg ≡ read_lines (lines rest) cfg
unfolding apply_line comment
read_lines-comment s rest cfg h e =
    rw (lines-append s rest h) (read_lines-cons s (lines rest) skipped cfg cfg e refl)

-- What a file can hold: values with no newline that do not end in a carriage return, and an `int`.
pub record Keeps (cfg : WorkerConfig) : Type 0 where
  pub name : kept cfg.name ≡ true
  pub models_dir : kept cfg.models_dir ≡ true
  pub gpu_backend : kept cfg.gpu_backend ≡ true
  pub log_level : kept cfg.log_level ≡ true
  pub log_file : kept cfg.log_file ≡ true
  pub pct : (n : ℤ) → cfg.vram_headroom_pct ≡ some n → IsInt n

pct_field :
    (o : Option ℤ) (f : Option ℤ → WorkerConfig)
    → ((n : ℤ) → o ≡ some n → IsInt n)
    → ((v : Bytes)
        → set_entry (text "vram_headroom_pct") v (f none) ≡ set_pct (f none) (from_chars v))
    → ((n : ℤ) → set_pct (f none) (some n) ≡ some (f (some n)))
    → read_lines (lines (field (text "vram_headroom_pct") (shown o) [])) (f none) ≡ some (f o)
unfolding shown text is_key text_eq read_lines lines
pct_field none f h s p = unfold field in refl
pct_field (some n) f h s p =
    read_lines-some (text "vram_headroom_pct") (show_int n) [] (f none) (f (some n)) refl
      (keepable-show_int n)
      (s (show_int n) ∙ ap (set_pct (f none)) (from_chars-show_int n (h n refl)) ∙ p n)

read_lines-fields :
    (cfg : WorkerConfig) → Keeps cfg → read_lines (lines (fields cfg)) unset ≡ some cfg
unfolding fields set_entry set_pct text text_eq is_key
read_lines-fields cfg h =
    read_lines-field (text "name") cfg.name _ (λ o. record unset { name = o }) refl h.name
      (λ v. refl)
    ∙ read_lines-field (text "models_dir") cfg.models_dir _
        (λ o. record unset { name = cfg.name; models_dir = o }) refl h.models_dir (λ v. refl)
    ∙ read_lines-field (text "gpu_backend") cfg.gpu_backend _
        (λ o. record unset { name = cfg.name; models_dir = cfg.models_dir; gpu_backend = o }) refl
        h.gpu_backend (λ v. refl)
    ∙ read_lines-field (text "log_level") cfg.log_level _
        (λ o. record cfg { log_level = o; log_file = none; vram_headroom_pct = none }) refl
        h.log_level (λ v. refl)
    ∙ read_lines-field (text "log_file") cfg.log_file _
        (λ o. record cfg { log_file = o; vram_headroom_pct = none }) refl h.log_file (λ v. refl)
    ∙ pct_field cfg.vram_headroom_pct (λ o. record cfg { vram_headroom_pct = o }) h.pct (λ v. refl)
        (λ n. refl)

parse_config-render : (cfg : WorkerConfig) → Keeps cfg → parse_config (render cfg) ≡ some cfg
unfolding parse_config render title format_note secrets_note setup_note text parse_line read_entry
    drop_blank chomp ends_in
parse_config-render cfg h =
    read_lines-comment title _ unset refl refl
    ∙ read_lines-comment format_note _ unset refl refl
    ∙ read_lines-comment secrets_note _ unset refl refl
    ∙ read_lines-comment setup_note _ unset refl refl
    ∙ read_lines-fields cfg h

saved_read :
    (d : Disk) (law : DiskLaws d) (dir : Bytes) (cfg : WorkerConfig) (r : Bool × d.W)
    → Keeps cfg
    → (saved d dir cfg r).0 ≡ true
    → load_config d dir (saved d dir cfg r).1 ≡ some cfg
unfolding saved load_config parse_file
saved_read d law dir cfg (false, w) h e = cc
saved_read d law dir cfg (true, w) h e =
    elim (write_private_file-Written d law (config_path dir) (render cfg) w).file [
      | inl f ↦ ap (parse_file) f.1 ∙ parse_config-render cfg h
      | inr f ↦ absurd (true_ne (sym e ∙ f.0))
    ]

-- On a disk that keeps the laws, a save that returns true is followed by a load that gives the
-- same configuration, set fields and unset ones, if no value holds a newline or ends in a
-- carriage return and the percentage is an `int`.
pub load_config-save_config :
    (d : Disk) (law : DiskLaws d) (dir : Bytes) (cfg : WorkerConfig) (w : d.W)
    → Keeps cfg
    → (save_config d dir cfg w).0 ≡ true
    → load_config d dir (save_config d dir cfg w).1 ≡ some cfg
unfolding save_config
load_config-save_config d law dir cfg w h e =
    saved_read d law dir cfg (d.create_directories dir w) h e
