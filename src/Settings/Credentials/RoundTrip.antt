-- ===== src/Settings/Credentials/RoundTrip.antt =====
-- Credentials that are written and loaded again, before and after the enrollment.
use mathlib.Core.List.{append_assoc}
use mass_worker_llama_cpp.Prelude.{
  true, false, [], ◌∷◌, ◌++◌, some, Bytes, text, text_eq, if◌then◌else◌, ◌≡◌, refl, sym, ap, ◌∙◌,
  inl, inr, arith, Bool-cases,
}
use mass_worker_llama_cpp.Prelude.Lines.{
  lines, chomp, chomp_plain, keepable, lacks, lines-append, cut_at-append, lacks-append,
}
use mass_worker_llama_cpp.Settings.Credentials.{
  Credentials, blank, empty, enrolled, field, token_field, render, set_entry, apply_entry,
  read_lines, usable, parse_file,
}

read_lines-field :
    (k v rest : Bytes) (c : Credentials)
    → lacks b'\n' k ≡ true
    → lacks b'=' k ≡ true
    → keepable v ≡ true
    → read_lines (lines (field k v rest)) c ≡ read_lines (lines rest) (set_entry k v c)
unfolding field read_lines apply_entry
read_lines-field k v rest c h g e =
    let same : chomp v ≡ v = chomp_plain v (ground arith) in
    ap (λ s. read_lines (lines s) c) (sym (append_assoc k (b'=' ∷ v) (b'\n' ∷ rest)))
    ∙ ap (λ ls. read_lines ls c)
        (lines-append (k ++ (b'=' ∷ v)) rest (lacks-append b'\n' k (b'=' ∷ v) h (ground arith)))
    ∙ ap (λ o. read_lines (lines rest) (apply_entry o c)) (cut_at-append b'=' k v g)
    ∙ ap (λ x. read_lines (lines rest) (set_entry k x c)) same

-- Values with no newline that do not end in a carriage return, and a URL.
pub record Keeps (c : Credentials) : Type 0 where
  pub has_url : empty c.mass_url ≡ false
  pub mass_url : keepable c.mass_url ≡ true
  pub worker_id : keepable c.worker_id ≡ true
  pub worker_secret : keepable c.worker_secret ≡ true
  pub join_token : keepable c.join_token ≡ true
  pub ca_file : keepable c.ca_file ≡ true
  pub name : keepable c.name ≡ true

-- What a record on disk stands for: an enrolled worker has no join token any more.
unfoldable pub spent : Credentials → Credentials
spent c = if enrolled c then record c { join_token = [] } else c

spent_eq :
    (c : Credentials)
    → read_lines (lines []) (record c { join_token = (spent c).join_token }) ≡ spent c
unfolding spent read_lines lines
spent_eq c = elim (Bool-cases (enrolled c)) [ inl e ↦ rw e refl | inr e ↦ rw e refl ]

read_lines-token :
    (c base : Credentials) (rest : Bytes)
    → Keeps c
    → read_lines (lines (token_field c rest)) (record base { join_token = [] })
      ≡ read_lines (lines rest) (record base { join_token = (spent c).join_token })
unfolding token_field spent set_entry text text_eq
read_lines-token c base rest h = elim (Bool-cases (enrolled c)) [
  | inl e ↦ rw e refl
  | inr e ↦ rw e (
      read_lines-field (text "join_token") c.join_token rest (record base { join_token = [] }) refl
        refl h.join_token)
]

read_lines-render : (c : Credentials) → Keeps c → read_lines (lines (render c)) blank ≡ spent c
unfolding render set_entry text text_eq spent
read_lines-render c h =
    read_lines-field (text "mass_url") c.mass_url _ blank refl refl h.mass_url
    ∙ read_lines-field (text "worker_id") c.worker_id _ _ refl refl h.worker_id
    ∙ read_lines-field (text "worker_secret") c.worker_secret _ _ refl refl h.worker_secret
    ∙ read_lines-token c (record c { ca_file = []; name = [] }) _ h
    ∙ read_lines-field (text "ca_file") c.ca_file _ _ refl refl h.ca_file
    ∙ read_lines-field (text "name") c.name [] _ refl refl h.name
    ∙ spent_eq c

usable_url : (c : Credentials) → empty c.mass_url ≡ false → usable c ≡ some c
unfolding usable
usable_url c h = rw h refl

url-spent : (c : Credentials) → empty (spent c).mass_url ≡ empty c.mass_url
unfolding spent
url-spent c = elim (Bool-cases (enrolled c)) [ inl e ↦ rw e refl | inr e ↦ rw e refl ]

pub parse_file-render : (c : Credentials) → Keeps c → parse_file (some (render c)) ≡ some (spent c)
unfolding parse_file
parse_file-render c h =
    ap usable (read_lines-render c h) ∙ usable_url (spent c) (url-spent c ∙ h.has_url)
