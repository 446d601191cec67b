-- ===== src/Settings/Credentials/Recorded.antt =====
-- Credentials on disk: a write that fails leaves those that were there.
use mass_worker_llama_cpp.Prelude.{
  ℕ, sym, Bool, true, false, ◌⊎◌, [], ◌∷◌, some, Bytes, text, ◌≡◌, ◌≢◌, refl, ap, ◌∙◌, inl, inr,
  arith, Bool-cases, length, length-append, ◌+◌, ◌==◌,
}
use mass_worker_llama_cpp.Prelude.Lines.{ends_in}
use mass_worker_llama_cpp.Settings.Files.{
  Disk, DiskLaws, join, temp_path, Written, write_private_file-Written,
}
use mass_worker_llama_cpp.Settings.Credentials.{
  Credentials, enrolled, credentials_path, ca_path, render, parse_file, WriteReply,
  load_credentials, recorded, write_record, with_ca, write_ca, in_directory, write_credentials,
  persist_enrollment,
}
use mass_worker_llama_cpp.Settings.Credentials.RoundTrip.{Keeps, spent, parse_file-render}

length-join : (dir m n : Bytes) → length (join dir m) + length n ≡ length (join dir n) + length m
unfolding join
length-join [] m n = omega arith
length-join (c ∷ []) m n = elim (Bool-cases (c == b'/')) [
  | inl e ↦ rw e (omega arith)
  | inr e ↦ rw e (omega arith)
]
length-join (c ∷ x ∷ dir) m n = omega (arith, length-join (x ∷ dir) m n)

ca_path_ne : (dir : Bytes) → ca_path dir ≢ credentials_path dir
unfolding ca_path credentials_path text
ca_path_ne dir e =
    let h : length (ca_path dir) ≡ length (credentials_path dir) = ap length e in
    omega (arith, length-join dir (text "ca.pem") (text "credentials"))

temp_ca_path_ne : (dir : Bytes) → temp_path (ca_path dir) ≢ credentials_path dir
unfolding ca_path credentials_path text
temp_ca_path_ne dir e =
    let h : length (temp_path (ca_path dir)) ≡ length (credentials_path dir) = ap length e in
    omega (
      arith,
      length-append (ca_path dir) (text ".tmp"),
      length-join dir (text "ca.pem") (text "credentials"),
    )

credentials_path_ne : (dir : Bytes) → credentials_path dir ≢ ca_path dir
credentials_path_ne dir e = ca_path_ne dir (sym e)

temp_credentials_path_ne : (dir : Bytes) → temp_path (credentials_path dir) ≢ ca_path dir
unfolding ca_path credentials_path text
temp_credentials_path_ne dir e =
    let h : length (temp_path (credentials_path dir)) ≡ length (ca_path dir) = ap length e in
    omega (
      arith,
      length-append (credentials_path dir) (text ".tmp"),
      length-join dir (text "ca.pem") (text "credentials"),
    )

-- The credentials with the place of the CA, if one is supplied.
abbrev pub placed : Bytes → Credentials → Bytes → Credentials
placed dir c [] = c
placed dir c (x ∷ pem) = record c { ca_file = ca_path dir }

module _ (d : Disk) (law : DiskLaws d) (dir : Bytes) where
  -- The CA file has the certificate that is supplied; with none it is as before.
  abbrev pub Stored : Bytes → d.W → d.W → Type 0
  Stored [] w v = d.content (ca_path dir) v ≡ d.content (ca_path dir) w
  Stored (x ∷ pem) w v = d.content (ca_path dir) v ≡ some (x ∷ pem)

  -- The record and the CA went to the disk, or the record there stayed.
  unfoldable pub Recorded : Credentials → Bytes → d.W → WriteReply d.W → Type 0
  Recorded c pem w r =
      ((r.ok ≡ true)
        × (load_credentials d dir r.after ≡ some (spent c))
        × Stored pem w r.after
        × (r.creds ≡ c))
      ⊎ ((r.ok ≡ false) × (load_credentials d dir r.after ≡ load_credentials d dir w))

  write_record-Recorded :
      (c : Credentials) (w : d.W) → Keeps c → Recorded c [] w (write_record d dir c w)
  unfolding Recorded write_record recorded load_credentials
  write_record-Recorded c w h =
      let done = write_private_file-Written d law (credentials_path dir) (render c) w in
      elim done.file [
        | inl f ↦ inl (
          f.0,
          ap parse_file f.1 ∙ parse_file-render c h,
          done.others (ca_path dir) (credentials_path_ne dir) (temp_credentials_path_ne dir),
          refl,
        )
        | inr f ↦ inr (f.0, ap parse_file f.1)
      ]

  -- What was on the disk before may be taken from an earlier moment.
  since :
      (c : Credentials) (pem : Bytes) (w v : d.W) (r : WriteReply d.W)
      → load_credentials d dir v ≡ load_credentials d dir w
      → (Stored [] v r.after → Stored pem w r.after)
      → Recorded c [] v r
      → Recorded c pem w r
  unfolding Recorded
  since c pem w v r e k (inl (ok, l, s, q)) = inl (ok, l, k s, q)
  since c pem w v r e k (inr a) = inr (a.0, a.1 ∙ e)

  with_ca-Recorded :
      (c : Credentials) (x : ℕ) (pem : Bytes) (w : d.W) (r : Bool × d.W)
      → Keeps (record c { ca_file = ca_path dir })
      → load_credentials d dir r.1 ≡ load_credentials d dir w
      → (r.0 ≡ true → d.content (ca_path dir) r.1 ≡ some (x ∷ pem))
      → Recorded (record c { ca_file = ca_path dir }) (x ∷ pem) w (with_ca d dir c r)
  unfolding with_ca Recorded
  with_ca-Recorded c x pem w (false, v) h e k = inr (refl, e)
  with_ca-Recorded c x pem w (true, v) h e k =
      since _ (x ∷ pem) w v (write_record d dir (record c { ca_file = ca_path dir }) v) e
        (λ s. s ∙ k refl) (write_record-Recorded _ v h)

  stored_pem :
      (pem : Bytes) (w : d.W) (r : Bool × d.W)
      → Written d (ca_path dir) pem w r
      → r.0 ≡ true
      → d.content (ca_path dir) r.1 ≡ some pem
  stored_pem pem w r f ok = elim f.file [
    | inl h ↦ h.1
    | inr h ↦ absurd (true_not_false (sym ok ∙ h.0))
  ]
    where
      true_not_false : true ≡ false → ⊥
      true_not_false h = cc

  write_ca-Recorded :
      (c : Credentials) (pem : Bytes) (w : d.W)
      → Keeps (placed dir c pem)
      → Recorded (placed dir c pem) pem w (write_ca d dir c pem w)
  unfolding write_ca load_credentials
  write_ca-Recorded c [] w h = write_record-Recorded c w h
  write_ca-Recorded c (x ∷ pem) w h =
      let done = write_private_file-Written d law (ca_path dir) (x ∷ pem) w in
      with_ca-Recorded c x pem w _ h
        (ap parse_file (done.others (credentials_path dir) (ca_path_ne dir) (temp_ca_path_ne dir)))
        (stored_pem (x ∷ pem) w _ done)

  Stored-since :
      (pem : Bytes) (w v u : d.W)
      → d.content (ca_path dir) v ≡ d.content (ca_path dir) w
      → Stored pem v u
      → Stored pem w u
  Stored-since [] w v u e s = s ∙ e
  Stored-since (x ∷ pem) w v u e s = s

  Recorded-since :
      (c : Credentials) (pem : Bytes) (w v : d.W) (r : WriteReply d.W)
      → load_credentials d dir v ≡ load_credentials d dir w
      → d.content (ca_path dir) v ≡ d.content (ca_path dir) w
      → Recorded c pem v r
      → Recorded c pem w r
  unfolding Recorded
  Recorded-since c pem w v r e f (inl (ok, l, s, q)) =
      inl (ok, l, Stored-since pem w v r.after f s, q)
  Recorded-since c pem w v r e f (inr a) = inr (a.0, a.1 ∙ e)

  in_directory-Recorded :
      (c : Credentials) (pem : Bytes) (w : d.W) (r : Bool × d.W)
      → Keeps (placed dir c pem)
      → load_credentials d dir r.1 ≡ load_credentials d dir w
      → d.content (ca_path dir) r.1 ≡ d.content (ca_path dir) w
      → Recorded (placed dir c pem) pem w (in_directory d dir c pem r)
  unfolding in_directory Recorded
  in_directory-Recorded c pem w (false, v) h e f = inr (refl, e)
  in_directory-Recorded c pem w (true, v) h e f =
      Recorded-since _ pem w v (write_ca d dir c pem v) e f (write_ca-Recorded c pem v h)

-- On a disk that keeps the laws, and with credentials that have a URL and no value with a newline
-- or a carriage return at its end: if the write returns true, the next load gives them, without the
-- join token if they are enrolled; if a CA certificate was supplied, it is in the CA file and the
-- credentials, as loaded and as handed back, name that file, and if none was, the CA file is as it
-- was; if the write returns false, the next load gives what it would have given before.
pub load_credentials-write_credentials :
    (d : Disk) (law : DiskLaws d) (dir : Bytes) (c : Credentials) (pem : Bytes) (w : d.W)
    → Keeps (placed dir c pem)
    → Recorded d law dir (placed dir c pem) pem w (write_credentials d dir c pem w)
unfolding write_credentials load_credentials
load_credentials-write_credentials d law dir c pem w h =
    in_directory-Recorded d law dir c pem w (d.create_directories dir w) h
      (ap parse_file (law.create_keeps dir (credentials_path dir) w))
      (law.create_keeps dir (ca_path dir) w)

Keeps-of_cleared : (c : Credentials) → Keeps c → Keeps (record c { join_token = [] })
unfolding ends_in
Keeps-of_cleared c h = record {
  has_url = h.has_url;
  mass_url = h.mass_url;
  worker_id = h.worker_id;
  worker_secret = h.worker_secret;
  join_token = refl;
  ca_file = h.ca_file;
  name = h.name;
}

spent_cleared :
    (c : Credentials) → spent (record c { join_token = [] }) ≡ record c { join_token = [] }
unfolding spent enrolled
spent_cleared c = elim (Bool-cases (enrolled c)) [ inl e ↦ rw e refl | inr e ↦ rw e refl ]

-- On a disk that keeps the laws: if the enrollment of credentials is persisted, the next load gives
-- them with no join token, whatever token they held; if not, it gives what it would have given
-- before. The credentials have a URL and no value with a newline or a carriage return at its end.
pub load_credentials-persist_enrollment :
    (d : Disk) (law : DiskLaws d) (dir : Bytes) (c : Credentials) (w : d.W)
    → Keeps c
    → (((persist_enrollment d dir c w).0 ≡ true)
        × (load_credentials d dir (persist_enrollment d dir c w).1
            ≡ some (record c { join_token = [] })))
      ⊎ (((persist_enrollment d dir c w).0 ≡ false)
          × (load_credentials d dir (persist_enrollment d dir c w).1 ≡ load_credentials d dir w))
unfolding persist_enrollment Recorded
load_credentials-persist_enrollment d law dir c w h =
    elim (load_credentials-write_credentials d law dir (record c { join_token = [] }) [] w
      (Keeps-of_cleared c h)) [ inl e ↦ inl (e.0, e.1 ∙ ap some (spent_cleared c)) | inr e ↦ inr e ]
