-- ===== src/Settings/Credentials.antt =====
-- src/credentials.cpp: the connection credentials of the worker on disk.
pub mod RoundTrip
pub mod Recorded
mod Tests
use mass_worker_llama_cpp.Prelude.{
  ℕ, Bool, true, false, ◌&&◌, not, List, [], ◌∷◌, ◌++◌, Option, none, some, Bytes, text, text_eq,
  if◌then◌else◌,
}
use mass_worker_llama_cpp.Prelude.Lines.{lines, chomp, cut_at}
use mass_worker_llama_cpp.Settings.Files.{Disk, join, write_private_file}

pub record Credentials : Type 0 where
  pub mass_url : Bytes
  pub worker_id : Bytes
  pub worker_secret : Bytes
  pub join_token : Bytes
  pub ca_file : Bytes
  pub name : Bytes

abbrev blank : Credentials
blank = record {
  mass_url = [];
  worker_id = [];
  worker_secret = [];
  join_token = [];
  ca_file = [];
  name = [];
}

abbrev pub empty : Bytes → Bool
empty [] = true
empty (c ∷ s) = false

unfoldable pub enrolled : Credentials → Bool
enrolled c = not (empty c.worker_id) && not (empty c.worker_secret)

unfoldable pub credentials_path : Bytes → Bytes
credentials_path data_dir = join data_dir (text "credentials")

unfoldable pub ca_path : Bytes → Bytes
ca_path data_dir = join data_dir (text "ca.pem")

field : Bytes → Bytes → Bytes → Bytes
field key value rest = key ++ (b'=' ∷ (value ++ (b'\n' ∷ rest)))

token_field : Credentials → Bytes → Bytes
unfolding enrolled field
token_field c rest = if enrolled c then rest else field (text "join_token") c.join_token rest

pub render : Credentials → Bytes
unfolding token_field field
render c = field (text "mass_url") c.mass_url (
    field (text "worker_id") c.worker_id (
      field (text "worker_secret") c.worker_secret
        (token_field c (field (text "ca_file") c.ca_file (field (text "name") c.name [])))))

-- Unknown keys are ignored.
set_entry : Bytes → Bytes → Credentials → Credentials
set_entry key value c =
    if text_eq key (text "mass_url")
    then record c { mass_url = value }
    else if text_eq key (text "worker_id")
    then record c { worker_id = value }
    else if text_eq key (text "worker_secret")
    then record c { worker_secret = value }
    else if text_eq key (text "join_token")
    then record c { join_token = value }
    else if text_eq key (text "ca_file")
    then record c { ca_file = value }
    else if text_eq key (text "name")
    then record c { name = value }
    else c

apply_entry : Option (Bytes × Bytes) → Credentials → Credentials
apply_entry none c = c
apply_entry (some (key, value)) c = set_entry key (chomp value) c

-- A line that is empty has no '=' either, and is skipped too.
read_lines : List Bytes → Credentials → Credentials
read_lines [] c = c
read_lines (l ∷ ls) c = read_lines ls (apply_entry (cut_at b'=' l) c)

usable : Credentials → Option Credentials
usable c = if empty c.mass_url then none else some c

pub parse_file : Option Bytes → Option Credentials
unfolding usable
parse_file none = none
parse_file (some body) = usable (read_lines (lines body) blank)

-- Whether the write went through, and the credentials with the place of the CA file.
pub record WriteReply (W : Type 0) : Type 0 where
  pub ok : Bool
  pub creds : Credentials
  pub after : W

module _ (d : Disk) where
  pub load_credentials : Bytes → d.W → Option Credentials
  unfolding parse_file
  load_credentials data_dir w = parse_file (d.content (credentials_path data_dir) w)

  recorded : Credentials → Bool × d.W → WriteReply d.W
  recorded c (ok, w) = record { ok = ok; creds = c; after = w }

  write_record : Bytes → Credentials → d.W → WriteReply d.W
  unfolding recorded render
  write_record data_dir c w =
      recorded c (write_private_file d (credentials_path data_dir) (render c) w)

  with_ca : Bytes → Credentials → Bool × d.W → WriteReply d.W
  unfolding write_record
  with_ca data_dir c (false, w) = record { ok = false; creds = c; after = w }
  with_ca data_dir c (true, w) = write_record data_dir (record c { ca_file = ca_path data_dir }) w

  write_ca : Bytes → Credentials → Bytes → d.W → WriteReply d.W
  unfolding write_record with_ca
  write_ca data_dir c [] w = write_record data_dir c w
  write_ca data_dir c (x ∷ pem) w =
      with_ca data_dir c (write_private_file d (ca_path data_dir) (x ∷ pem) w)

  in_directory : Bytes → Credentials → Bytes → Bool × d.W → WriteReply d.W
  unfolding write_ca
  in_directory data_dir c pem (false, w) = record { ok = false; creds = c; after = w }
  in_directory data_dir c pem (true, w) = write_ca data_dir c pem w

  pub write_credentials : Bytes → Credentials → Bytes → d.W → WriteReply d.W
  unfolding in_directory
  write_credentials data_dir c pem w = in_directory data_dir c pem (d.create_directories data_dir w)

  pub persist_enrollment : Bytes → Credentials → d.W → Bool × d.W
  unfolding write_credentials
  persist_enrollment data_dir c w =
      let r = write_credentials data_dir (record c { join_token = [] }) [] w in (r.ok, r.after)
