-- ===== src/Settings/Credentials/Tests.antt =====
-- Credentials before and after an enrollment.
use mass_worker_llama_cpp.Prelude.{true, false, [], some, text, ◌≡◌, ◌⊎◌, refl}
use mass_worker_llama_cpp.Prelude.Lines.{ends_in}
use mass_worker_llama_cpp.Settings.Tests.{memory, memory-Laws}
use mass_worker_llama_cpp.Settings.Files.{join}
use mass_worker_llama_cpp.Settings.Credentials.{
  Credentials, ca_path, load_credentials, write_credentials, persist_enrollment,
}
use mass_worker_llama_cpp.Settings.Credentials.RoundTrip.{Keeps}
use mass_worker_llama_cpp.Settings.Credentials.Recorded.{
  Recorded, placed, load_credentials-write_credentials, load_credentials-persist_enrollment,
}

abbrev joined : Credentials
joined = record {
  mass_url = text "https://hub:443";
  worker_id = text "w1";
  worker_secret = text "s1";
  join_token = text "t1";
  ca_file = [];
  name = text "alpha";
}

joined-Keeps : Keeps joined
unfolding text ends_in
joined-Keeps = record {
  has_url = refl;
  mass_url = refl;
  worker_id = refl;
  worker_secret = refl;
  join_token = refl;
  ca_file = refl;
  name = refl;
}

load_credentials-persist_enrollment_example :
    (((persist_enrollment memory (text "d") joined []).0 ≡ true)
      × (load_credentials memory (text "d") (persist_enrollment memory (text "d") joined []).1
          ≡ some (record joined { join_token = [] })))
    ⊎ (((persist_enrollment memory (text "d") joined []).0 ≡ false)
        × (load_credentials memory (text "d") (persist_enrollment memory (text "d") joined []).1
            ≡ load_credentials memory (text "d") []))
load_credentials-persist_enrollment_example =
    load_credentials-persist_enrollment memory memory-Laws (text "d") joined [] joined-Keeps

placed-Keeps : Keeps (placed (text "d") joined (text "PEM"))
unfolding text ends_in ca_path join
placed-Keeps = record {
  has_url = refl;
  mass_url = refl;
  worker_id = refl;
  worker_secret = refl;
  join_token = refl;
  ca_file = refl;
  name = refl;
}

load_credentials-write_credentials_example :
    Recorded memory memory-Laws
      (text "d")
      (placed (text "d") joined (text "PEM"))
      (text "PEM")
      []
      (write_credentials memory (text "d") joined (text "PEM") [])
load_credentials-write_credentials_example =
    load_credentials-write_credentials memory memory-Laws (text "d") joined (text "PEM") []
      placed-Keeps
