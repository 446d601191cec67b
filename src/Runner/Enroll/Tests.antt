-- ===== src/Runner/Enroll/Tests.antt =====
-- A worker with a join token, and a hub that sends an identity.
use mass_worker_llama_cpp.Prelude.{true, [], Bytes, text, ◌≡◌, refl, sym, ap}
use mass_worker_llama_cpp.Prelude.Lines.{ends_in, keepable}
use mass_worker_llama_cpp.Service.Messages.{enrolled}
use mass_worker_llama_cpp.Settings.Tests.{memory, memory-Laws}
use mass_worker_llama_cpp.Settings.Credentials.RoundTrip.{Keeps}
use mass_worker_llama_cpp.Runner.Enroll.{
  Identity, RunnerConfig, FirstRead, got, open_session, credentials_of,
}
use mass_worker_llama_cpp.Runner.Enroll.Identities.{Explained, open_session-Explained}

abbrev fresh : Identity
fresh = record { worker_id = []; worker_secret = []; join_token = text "t1" }

abbrev config : RunnerConfig
config = record {
  mass_url = text "https://hub:443";
  ca_file = [];
  worker_name = text "alpha";
  data_dir = text "data";
}

abbrev welcome : FirstRead
welcome = got (enrolled (text "w9") (text "s9"))

abbrev id_of : FirstRead → Bytes
id_of (got (enrolled a b)) = a
id_of _ = []

abbrev secret_of : FirstRead → Bytes
secret_of (got (enrolled a b)) = b
secret_of _ = []

welcome-Keeps :
    (worker_id secret : Bytes)
    → welcome ≡ got (enrolled worker_id secret)
    → Keeps (credentials_of config worker_id secret)
unfolding text ends_in credentials_of
welcome-Keeps worker_id secret h = record {
  has_url = refl;
  mass_url = refl;
  worker_id = ap keepable (sym (ap id_of h));
  worker_secret = ap keepable (sym (ap secret_of h));
  join_token = refl;
  ca_file = refl;
  name = refl;
}

open_session-Explained_example :
    Explained memory config fresh [] welcome (open_session memory config true welcome fresh [])
open_session-Explained_example =
    open_session-Explained memory memory-Laws config fresh [] true welcome welcome-Keeps
