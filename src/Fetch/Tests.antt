-- ===== src/Fetch/Tests.antt =====
-- The theorem on fetched files at a disk whose first download is scrambled.
use mass_worker_llama_cpp.Prelude.{ℕ, suc, false, [], Bytes, text, none}
use mass_worker_llama_cpp.Fetch.{Disk, digest, Source, fetch_one}
use mass_worker_llama_cpp.Fetch.Verified.{Checked, fetch_one-Checked}

-- The digest after that many downloads.
abbrev digest_after : ℕ → Bytes
digest_after (suc (suc n)) = text "AB"
digest_after n = text "00"

abbrev disk : Disk
disk = record {
  S = ℕ;
  exists = λ path n. false;
  digest_of = λ path n. digest (digest_after n);
  remove = λ path n. n;
  create_directories = λ path n. (n, none);
  normal = λ name. name;
  is_absolute = λ name. false;
  join = λ name. name;
  url_path = λ url. url;
  download_and_place = λ url local n. (suc n, none);
}

abbrev wanted : Source
wanted = record {
  filename = text "a.gguf";
  url = text "https://x/a.gguf";
  sha256 = text "ab";
  local_path = [];
}

fetch_one-Checked_example : Checked disk wanted (fetch_one disk wanted 0)
fetch_one-Checked_example = fetch_one-Checked disk wanted 0
