-- ===== src/Fetch/Verified.antt =====
-- What a fetched file is known to be.
use mass_worker_llama_cpp.Prelude.{
  ℕ, zero, suc, none, Bytes, ◌≡◌, inl, inr, Bool-cases, Option-cases,
}
use mass_worker_llama_cpp.Fetch.{
  Disk, Source, FetchError, Rel, rel, bad_name, Fetched, placed, failed, is_mismatch, is_nothing,
  verify_if_given, fetch_local, download_passes, digest_attempts, no_source, download, fetch_cached,
  fetch_remote, fetch_one,
}

module _ (disk : Disk) where
  open disk use {S}

  -- A file that is handed out passes the digest check, if a digest is given, in the state in which it
  -- is handed out.
  abbrev pub Checked : Source → S × Fetched → Type 0
  Checked f (s, placed path) = verify_if_given disk path f.sha256 s ≡ none
  Checked f (s, failed e) = Unit {0}

  local-Checked : (f : Source) (s : S) → Checked f (fetch_local disk f s)
  unfolding fetch_local
  local-Checked f s = elim (Bool-cases (disk.exists f.local_path s)) [
    | inr e ↦ rw e tt
    | inl e ↦ rw e (elim (Option-cases (verify_if_given disk f.local_path f.sha256 s)) [
      | inl k ↦ rw (k, fetch_local) k
      | inr (x, k) ↦ rw (k, fetch_local) tt
    ])
  ]

  passes-Checked :
      (passes : ℕ) (last : FetchError) (f : Source) (local : Bytes) (s : S)
      → Checked f (download_passes disk passes last f local s)
  unfolding download_passes
  passes-Checked zero last f local s = tt
  passes-Checked (suc passes) last f local s =
      let d = disk.download_and_place f.url local s in
      elim (Option-cases d.1) [
        | inr (x, e) ↦ rw (e, download_passes) tt
        | inl e ↦
            rw (e, download_passes)
              (elim (Option-cases (verify_if_given disk local f.sha256 d.0)) [
                | inl k ↦ rw (k, download_passes) k
                | inr (x, k) ↦
                    rw (k, download_passes)
                      (elim (Bool-cases (is_mismatch x.code)) [
                        | inl m ↦ rw m (passes-Checked passes x f local (disk.remove local d.0))
                        | inr m ↦ rw m tt
                      ])
              ])
      ]

  download-Checked : (f : Source) (name : Bytes) (s : S) → Checked f (download disk f name s)
  unfolding download
  download-Checked f name s = elim (Bool-cases (is_nothing f.url)) [
    | inl e ↦ rw e tt
    | inr e ↦
        let made = disk.create_directories (disk.join name) s in
        rw e (elim (Option-cases made.1) [
          | inr (x, k) ↦ rw (k, download) tt
          | inl k ↦
              rw (k, download)
                (passes-Checked digest_attempts (no_source name) f (disk.join name) made.0)
        ])
  ]

  cached-Checked : (f : Source) (name : Bytes) (s : S) → Checked f (fetch_cached disk f name s)
  unfolding fetch_cached
  cached-Checked f name s = elim (Bool-cases (disk.exists (disk.join name) s)) [
    | inr e ↦ rw e (download-Checked f name s)
    | inl e ↦ rw e (elim (Option-cases (verify_if_given disk (disk.join name) f.sha256 s)) [
      | inl k ↦ rw (k, fetch_cached) k
      | inr (x, k) ↦
          rw (k, fetch_cached)
            (elim (Bool-cases (is_mismatch x.code)) [
              | inl m ↦ rw m (download-Checked f name (disk.remove (disk.join name) s))
              | inr m ↦ rw m tt
            ])
    ])
  ]

  remote-Checked : (f : Source) (r : Rel) (s : S) → Checked f (fetch_remote disk f r s)
  unfolding fetch_remote
  remote-Checked f (bad_name e) s = tt
  remote-Checked f (rel name) s = cached-Checked f name s

  -- A model file with a digest is handed out only if the file at the path has that digest at that
  -- moment, whether it is shared in place, reused from the cache or downloaded, once or twice.
  pub fetch_one-Checked : (f : Source) (s : S) → Checked f (fetch_one disk f s)
  unfolding fetch_one
  fetch_one-Checked f s = elim (Bool-cases (is_nothing f.local_path)) [
    | inl e ↦ rw e (remote-Checked f _ s)
    | inr e ↦ rw e (local-Checked f s)
  ]
