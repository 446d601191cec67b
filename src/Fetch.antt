-- ===== src/Fetch.antt =====
-- src/fetch.cpp: `Fetcher::fetch_one`, the name under which a file is kept, and which failed
-- downloads are tried again. The disk, the digest and the download itself are a parameter.
pub mod Ladder
pub mod Verified
mod Tests
use mass_worker_llama_cpp.Prelude.{
  ℕ, zero, suc, Bool, true, false, ◌&&◌, ◌||◌, not, List, [], ◌∷◌, ◌++◌, map, Option, none, some,
  Bytes, text, text_eq, any, ltb, leb, ◌==◌, if◌then◌else◌,
}
use mass_worker_llama_cpp.Service.Errors.{to_lower, finds}

-- ENOSPC is `no_space`, the platform's number for a full disk.
pub download_failure_is_retryable : ℕ → ℕ → ℕ → Bool
download_failure_is_retryable no_space http_status write_errno =
    if write_errno == no_space
    then false
    else if http_status == 0
    then true
    else if http_status == 408 || http_status == 429
    then true
    else ltb http_status 400 || leb 500 http_status

pub data FetchErrorCode : Type 0 where
  invalid_filename loopback_unreachable sha256_mismatch download_failed : FetchErrorCode
  no_source_provided duplicate_role no_primary_role io_error : FetchErrorCode

pub record FetchError : Type 0 where
  pub code : FetchErrorCode
  pub message : Bytes

pub data Digest : Type 0 where
  unreadable : Bytes → Digest
  digest : Bytes → Digest

-- The file system and the transfer. `normal` is `lexically_normal` in generic form, `url_path` the
-- path of a URL, and a failed download is an error.
pub record Disk : Type 1 where
  pub S : Type 0
  pub exists : Bytes → S → Bool
  pub digest_of : Bytes → S → Digest
  pub remove : Bytes → S → S
  pub create_directories : Bytes → S → S × Option Bytes
  pub normal : Bytes → Bytes
  pub is_absolute : Bytes → Bool
  pub join : Bytes → Bytes
  pub url_path : Bytes → Bytes
  pub download_and_place : Bytes → Bytes → S → S × Option FetchError

pub data Rel : Type 0 where
  rel : Bytes → Rel
  bad_name : FetchError → Rel

unfoldable pub forward : ℕ → ℕ
forward c = if c == b'\\' then b'/' else c

unfoldable pub trim_left_slashes : Bytes → Bytes
trim_left_slashes [] = []
trim_left_slashes (c ∷ s) = let rest = trim_left_slashes s in if c == b'/' then rest else c ∷ s

invalid : Bytes → Rel
invalid msg = bad_name (record { code = invalid_filename; message = msg })

is_nothing : Bytes → Bool
is_nothing [] = true
is_nothing (c ∷ s) = false

-- `ieq`, on bytes.
ieq : Bytes → Bytes → Bool
ieq a b = text_eq (map to_lower a) (map to_lower b)

-- The fields of `ModelFile` that the fetch of one file reads.
pub record Source : Type 0 where
  pub filename : Bytes
  pub url : Bytes
  pub sha256 : Bytes
  pub local_path : Bytes

module _ (disk : Disk) where
  open disk use {S}

  raw_name : Bytes → Bytes → Bytes
  raw_name [] [] = []
  raw_name [] (u ∷ url) = disk.url_path (u ∷ url)
  raw_name (c ∷ name) url = c ∷ name

  normal_name : Bytes → Bytes → Rel
  unfolding invalid finds is_nothing
  normal_name name s =
      if text_eq s (text ".") || is_nothing s
      then invalid (text "invalid filename: " ++ name)
      else if finds (text "..") s
      then invalid (text "filename contains traversal: " ++ name)
      else if disk.is_absolute s
      then invalid (text "filename must be relative: " ++ name)
      else rel s

  checked_name : Bytes → Rel
  unfolding normal_name any
  checked_name [] = invalid (text "ModelFile has neither filename nor parseable URL")
  checked_name (c ∷ name) =
      if any (λ b. b == b':') (c ∷ name)
      then invalid (text "filename contains ':' (drive or stream hazard): " ++ (c ∷ name))
      else normal_name (c ∷ name) (disk.normal (c ∷ name))

  pub safe_rel_filename : Bytes → Bytes → Rel
  unfolding raw_name checked_name forward trim_left_slashes
  safe_rel_filename filename url =
      checked_name (trim_left_slashes (map forward (raw_name filename url)))

  compare_digest : Bytes → Bytes → Digest → Option FetchError
  unfolding ieq
  compare_digest path want (unreadable msg) = some (record { code = io_error; message = msg })
  compare_digest path want (digest got) =
      if ieq got want
      then none
      else some (record {
        code = sha256_mismatch;
        message =
            text "sha256 mismatch for "
            ++ (path ++ (text ": have " ++ (got ++ (text " want " ++ want))));
      })

  -- `none` is success.
  pub verify_sha256 : Bytes → Bytes → S → Option FetchError
  unfolding compare_digest
  verify_sha256 path want s = compare_digest path want (disk.digest_of path s)

  -- A digest is checked only if one is given.
  pub verify_if_given : Bytes → Bytes → S → Option FetchError
  verify_if_given path [] s = none
  verify_if_given path (c ∷ want) s = verify_sha256 path (c ∷ want) s

pub data Fetched : Type 0 where
  placed : Bytes → Fetched
  failed : FetchError → Fetched

-- kDigestAttempts.
digest_attempts : ℕ
digest_attempts = 2

no_source : Bytes → FetchError
no_source name = record {
  code = no_source_provided;
  message = text "model file " ++ (name ++ text " missing both local copy and download URL");
}

abbrev pub is_mismatch : FetchErrorCode → Bool
is_mismatch sha256_mismatch = true
is_mismatch _ = false

module _ (disk : Disk) where
  open disk use {S}

  -- The file is on this host already.
  fetch_local : Source → S → S × Fetched
  fetch_local f s =
      if disk.exists f.local_path s
      then elim (verify_if_given disk f.local_path f.sha256 s) [
        | none ↦ (s, placed f.local_path)
        | some e ↦ (s, failed e)
      ]
      else (
        s,
        failed (record {
          code = loopback_unreachable;
          message = text "loopback model file unreachable: " ++ f.local_path;
        }),
      )

  -- The passes that are left: a digest that does not match earns one more.
  pub download_passes : ℕ → FetchError → Source → Bytes → S → S × Fetched
  download_passes zero last f local s = (s, failed last)
  download_passes (suc passes) last f local s =
      let (s1, d) = disk.download_and_place f.url local s in
      elim d [
        | some e ↦ (s1, failed e)
        | none ↦ elim (verify_if_given disk local f.sha256 s1) [
          | none ↦ (s1, placed local)
          | some e ↦
              let next = download_passes passes e f local (disk.remove local s1) in
              if is_mismatch e.code then next else (s1, failed e)
        ]
      ]

  download : Source → Bytes → S → S × Fetched
  unfolding download_passes digest_attempts no_source is_nothing
  download f name s =
      let (s1, made) = disk.create_directories (disk.join name) s in
      let fetched = download_passes digest_attempts (no_source name) f (disk.join name) s1 in
      if is_nothing f.url then (s, failed (no_source name)) else elim made [
        | some msg ↦
            (s1, failed (record { code = io_error; message = text "creating cache dir: " ++ msg }))
        | none ↦ fetched
      ]

  -- A file that is there is used if its digest matches, and deleted for a new download if not.
  fetch_cached : Source → Bytes → S → S × Fetched
  unfolding download
  fetch_cached f name s =
      let fresh = download f name s in
      let again = download f name (disk.remove (disk.join name) s) in
      if disk.exists (disk.join name) s
      then elim (verify_if_given disk (disk.join name) f.sha256 s) [
        | none ↦ (s, placed (disk.join name))
        | some e ↦ if is_mismatch e.code then again else (s, failed e)
      ]
      else fresh

  fetch_remote : Source → Rel → S → S × Fetched
  unfolding fetch_cached
  fetch_remote f (bad_name e) s = (s, failed e)
  fetch_remote f (rel name) s = fetch_cached f name s

  pub fetch_one : Source → S → S × Fetched
  unfolding fetch_local fetch_remote is_nothing
  fetch_one f s =
      if is_nothing f.local_path
      then fetch_remote f (safe_rel_filename disk f.filename f.url) s
      else fetch_local f s
