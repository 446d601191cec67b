-- ===== src/Fetch/Ladder.antt =====
-- `write_cb`, `download_attempt` and `download_and_place` of src/fetch.cpp: one download as a ladder of
-- attempts that resume a partial file. What libcurl and the disk come back with in each attempt is a
-- parameter; the texts of the errors and the sleeps are left out.
pub mod Transfers
pub mod Attempts
pub mod Whole
mod Tests
use mass_worker_llama_cpp.Prelude.{
  ℕ, zero, suc, ◌+◌, ◌-◌, Bool, true, false, ◌&&◌, ◌||◌, not, List, [], ◌∷◌, ◌++◌, Option, none,
  some, Bytes, length, min, ltb, ◌==◌, if◌then◌else◌,
}
use mass_worker_llama_cpp.Prelude.Slices.{take}
use mass_worker_llama_cpp.Fetch.{
  FetchErrorCode, io_error, download_failed, download_failure_is_retryable,
}

-- One call of `write_cb`: the bytes, whether the fetch is cancelled by then, the status of the
-- response, and what `fwrite` does with the bytes.
pub record Chunk : Type 0 where
  pub bytes : Bytes
  pub cancelled : Bool
  pub status : ℕ
  pub accepted : ℕ
  pub errno : ℕ

-- `file` is what was written to the stream of the temporary file.
pub record WriteCtx : Type 0 where
  pub file : Bytes
  pub write_errno : ℕ
  pub range_ignored : Bool
  pub checked_response : Bool

pub fwrite : Chunk → WriteCtx → WriteCtx × ℕ
fwrite c ctx =
    let written = min c.accepted (length c.bytes) in
    (
      record ctx {
        file = ctx.file ++ take written c.bytes;
        write_errno =
            if ltb written (length c.bytes) && (ctx.write_errno == 0)
            then c.errno
            else ctx.write_errno;
      },
      written,
    )

-- Only a 206, or a protocol without a status, may be appended to a partial file.
abbrev pub resumes : ℕ → Bool
resumes status = status == 0 || status == 206

unconfirmed : Bool → Chunk → WriteCtx → WriteCtx × ℕ
unconfirmed true c ctx = fwrite c (record ctx { checked_response = true })
unconfirmed false c ctx = (record ctx { checked_response = true; range_ignored = true }, 0)

confirmed : Bool → Chunk → WriteCtx → WriteCtx × ℕ
unfolding unconfirmed fwrite
confirmed true c ctx = unconfirmed (resumes c.status) c ctx
confirmed false c ctx = fwrite c ctx

write_cb : Bool → Chunk → WriteCtx → WriteCtx × ℕ
unfolding confirmed
write_cb expect_partial c ctx =
    if c.cancelled then (ctx, 0) else confirmed (expect_partial && not ctx.checked_response) c ctx

-- libcurl aborts at a short write: the context, and whether it aborted.
pub transfer : Bool → List Chunk → WriteCtx → WriteCtx × Bool
unfolding write_cb
transfer expect_partial [] ctx = (ctx, false)
transfer expect_partial (c ∷ cs) ctx =
    let r = write_cb expect_partial c ctx in
    let rest = transfer expect_partial cs r.0 in if r.1 == length c.bytes then rest else (r.0, true)

-- `CURLcode`, as far as the code tells the codes apart.
pub data CurlCode : Type 0 where
  ok range_error other : CurlCode

-- What one attempt meets: libcurl, the disk, and the cancel flag at its end and behind it.
pub record Round : Type 0 where
  pub curl_inits : Bool
  pub file_opens : Bool
  pub chunks : List Chunk
  pub code : CurlCode
  pub flushed : Option ℕ  -- unless all of the file, its bytes on the disk after `fclose`
  pub http_status : ℕ
  pub cancelled : Bool
  pub stopped : Bool
  pub removes : Bool

pub record AttemptFailure : Type 0 where
  pub code : FetchErrorCode
  pub terminal : Bool
  pub discard_partial : Bool

abbrev fails : FetchErrorCode → Bool → Bool → Option AttemptFailure
fails code terminal discard =
    some (record { code = code; terminal = terminal; discard_partial = discard })

-- The end of an attempt that libcurl calls failed; `no_space` is ENOSPC.
judge_failure : ℕ → Round → Bool → WriteCtx → Option AttemptFailure
judge_failure no_space r is_range ctx =
    if r.cancelled
    then fails download_failed true false
    else if ctx.range_ignored || is_range
    then fails download_failed false true
    else if ctx.write_errno == no_space
    then fails io_error (not (download_failure_is_retryable no_space r.http_status ctx.write_errno))
        false
    else fails download_failed
        (not (download_failure_is_retryable no_space r.http_status ctx.write_errno)) false

-- A resume that no response confirmed is no success.
judge : ℕ → Round → ℕ → CurlCode → WriteCtx → Option AttemptFailure
unfolding judge_failure
judge no_space r from_offset ok ctx =
    if ltb 0 from_offset && not ctx.checked_response then fails download_failed false true else none
judge no_space r from_offset range_error ctx = judge_failure no_space r true ctx
judge no_space r from_offset other ctx = judge_failure no_space r false ctx

abbrev content_of : Option Bytes → Bytes
content_of none = []
content_of (some s) = s

-- What is on the disk once the stream is closed; that `fclose` failed is not looked at.
on_disk : Option ℕ → Bytes → Bytes
on_disk none s = s
on_disk (some n) s = take n s

-- The file after an attempt, and the failure of the attempt.
transferred : ℕ → Round → ℕ → WriteCtx × Bool → Option Bytes × Option AttemptFailure
unfolding judge on_disk
transferred no_space r from_offset (ctx, aborted) = (
  some (on_disk r.flushed ctx.file),
  judge no_space r from_offset (if aborted then other else r.code) ctx,
)

-- The file is opened to append from an offset on, and emptied otherwise.
abbrev starting : ℕ → Option Bytes → WriteCtx
starting zero tmp = record {
  file = [];
  write_errno = 0;
  range_ignored = false;
  checked_response = false;
}
starting (suc o) tmp = record {
  file = content_of tmp;
  write_errno = 0;
  range_ignored = false;
  checked_response = false;
}

pub download_attempt : ℕ → Round → ℕ → Option Bytes → Option Bytes × Option AttemptFailure
unfolding transferred transfer
download_attempt no_space r from_offset tmp =
    let got =
      transferred no_space r from_offset
        (transfer (ltb 0 from_offset) r.chunks (starting from_offset tmp)) in
    if not r.curl_inits
    then (tmp, fails download_failed true false)
    else if not r.file_opens
    then (tmp, fails io_error true false)
    else got

resume_from : Bool → Option Bytes → ℕ
resume_from size_known none = 0
resume_from size_known (some s) = if size_known then length s else 0

-- The temporary file, and the error of the ladder.
discarded : Round → AttemptFailure → Option Bytes → Option Bytes
discarded r f tmp = if f.discard_partial && r.removes then none else tmp

gives_up : Round → AttemptFailure → Bool
gives_up r f = r.stopped || f.terminal

-- `left` attempts are left behind this one.
next_attempt :
    Round
    → ℕ
    → Option Bytes × Option AttemptFailure
    → (Option Bytes → Option Bytes × Option FetchErrorCode)
    → Option Bytes × Option FetchErrorCode
unfolding discarded gives_up
next_attempt r left (tmp, none) again = (tmp, none)
next_attempt r left (tmp, some f) again =
    let kept = if r.stopped then tmp else discarded r f tmp in
    let rest = again kept in if gives_up r f || (left == 0) then (kept, some f.code) else rest

-- `sizes` says whether the size of the partial file can be read in an attempt, and `rounds` what
-- an attempt meets that asks for an offset.
module _ (no_space : ℕ) (sizes : ℕ → Bool) (rounds : ℕ → ℕ → Round) where
  attempt_from :
      ℕ
      → ℕ
      → Option Bytes
      → (Option Bytes → Option Bytes × Option FetchErrorCode)
      → Option Bytes × Option FetchErrorCode
  unfolding next_attempt download_attempt
  attempt_from left offset tmp again =
      next_attempt (rounds left offset) left
        (download_attempt no_space (rounds left offset) offset tmp) again

  pub ladder : ℕ → Option Bytes → Option Bytes × Option FetchErrorCode
  unfolding attempt_from resume_from
  ladder zero tmp = (tmp, none)
  ladder (suc left) tmp = attempt_from left (resume_from (sizes left) tmp) tmp (ladder left)

-- `fs::rename` and `fs::copy_file`.
pub record Finish : Type 0 where
  pub renames : Bool
  pub copies : Bool

-- The file in its place, or the error.
pub data Placed : Type 0 where
  placed : Option Bytes → Placed
  not_placed : FetchErrorCode → Placed

finished : Finish → Option Bytes × Option FetchErrorCode → Placed
finished f (tmp, some e) = not_placed e
finished f (tmp, none) =
    if f.renames then placed tmp else if f.copies then placed tmp else not_placed io_error

-- Three attempts.
pub download_and_place : ℕ → (ℕ → Bool) → (ℕ → ℕ → Round) → Finish → Option Bytes → Placed
unfolding finished ladder
download_and_place no_space sizes rounds f tmp = finished f (ladder no_space sizes rounds 3 tmp)
