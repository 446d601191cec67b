-- ===== src/Payload.antt =====
-- src/payload.cpp: reading the payload that is appended to the installer. Offsets are `uint64_t` and
-- wrap around. An archive is the bytes of the file, and `zstd` and the install directory are
-- parameters; a call that fails hands back what it left in the directory, too.
pub mod Numbers
pub mod Pack
pub mod Install
pub mod Records
pub mod Safe
use mass_worker_llama_cpp.Prelude.{
  ℕ, zero, suc, ◌+◌, ◌-◌, ◌*◌, ◌%◌, ◌^◌, Bool, true, false, ◌&&◌, ◌||◌, not, List, [], ◌∷◌, ◌++◌,
  Option, none, some, Bytes, text, text_eq, length, ltb, ◌==◌, if◌then◌else◌,
}
use mass_worker_llama_cpp.Prelude.Slices.{take, drop}

-- What streaming decompression of some bytes comes to: an error or the end of the bytes after some
-- output, or a whole frame with what stands behind it.
pub data Frame : Type 0 where
  bad : Bytes → Frame
  cut : Bytes → Frame
  whole : Bytes → Bytes → Frame

pub record Zstd : Type 0 where
  pub has_context : Bool
  pub inflate : Bytes → Frame

-- The install directory: calls that may fail, by the leaf name of a file. `write_part` is what the
-- decompressor has written of a file by the time its data turns out to be corrupt.
pub record Dest : Type 1 where
  pub W : Type 0
  pub prepare : W → Bool × W
  pub open_file : Bytes → W → Bool × W
  pub write : Bytes → Bytes → W → Bool × W
  pub write_part : Bytes → W → W
  pub copy_file : Bytes → Bytes → W → Bool × W
  pub make_executable : Bytes → W → W

pub data PayloadError : Type 0 where
  no_self cannot_open no_payload no_context no_directory truncated_name : PayloadError
  bad_format unknown_kind : ℕ → PayloadError
  unsafe_name truncated_kind truncated_target unsafe_target : Bytes → PayloadError
  copy_failed truncated_sizes truncated_data open_failed corrupt write_failed : Bytes → PayloadError

abbrev pub wrap : ℕ → ℕ
wrap n = n % 2 ^ 64

-- `read_at`: a short read fails.
unfoldable pub read_at : Bytes → ℕ → ℕ → Option Bytes
read_at a offset n = let s = take n (drop offset a) in if length s == n then some s else none

-- `load_u64_le` and `load_u32_le`.
unfoldable pub load_le : Bytes → ℕ
load_le [] = 0
load_le (b ∷ s) = b + 256 * load_le s

pub record Trailer : Type 0 where
  pub payload_size : ℕ
  pub file_count : ℕ
  pub file_size : ℕ
  pub format : ℕ

abbrev pub trailer_size : ℕ
trailer_size = 24

abbrev pub magic_prefix : Bytes
magic_prefix = text "MWPLOAD"

abbrev pub magic_format : ℕ
magic_format = b'2'

abbrev pub first : Bytes → ℕ
first [] = 0
first (b ∷ s) = b

trailer_of : ℕ → Bytes → Trailer
unfolding load_le
trailer_of size buf = record {
  payload_size = load_le (take 8 buf);
  file_count = load_le (take 8 (drop 8 buf));
  file_size = size;
  format = first (drop 23 buf);
}

-- The sum of the sizes wraps around too.
fitting : Trailer → Option Trailer
fitting t = if ltb t.file_size (wrap (t.payload_size + trailer_size)) then none else some t

pub parse_trailer : ℕ → Option Bytes → Option Trailer
unfolding fitting trailer_of
parse_trailer size none = none
parse_trailer size (some buf) =
    if text_eq (take 7 (drop 16 buf)) magic_prefix then fitting (trailer_of size buf) else none

unfoldable pub read_trailer : Bytes → Option Trailer
unfolding parse_trailer read_at
read_trailer a =
    if ltb (length a) trailer_size
    then none
    else parse_trailer (length a) (read_at a (length a - trailer_size) trailer_size)

abbrev is_some : Option Trailer → Bool
is_some none = false
is_some (some t) = true

-- `none` is a file that cannot be opened.
unfoldable pub has_payload : Option Bytes → Bool
unfolding read_trailer
has_payload none = false
has_payload (some a) = is_some (read_trailer a)

abbrev pub is_separator : ℕ → Bool
is_separator c = c == b'/' || (c == b'\\' || c == b':')

abbrev pub no_separator : Bytes → Bool
no_separator [] = true
no_separator (c ∷ s) = not (is_separator c) && no_separator s

abbrev pub nonempty : Bytes → Bool
nonempty [] = false
nonempty (c ∷ s) = true

unfoldable pub safe_entry_name : Bytes → Bool
safe_entry_name name = nonempty name && no_separator name

-- The checks of `Inflater::run` on what came out.
checked : ℕ → Bytes → Bool → Option Bytes
checked raw_size out ok = if ok && (length out == raw_size) then some out else none

inflated : ℕ → Frame → Option Bytes
unfolding checked
inflated raw_size (bad out) = none
inflated raw_size (cut out) = none
inflated raw_size (whole out rest) = checked raw_size out (not (nonempty rest))

-- `Inflater::run`: with no bytes the decompressor is not called.
inflate_record : Zstd → ℕ → Option Bytes → Option Bytes
unfolding inflated
inflate_record z raw_size none = none
inflate_record z raw_size (some []) = none
inflate_record z raw_size (some (b ∷ s)) = inflated raw_size (z.inflate (b ∷ s))

-- One record: the offset behind it, or the error that ends the extraction, and the directory.
pub data Step (W : Type 0) : Type 0 where
  stop : PayloadError → W → Step W
  next : ℕ → W → Step W

module _ (a : Bytes) (end : ℕ) where
  taken : ℕ → ℕ → Option Bytes → Option (Bytes × ℕ)
  taken off n none = none
  taken off n (some s) = some (s, wrap (off + n))

  unfoldable pub take_bytes : ℕ → ℕ → Option (Bytes × ℕ)
  unfolding taken read_at
  take_bytes off n =
      let s = taken off n (read_at a off n) in if ltb end (wrap (off + n)) then none else s

  named : Option (Bytes × ℕ) → Option (Bytes × ℕ)
  unfolding take_bytes load_le
  named none = none
  named (some (len, off)) = take_bytes off (load_le len)

  unfoldable pub take_name : ℕ → Option (Bytes × ℕ)
  unfolding named take_bytes
  take_name off = named (take_bytes off 4)

module _ (z : Zstd) (d : Dest) (a : Bytes) (end : ℕ) where
  executable : Bytes → ℕ → PayloadError → Bool × d.W → Step d.W
  executable name off e (false, w) = stop e w
  executable name off e (true, w) = next off (d.make_executable name w)

  unpacked : Bytes → ℕ → d.W → Option Bytes → Step d.W
  unfolding executable
  unpacked name off w none = stop (corrupt name) (d.write_part name w)
  unpacked name off w (some out) = executable name off (write_failed name) (d.write name out w)

  opened : Bytes → ℕ → ℕ → ℕ → Bool × d.W → Step d.W
  unfolding unpacked inflate_record read_at
  opened name raw_size comp_size off (false, w) = stop (open_failed name) w
  opened name raw_size comp_size off (true, w) =
      unpacked name (wrap (off + comp_size)) w (inflate_record z raw_size (read_at a off comp_size))

  file_data : Bytes → ℕ → ℕ → ℕ → d.W → Step d.W
  unfolding opened
  file_data name raw_size comp_size off w =
      let r = opened name raw_size comp_size off (d.open_file name w) in
      if ltb end (wrap (off + comp_size)) then stop (truncated_data name) w else r

  file_record : Bytes → d.W → Option (Bytes × ℕ) → Step d.W
  unfolding file_data load_le
  file_record name w none = stop (truncated_sizes name) w
  file_record name w (some (sizes, off)) =
      file_data name (load_le (take 8 sizes)) (load_le (drop 8 sizes)) off w

  alias_record : Bytes → d.W → Option (Bytes × ℕ) → Step d.W
  unfolding executable safe_entry_name
  alias_record name w none = stop (truncated_target name) w
  alias_record name w (some (target, off)) =
      if safe_entry_name target
      then executable name off (copy_failed name) (d.copy_file target name w)
      else stop (unsafe_target target) w

  record_body : Bytes → d.W → Option (Bytes × ℕ) → Step d.W
  unfolding alias_record file_record take_name take_bytes
  record_body name w none = stop (truncated_kind name) w
  record_body name w (some (kind, off)) =
      if first kind == 1
      then alias_record name w (take_name a end off)
      else if first kind == 0
      then file_record name w (take_bytes a end off 16)
      else stop (unknown_kind (first kind)) w

  named_record : d.W → Option (Bytes × ℕ) → Step d.W
  unfolding record_body safe_entry_name
  named_record w none = stop truncated_name w
  named_record w (some (name, off)) =
      if safe_entry_name name
      then record_body name w (take_bytes a end off 1)
      else stop (unsafe_name name) w

pub data Extracted (W : Type 0) : Type 0 where
  failed : PayloadError → W → Extracted W
  done : ℕ → W → Extracted W

and_then : {W : Type 0} → Step W → (ℕ → W → Extracted W) → Extracted W
and_then (stop e w) f = failed e w
and_then (next off w) f = f off w

module _ (z : Zstd) (d : Dest) where
  -- `left` records from `off` on, when `written` have been written.
  pub records : Bytes → ℕ → ℕ → ℕ → ℕ → d.W → Extracted d.W
  records a end zero written off w = done written w
  records a end (suc left) written off w =
      and_then (named_record z d a end w (take_name a end off)) (records a end left (suc written))

  prepared : Bytes → Trailer → Bool × d.W → Extracted d.W
  prepared a t (false, w) = failed no_directory w
  prepared a t (true, w) =
      records a (t.file_size - trailer_size) t.file_count 0
        (wrap (t.file_size - trailer_size + (2 ^ 64 - t.payload_size))) w

  with_trailer : Bytes → d.W → Option Trailer → Extracted d.W
  unfolding prepared
  with_trailer a w none = failed no_payload w
  with_trailer a w (some t) =
      if not (t.format == magic_format)
      then failed (bad_format t.format) w
      else if not z.has_context
      then failed no_context w
      else prepared a t (d.prepare w)

  -- `none` is a file that cannot be opened.
  pub extract_payload : Option Bytes → d.W → Extracted d.W
  unfolding with_trailer read_trailer
  extract_payload none w = failed cannot_open w
  extract_payload (some a) w = with_trailer a w (read_trailer a)

  -- The running executable: `none` if its path is not known.
  pub extract_appended_payload : Option (Option Bytes) → d.W → Extracted d.W
  unfolding extract_payload
  extract_appended_payload none w = failed no_self w
  extract_appended_payload (some archive) w = extract_payload archive w

pub has_appended_payload : Option (Option Bytes) → Bool
unfolding has_payload
has_appended_payload none = false
has_appended_payload (some archive) = has_payload archive
