-- ===== src/TermInput.antt =====
-- src/term_input.cpp: the keys in what a terminal sends. A stream is what the calls of `read` on the
-- terminal give in turn; the terminal's modes are left out.
pub mod Sequences
mod Tests
use mass_worker_llama_cpp.Prelude.{
  ℕ, zero, suc, Bool, true, false, ◌&&◌, ◌||◌, not, List, [], ◌∷◌, ◌++◌, Option, none, some, Bytes,
  text, text_eq, leb, ◌==◌, if◌then◌else◌,
}

pub data KeyType : Type 0 where
  k_none k_char k_enter k_backspace k_tab k_esc k_up k_down k_left k_right : KeyType
  k_ctrl_left k_ctrl_right k_home k_end k_ctrl_c k_eof k_unknown : KeyType

pub record Key : Type 0 where
  pub key_type : KeyType
  pub key_byte : ℕ

-- One call of `read`: a byte, 0 (the end of the input, or the time is up) or an error.
pub data Reading : Type 0 where
  read_byte : ℕ → Reading
  read_none : Reading
  read_failed : Reading

abbrev pub Stream : Type 0
Stream = List Reading

abbrev pub of_type : KeyType → Key
of_type t = record { key_type = t; key_byte = 0 }

abbrev pub of_byte : ℕ → Key
of_byte c = record { key_type = k_char; key_byte = c }

byte_of : Reading → Option ℕ
byte_of (read_byte c) = some c
byte_of read_none = none
byte_of read_failed = none

-- The `next` of `read_key`.
next : Stream → Option ℕ × Stream
next [] = (none, [])
next (r ∷ s) = (byte_of r, s)

-- The first switch.
control : ℕ → Option KeyType
control c =
    if c == 13 || c == 10
    then some k_enter
    else if c == 9
    then some k_tab
    else if c == 127
    then some k_backspace
    else if c == 8
    then some k_backspace
    else if c == 3
    then some k_ctrl_c
    else none

pub is_report_end : ℕ → Bool
is_report_end p = p == b'M' || p == b'm'

skip_report : Stream → Stream
skip_report [] = []
skip_report (read_none ∷ s) = s
skip_report (read_failed ∷ s) = s
skip_report (read_byte p ∷ s) = let rest = skip_report s in if is_report_end p then s else rest

skip_bytes : ℕ → Stream → Stream
skip_bytes zero s = s
skip_bytes (suc n) [] = []
skip_bytes (suc n) (read_none ∷ s) = s
skip_bytes (suc n) (read_failed ∷ s) = s
skip_bytes (suc n) (read_byte p ∷ s) = skip_bytes n s

-- The second switch.
pub final_key : ℕ → Option KeyType
final_key c =
    if c == b'A'
    then some k_up
    else if c == b'B'
    then some k_down
    else if c == b'C'
    then some k_right
    else if c == b'D'
    then some k_left
    else if c == b'H'
    then some k_home
    else if c == b'F'
    then some k_end
    else none

pub is_digit : ℕ → Bool
is_digit c = leb b'0' c && leb c b'9'

pub is_param : ℕ → Bool
is_param c = is_digit c || c == b';'

-- The parameters and the final byte, which is 0 when none comes.
collect : Bytes → Stream → (Bytes × ℕ) × Stream
collect params [] = ((params, 0), [])
collect params (read_none ∷ s) = ((params, 0), s)
collect params (read_failed ∷ s) = ((params, 0), s)
collect params (read_byte p ∷ s) =
    let rest = collect (params ++ (p ∷ [])) s in if is_param p then rest else ((params, p), s)

is_modified : Bytes → Bool
is_modified params =
    text_eq params (text "1;5") || text_eq params (text "1;3") || text_eq params (text "1;2")

named_key : Bytes → KeyType
named_key params =
    if text_eq params (text "1") || text_eq params (text "7")
    then k_home
    else if text_eq params (text "4") || text_eq params (text "8")
    then k_end
    else k_unknown

pub param_key : Bytes → ℕ → KeyType
param_key params final_byte =
    if is_modified params && final_byte == b'C'
    then k_ctrl_right
    else if is_modified params && final_byte == b'D'
    then k_ctrl_left
    else if final_byte == b'~'
    then named_key params
    else k_unknown

params_key : (Bytes × ℕ) × Stream → Key × Stream
params_key ((params, final_byte), s) = (of_type (param_key params final_byte), s)

finished : ℕ → Option KeyType → Stream → Key × Stream
finished b2 (some t) s = (of_type t, s)
finished b2 none s =
    let params = params_key (collect (b2 ∷ []) s) in
    if is_digit b2 then params else (of_type k_unknown, s)

introduced : ℕ → Option ℕ × Stream → Key × Stream
introduced b1 (none, s) = (of_type k_esc, s)
introduced b1 (some b2, s) =
    if b1 == b'[' && b2 == b'<'
    then (of_type k_unknown, skip_report s)
    else if b1 == b'[' && b2 == b'M'
    then (of_type k_unknown, skip_bytes 3 s)
    else finished b2 (final_key b2) s

escaped : Option ℕ × Stream → Key × Stream
escaped (none, s) = (of_type k_esc, s)
escaped (some b1, s) =
    if not (b1 == b'[') && not (b1 == b'O') then (of_type k_esc, s) else introduced b1 (next s)

keyed : ℕ → Option KeyType → Stream → Key × Stream
keyed first (some t) s = (of_type t, s)
keyed first none s = if not (first == 27) then (of_byte first, s) else escaped (next s)

pub parse_key : ℕ → Stream → Key × Stream
parse_key first s = keyed first (control first) s

-- `none` for `KReadFailed`; `opened` says that the terminal is held.
pub read_key : Bool → Stream → Option Key × Stream
read_key false s = (none, s)
read_key true [] = (some (of_type k_eof), [])
read_key true (read_none ∷ s) = (some (of_type k_eof), s)
read_key true (read_failed ∷ s) = (none, s)
read_key true (read_byte first ∷ s) = let r = parse_key first s in (some r.0, r.1)
