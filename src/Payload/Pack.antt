-- ===== src/Payload/Pack.antt =====
-- src/payload_pack.cpp: writing an installer, a host executable with a payload behind it.
pub mod Plan
pub mod RoundTrip
pub mod Trailers
pub mod Archives
pub mod Items
mod Tests
use mass_worker_llama_cpp.Prelude.{
  ℕ, zero, suc, ◌+◌, ◌-◌, ◌*◌, ◌/◌, ◌%◌, ◌^◌, Bool, true, false, ◌&&◌, ◌||◌, not, List, [], ◌∷◌,
  ◌++◌, Option, none, some, Bytes, text, text_eq, length, get_elem?, ◌==◌, if◌then◌else◌,
}
use mass_worker_llama_cpp.Payload.{magic_prefix, magic_format}

-- `put_u32_le` and `put_u64_le`: the lowest `k` bytes of a number.
unfoldable pub put_le : ℕ → ℕ → Bytes
put_le zero v = []
put_le (suc k) v = (v % 256) ∷ put_le k (v / 256)

unfoldable pub put_name : Bytes → Bytes
unfolding put_le
put_name name = put_le 4 (length name) ++ name

-- The files to pack. They do not change while they are packed.
pub record Files : Type 0 where
  pub exists : Bytes → Bool
  pub equivalent : Bytes → Bytes → Bool
  pub content : Bytes → Option Bytes

-- The compressor gives one frame, or an error.
pub record Deflate : Type 0 where
  pub has_context : Bool
  pub compress : Bytes → Option Bytes

-- `fs::path(f).filename()`: what stands behind the last '/'.
filename_from : Bytes → Bytes → Bytes
filename_from name [] = name
filename_from name (c ∷ s) =
    if c == b'/' then filename_from [] s else filename_from (name ++ (c ∷ [])) s

pub record Entry : Type 0 where
  pub path : Bytes
  pub name : Bytes
  pub alias_of : Option ℕ

pub data PackError : Type 0 where
  no_files no_context : PackError
  no_filename duplicate missing cannot_read cannot_compress : Bytes → PackError

unfoldable pub has_name : Bytes → List Entry → Bool
has_name name [] = false
has_name name (e ∷ es) = text_eq e.name name || has_name name es

is_first : Entry → Bool
is_first e = elim e.alias_of [ none ↦ true | some i ↦ false ]

-- The first entry of its own that is the same file.
alias_from : Files → ℕ → Bytes → List Entry → Option ℕ
unfolding is_first
alias_from fs i path [] = none
alias_from fs i path (e ∷ es) =
    let rest = alias_from fs (suc i) path es in
    if is_first e && fs.equivalent e.path path then some i else rest

pub data Planned : Type 0 where
  refused : PackError → Planned
  planned : List Entry → Planned

plan_entry : Files → List Entry → Bytes → Bytes → Planned
unfolding alias_from has_name
plan_entry fs entries path name =
    if text_eq name []
    then refused (no_filename path)
    else if has_name name entries
    then refused (duplicate name)
    else if not (fs.exists path)
    then refused (missing path)
    else planned (
        entries
        ++ (record { path = path; name = name; alias_of = alias_from fs 0 path entries } ∷ []))

plan_from : Files → List Entry → List Bytes → Planned
unfolding plan_entry filename_from
plan_from fs entries [] = planned entries
plan_from fs entries (f ∷ files) = elim (plan_entry fs entries f (filename_from [] f)) [
  | refused e ↦ refused e
  | planned es ↦ plan_from fs es files
]

pub plan_entries : Files → List Bytes → Planned
unfolding plan_from
plan_entries fs files = plan_from fs [] files

pub data Packed : Type 0 where
  pack_failed : PackError → Packed
  packed : Bytes → Packed

-- An alias always names an entry that is there.
abbrev pub name_of : Option Entry → Bytes
name_of none = []
name_of (some e) = e.name

framed : Bytes → Bytes → Option Bytes → Packed
framed name s none = pack_failed (cannot_compress name)
framed name s (some frame) =
    packed (put_name name ++ (0 ∷ (put_le 8 (length s) ++ (put_le 8 (length frame) ++ frame))))

file_entry : Deflate → Entry → Option Bytes → Packed
unfolding framed
file_entry z e none = pack_failed (cannot_read e.path)
file_entry z e (some s) = framed e.name s (z.compress s)

alias_entry : Bytes → Bytes → Packed
alias_entry name target = packed (put_name name ++ (1 ∷ put_name target))

pack_entry : Files → Deflate → List Entry → Entry → Option ℕ → Packed
unfolding file_entry alias_entry
pack_entry fs z entries e (some i) = alias_entry e.name (name_of (get_elem? entries i))
pack_entry fs z entries e none = file_entry z e (fs.content e.path)

-- The first error ends the packing.
both : Packed → Packed → Packed
both (pack_failed e) q = pack_failed e
both (packed b) (pack_failed e) = pack_failed e
both (packed b) (packed c) = packed (b ++ c)

pub pack_entries : Files → Deflate → List Entry → List Entry → Packed
pack_entries fs z entries [] = packed []
pack_entries fs z entries (e ∷ es) =
    both (pack_entry fs z entries e e.alias_of) (pack_entries fs z entries es)

pub trailer : ℕ → ℕ → Bytes
trailer size count = put_le 8 size ++ (put_le 8 count ++ (magic_prefix ++ (magic_format ∷ [])))

finished : Bytes → ℕ → Packed → Packed
unfolding trailer
finished host count (pack_failed e) = pack_failed e
finished host count (packed body) = packed (host ++ (body ++ trailer (length body) count))

with_host : Files → Deflate → Bytes → List Entry → Option Bytes → Packed
unfolding finished pack_entries
with_host fs z path entries none = pack_failed (cannot_read path)
with_host fs z path entries (some host) =
    finished host (length entries) (pack_entries fs z entries entries)

pack_planned : Files → Deflate → Bytes → Planned → Packed
unfolding with_host
pack_planned fs z host (refused e) = pack_failed e
pack_planned fs z host (planned entries) =
    if not z.has_context
    then pack_failed no_context
    else with_host fs z host entries (fs.content host)

-- What is in the output file at the end; its own failures are not modelled.
pub append_payload : Files → Deflate → Bytes → List Bytes → Packed
unfolding pack_planned plan_entries
append_payload fs z host [] = pack_failed no_files
append_payload fs z host (f ∷ files) = pack_planned fs z host (plan_entries fs (f ∷ files))
