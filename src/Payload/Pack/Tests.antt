-- ===== src/Payload/Pack/Tests.antt =====
-- An installer of two names for one file, and archives that the reader has to refuse.
use mass_worker_llama_cpp.Prelude.{
  ◌^◌, ◌<◌, ◌-◌, Bool, true, false, [], ◌∷◌, Option, none, some, Bytes, List, text, text_eq, length,
  All, if◌then◌else◌, ◌==◌, ◌≡◌, ◌≢◌, refl, sym, ap, ◌∙◌, text_eq_iff, subst, arith, Bool-cases,
  inl, inr,
}
use mass_worker_llama_cpp.Prelude.Map.{Dict, lookup, assign, lookup-assign}
use mass_worker_llama_cpp.Payload.{
  Zstd, Dest, Frame, bad, whole, done, failed, unsafe_name, has_payload, extract_payload, nonempty,
  safe_entry_name, records, and_then, named_record, read_trailer,
}
use mass_worker_llama_cpp.Payload.Install.{install_into}
use mass_worker_llama_cpp.Payload.Safe.{Confined, IsConfined, extract_payload-IsConfined}
use mass_worker_llama_cpp.Payload.Pack.{
  Files, Deflate, Entry, Planned, planned, refused, Packed, packed, pack_failed, plan_entries,
  append_payload, both, pack_entry, put_le, put_name, trailer,
}
use mass_worker_llama_cpp.Payload.Pack.Plan.{IsPlan, plan_entries-IsPlan}
use mass_worker_llama_cpp.Payload.Pack.Items.{Zip, IsLeaf, items_of}
use mass_worker_llama_cpp.Payload.Pack.RoundTrip.{extract_payload-append_payload}

-- A compressor that only marks its frames.
abbrev unmark : Bytes → Frame
unmark [] = bad []
unmark (b ∷ s) = if b == 77 then whole s [] else bad []

abbrev zip : Deflate
zip = record { has_context = true; compress = λ s. some (77 ∷ s) }

abbrev unzip : Zstd
unzip = record { has_context = true; inflate = unmark }

abbrev copied : Bytes → Dict Bytes → Option Bytes → Bool × Dict Bytes
copied name w none = (false, w)
copied name w (some s) = (true, assign name s w)

abbrev folder : Dest
folder = record {
  W = Dict Bytes;
  prepare = λ w. (true, w);
  open_file = λ name w. (true, assign name [] w);
  write = λ name s w. (true, assign name s w);
  write_part = λ name w. w;
  copy_file = λ target name w. copied name w (lookup target w);
  make_executable = λ name w. w;
}

-- `lib/b` is a link to `lib/a`.
abbrev disk : Files
disk = record {
  exists = λ p. true;
  equivalent = λ p q. true;
  content = λ p. if text_eq p (text "host") then some (1 ∷ []) else some (2 ∷ 3 ∷ []);
}

abbrev image : Packed → Bytes
image (pack_failed e) = []
image (packed a) = a

abbrev entries : Planned → List Entry
entries (refused e) = []
entries (planned es) = es

abbrev two_files : List Bytes
two_files = text "lib/a" ∷ text "lib/b" ∷ []

abbrev installer : Bytes
installer = image (append_payload disk zip (text "host") two_files)

abbrev plan : List Entry
plan = entries (plan_entries disk two_files)

mark_nonempty : (s f : Bytes) → some (77 ∷ s) ≡ some f → nonempty f ≡ true
mark_nonempty s [] h = cc
mark_nonempty s (b ∷ f) h = refl

mark_back : (s f : Bytes) → some (77 ∷ s) ≡ some f → unmark f ≡ whole s []
mark_back s f h = subst (λ o. unmark_some o ≡ whole s []) h refl
  where
    unmark_some : Option Bytes → Frame
    unmark_some none = bad []
    unmark_some (some g) = unmark g

zip-Zip : Zip zip unzip
zip-Zip = record {
  ready = refl;
  nonempty_frame = λ s f h. mark_nonempty s f h;
  back = λ s f h. mark_back s f h;
}

disk_bounded : (p s : Bytes) → disk.content p ≡ some s → length s < 2 ^ 64
disk_bounded p s h = ground arith

plan_two : plan_entries disk two_files ≡ planned plan
unfolding plan_entries text text_eq
plan_two = refl

installer_two : append_payload disk zip (text "host") two_files ≡ packed installer
unfolding append_payload text text_eq both pack_entry
installer_two = refl

plan_entries-IsPlan_example : IsPlan disk [] two_files plan
plan_entries-IsPlan_example = plan_entries-IsPlan disk two_files plan plan_two

plan_leaves : All IsLeaf plan
unfolding plan_entries text text_eq safe_entry_name
plan_leaves = ((refl, omega arith), ((refl, omega arith), tt))

few_entries : length plan < 2 ^ 64
unfolding plan_entries text text_eq
few_entries = omega arith

small_installer : length installer < 2 ^ 64
unfolding append_payload text text_eq both pack_entry trailer put_le put_name
small_installer = omega arith

extract_payload-append_payload_example :
    extract_payload unzip folder (some installer) []
    ≡ install_into folder (items_of disk plan plan) (folder.prepare [])
extract_payload-append_payload_example =
    extract_payload-append_payload disk zip unzip folder (text "host") two_files installer plan []
      zip-Zip disk_bounded installer_two plan_two plan_leaves few_entries small_installer

-- Both names have the content.
installed : Dict Bytes
installed = (text "a", 2 ∷ 3 ∷ []) ∷ (text "b", 2 ∷ 3 ∷ []) ∷ []

extract_test : extract_payload unzip folder (some installer) [] ≡ done 2 installed
unfolding installed text extract_payload append_payload text_eq both pack_entry put_name records
    and_then named_record lookup assign
extract_test = refl

-- Nothing is put outside the directory.
abbrev NothingOutside : Dict Bytes → Type 0
NothingOutside w = lookup (text "../x") w ≡ none

unsafe : safe_entry_name (text "../x") ≢ true
unfolding safe_entry_name text
unsafe e = cc

outside_kept :
    (name s : Bytes) (w : Dict Bytes)
    → safe_entry_name name ≡ true
    → NothingOutside w
    → NothingOutside (assign name s w)
outside_kept name s w h k = elim (Bool-cases (text_eq name (text "../x"))) [
  | inl e ↦ absurd (unsafe (sym (ap safe_entry_name ((text_eq_iff name (text "../x")).0 e)) ∙ h))
  | inr e ↦ lookup-assign name (text "../x") s w ∙ rw e k
]

copied_kept :
    (name : Bytes) (w : Dict Bytes) (o : Option Bytes)
    → safe_entry_name name ≡ true
    → NothingOutside w
    → NothingOutside (copied name w o).1
copied_kept name w none s p = p
copied_kept name w (some x) s p = outside_kept name x w s p

folder-Confined : Confined folder NothingOutside
folder-Confined = record {
  prepare = λ w p. p;
  open_file = λ name w s p. outside_kept name [] w s p;
  write = λ name c w s p. outside_kept name c w s p;
  write_part = λ name w s p. p;
  copy_file = λ target name w t s p. copied_kept name w _ s p;
  make_executable = λ name w s p. p;
}

extract_payload-IsConfined_example :
    IsConfined folder NothingOutside installer (extract_payload unzip folder (some installer) [])
unfolding lookup
extract_payload-IsConfined_example =
    extract_payload-IsConfined unzip folder NothingOutside folder-Confined installer [] refl

-- The sum of the sizes wraps around, so a payload of nearly 2^64 bytes is taken for one that fits,
-- and with no records it is installed without an error.
abbrev wrapped : Bytes
wrapped = trailer (2 ^ 64 - 1) 0

wrapped_test : has_payload (some wrapped) ≡ true
unfolding has_payload trailer text text_eq put_le read_trailer
wrapped_test = refl

wrapped_done : extract_payload unzip folder (some wrapped) [] ≡ done 0 []
unfolding extract_payload trailer text text_eq put_le records
wrapped_done = refl

-- The packer takes a name with a ':', which the reader refuses.
colon_test :
    extract_payload unzip folder
      (some (image (append_payload disk zip (text "host") (text "lib/a:b" ∷ []))))
      []
    ≡ failed (unsafe_name (text "a:b")) []
unfolding text extract_payload append_payload text_eq both pack_entry put_name records and_then
    named_record
colon_test = refl
