-- ===== src/Payload/Safe.antt =====
-- What extraction does to the install directory, whatever the archive holds.
use mass_worker_llama_cpp.Prelude.{
  ℕ, ◌-◌, Bool, false, zero, suc, ◌+◌, true, Option, none, some, Bytes, ltb, ◌==◌, ◌≡◌, refl, sym,
  subst, ◌∙◌, arith, inl, inr, Bool-cases, passes, stops, ==_iff,
}
use mass_worker_llama_cpp.Payload.{
  Zstd, Dest, Trailer, trailer_size, Extracted, PayloadError, Step, stop, next, failed, done, wrap,
  magic_format, first, take_bytes, take_name, safe_entry_name, executable, unpacked, opened,
  file_data, file_record, alias_record, record_body, named_record, and_then, records, prepared,
  with_trailer, read_trailer, extract_payload,
}

-- A property of the directory that no call on leaf names breaks, whether it succeeds or fails.
pub record Confined (d : Dest) (P : d.W → Type 0) : Type 0 where
  pub prepare : (w : d.W) → P w → P (d.prepare w).1
  pub open_file :
      (name : Bytes) (w : d.W) → safe_entry_name name ≡ true → P w → P (d.open_file name w).1
  pub write :
      (name s : Bytes) (w : d.W) → safe_entry_name name ≡ true → P w → P (d.write name s w).1
  pub write_part :
      (name : Bytes) (w : d.W) → safe_entry_name name ≡ true → P w → P (d.write_part name w)
  pub copy_file :
      (target name : Bytes) (w : d.W)
      → safe_entry_name target ≡ true
      → safe_entry_name name ≡ true
      → P w
      → P (d.copy_file target name w).1
  pub make_executable :
      (name : Bytes) (w : d.W) → safe_entry_name name ≡ true → P w → P (d.make_executable name w)

module _ (z : Zstd) (d : Dest) (P : d.W → Type 0) (k : Confined d P) (a : Bytes) (end : ℕ) where
  -- The property holds behind the step, whether it goes on or not.
  abbrev Good : Step d.W → Type 0
  Good (stop e v) = P v
  Good (next off v) = P v

  executable-Good :
      (name : Bytes) (off : ℕ) (e : PayloadError) (o : Bool × d.W)
      → safe_entry_name name ≡ true
      → P o.1
      → Good (executable z d a end name off e o)
  unfolding executable
  executable-Good name off e (false, v) s h = h
  executable-Good name off e (true, v) s h = k.make_executable name v s h

  unpacked-Good :
      (name : Bytes) (off : ℕ) (w : d.W) (o : Option Bytes)
      → safe_entry_name name ≡ true
      → P w
      → Good (unpacked z d a end name off w o)
  unfolding unpacked
  unpacked-Good name off w none s h = k.write_part name w s h
  unpacked-Good name off w (some out) s h = executable-Good name off _ _ s (k.write name out w s h)

  opened-Good :
      (name : Bytes) (raw_size comp_size off : ℕ) (o : Bool × d.W)
      → safe_entry_name name ≡ true
      → P o.1
      → Good (opened z d a end name raw_size comp_size off o)
  unfolding opened
  opened-Good name raw_size comp_size off (false, v) s h = h
  opened-Good name raw_size comp_size off (true, v) s h = unpacked-Good name _ v _ s h

  file_data-Good :
      (name : Bytes) (raw_size comp_size off : ℕ) (w : d.W)
      → safe_entry_name name ≡ true
      → P w
      → Good (file_data z d a end name raw_size comp_size off w)
  unfolding file_data
  file_data-Good name raw_size comp_size off w s h =
      elim (Bool-cases (ltb end (wrap (off + comp_size)))) [
        | inl e ↦ rw e h
        | inr e ↦ rw e (opened-Good name raw_size comp_size off _ s (k.open_file name w s h))
      ]

  file_record-Good :
      (name : Bytes) (w : d.W) (o : Option (Bytes × ℕ))
      → safe_entry_name name ≡ true
      → P w
      → Good (file_record z d a end name w o)
  unfolding file_record
  file_record-Good name w none s h = h
  file_record-Good name w (some (sizes, off)) s h = file_data-Good name _ _ off w s h

  alias_record-Good :
      (name : Bytes) (w : d.W) (o : Option (Bytes × ℕ))
      → safe_entry_name name ≡ true
      → P w
      → Good (alias_record z d a end name w o)
  unfolding alias_record
  alias_record-Good name w none s h = h
  alias_record-Good name w (some (target, off)) s h = elim (Bool-cases (safe_entry_name target)) [
    | inl t ↦ rw t (executable-Good name off _ _ s (k.copy_file target name w t s h))
    | inr t ↦ rw t h
  ]

  record_body-Good :
      (name : Bytes) (w : d.W) (o : Option (Bytes × ℕ))
      → safe_entry_name name ≡ true
      → P w
      → Good (record_body z d a end name w o)
  unfolding record_body
  record_body-Good name w none s h = h
  record_body-Good name w (some (kind, off)) s h = elim (Bool-cases (first kind == 1)) [
    | inl e ↦ rw e (alias_record-Good name w (take_name a end off) s h)
    | inr e ↦ elim (Bool-cases (first kind == 0)) [
      | inl f ↦ rw e (rw f (file_record-Good name w (take_bytes a end off 16) s h))
      | inr f ↦ rw e (rw f h)
    ]
  ]

  named_record-Good : (w : d.W) (o : Option (Bytes × ℕ)) → P w → Good (named_record z d a end w o)
  unfolding named_record
  named_record-Good w none h = h
  named_record-Good w (some (name, off)) h = elim (Bool-cases (safe_entry_name name)) [
    | inl s ↦ rw s (record_body-Good name w (take_bytes a end off 1) s h)
    | inr s ↦ rw s h
  ]

-- What an extraction that succeeds has done: as many records as the trailer says, of its format.
pub record IsDone (a : Bytes) (n : ℕ) : Type 0 where
  pub trailer : Trailer
  pub is_read : read_trailer a ≡ some trailer
  pub counted : n ≡ trailer.file_count
  pub readable : trailer.format ≡ magic_format

-- The property holds of the directory that is left, and a success is one.
abbrev pub IsConfined : (d : Dest) → (d.W → Type 0) → Bytes → Extracted d.W → Type 0
IsConfined d P a (failed e v) = P v
IsConfined d P a (done n v) = P v × IsDone a n

module _ (z : Zstd) (d : Dest) (P : d.W → Type 0) (k : Confined d P) (a : Bytes) where
  -- The property holds of the directory that is left, and a success has so many records.
  abbrev Counts : ℕ → Extracted d.W → Type 0
  Counts n (failed e v) = P v
  Counts n (done m v) = P v × (m ≡ n)

  next_record :
      (left written end : ℕ) (s : Step d.W)
      → Good z d P k a end s
      → ((off : ℕ) (w : d.W)
          → P w
          → Counts (suc written + left) (records z d a end left (suc written) off w))
      → Counts (suc written + left) (and_then s (records z d a end left (suc written)))
  unfolding and_then
  next_record left written end (stop e v) g ih = g
  next_record left written end (next off w) g ih = ih off w g

  records-Counts :
      (left written off end : ℕ) (w : d.W)
      → P w
      → Counts (written + left) (records z d a end left written off w)
  unfolding records
  records-Counts zero written off end w p = (p, omega arith)
  records-Counts (suc left) written off end w p =
      let e : suc written + left ≡ written + suc left = omega arith in
      subst
        (λ n. Counts n (
          and_then (named_record z d a end w (take_name a end off))
            (records z d a end left (suc written))))
        e
        (next_record left written end (named_record z d a end w (take_name a end off))
          (named_record-Good z d P k a end w (take_name a end off) p)
          (λ o u. records-Counts left (suc written) o end u))

  prepared-Counts :
      (t : Trailer) (o : Bool × d.W) → P o.1 → Counts t.file_count (prepared z d a t o)
  unfolding prepared
  prepared-Counts t (false, u) p = p
  prepared-Counts t (true, u) p =
      let e : 0 + t.file_count ≡ t.file_count = omega arith in
      subst (λ n. Counts n (prepared z d a t (true, u))) e
        (records-Counts t.file_count 0 _ (t.file_size - trailer_size) u p)

  counted-IsConfined :
      (t : Trailer) (r : Extracted d.W)
      → read_trailer a ≡ some t
      → t.format ≡ magic_format
      → Counts t.file_count r
      → IsConfined d P a r
  counted-IsConfined t (failed e v) h f c = c
  counted-IsConfined t (done n v) h f (p, c) =
      (p, record { trailer = t; is_read = h; counted = c; readable = f })

  with_trailer-IsConfined :
      (w : d.W) (o : Option Trailer)
      → P w
      → read_trailer a ≡ o
      → IsConfined d P a (with_trailer z d a w o)
  unfolding with_trailer
  with_trailer-IsConfined w none p e = p
  with_trailer-IsConfined w (some t) p e = elim (Bool-cases (t.format == magic_format)) [
    | inl f ↦ elim (Bool-cases z.has_context) [
      | inl c ↦
          subst (IsConfined d P a)
            (sym (passes (t.format == magic_format) _ _ f ∙ passes z.has_context _ _ c))
            (counted-IsConfined t _ e ((==_iff t.format magic_format).0 f)
              (prepared-Counts t (d.prepare w) (k.prepare w p)))
      | inr c ↦
          subst (IsConfined d P a)
            (sym (passes (t.format == magic_format) _ _ f ∙ stops z.has_context _ _ c)) p
    ]
    | inr f ↦ subst (IsConfined d P a) (sym (stops (t.format == magic_format) _ _ f)) p
  ]

-- Whatever the archive holds, and whether the extraction succeeds or fails, it keeps every property
-- of the install directory that calls on plain names (not empty, with no '/', '\\' or ':') keep, so
-- it touches no file outside it; if it succeeds, the archive has a trailer of the format that this
-- build reads, and as many records were extracted as the trailer says.
pub extract_payload-IsConfined :
    (z : Zstd) (d : Dest) (P : d.W → Type 0) (k : Confined d P) (a : Bytes) (w : d.W)
    → P w
    → IsConfined d P a (extract_payload z d (some a) w)
unfolding extract_payload
extract_payload-IsConfined z d P k a w p =
    with_trailer-IsConfined z d P k a w (read_trailer a) p refl
