-- ===== src/Payload/Records.antt =====
-- Each record of a packed payload is read as the item that it was packed from.
use mathlib.Core.List.{append_assoc}
use mass_worker_llama_cpp.Prelude.{
  ℕ, suc, ◌+◌, ◌^◌, ◌<◌, ◌≤◌, Bool, true, false, List, [], ◌∷◌, ◌++◌, some, Bytes, All, length,
  length-append, ltb, ◌≡◌, refl, sym, ap, subst, ◌∙◌, arith,
}
use mass_worker_llama_cpp.Prelude.Slices.{drop, take_of, drop_of}
use mass_worker_llama_cpp.Payload.{
  Zstd, Dest, whole, PayloadError, copy_failed, write_failed, failed, load_le, take_bytes,
  take_name, wrap, safe_entry_name, named_record, record_body, alias_record, file_record, file_data,
  opened, unpacked, executable, inflate_record, inflated, checked, records, and_then, nonempty,
}
use mass_worker_llama_cpp.Payload.Pack.{put_le, put_name}
use mass_worker_llama_cpp.Payload.Numbers.{
  At, At-append, length-put_le, load_le-put_le, take_bytes-At, take_name-At, read_at-At,
}
use mass_worker_llama_cpp.Payload.Install.{
  Item, file, copy_of, Stored, refused, stored, stored_as, write_opened, put_item, install,
  item_bytes, items_bytes, Fits, Inflates, as_step,
}

executable-stored_as :
    (z : Zstd) (d : Dest) (a : Bytes) (end : ℕ) (name : Bytes) (off : ℕ) (e : PayloadError)
    (o : Bool × d.W)
    → executable z d a end name off e o ≡ as_step off (stored_as d name e o)
unfolding executable
executable-stored_as z d a end name off e (false, w) = refl
executable-stored_as z d a end name off e (true, w) = refl

inflate_record-whole :
    (z : Zstd) (s f : Bytes)
    → nonempty f ≡ true
    → z.inflate f ≡ whole s []
    → inflate_record z (length s) (some f) ≡ some s
unfolding inflate_record inflated checked
inflate_record-whole z s [] h e = cc
inflate_record-whole z s (b ∷ f) h e = rw e (ground arith)

pub wrap_small : (n : ℕ) → n < 2 ^ 64 → wrap n ≡ n
wrap_small n h = omega arith

pub length-put_name : (name : Bytes) → length (put_name name) ≡ 4 + length name
unfolding put_name
length-put_name name =
    omega (arith, length-append (put_le 4 (length name)) name, length-put_le 4 (length name))

length_file :
    (frame : Bytes → Bytes) (name s : Bytes)
    → length (item_bytes frame (file name s)) ≡ 4 + length name + 1 + 16 + length (frame s)
length_file frame name s = omega (
  arith,
  length-append (put_name name)
      (0 ∷ (put_le 8 (length s) ++ (put_le 8 (length (frame s)) ++ frame s))),
  length-append (put_le 8 (length s)) (put_le 8 (length (frame s)) ++ frame s),
  length-append (put_le 8 (length (frame s))) (frame s),
  length-put_name name,
  length-put_le 8 (length s),
  length-put_le 8 (length (frame s)),
)

sizes_assoc :
    (name x y f post : Bytes)
    → (put_name name ++ (0 ∷ (x ++ (y ++ f)))) ++ post
      ≡ put_name name ++ (0 ∷ ((x ++ y) ++ (f ++ post)))
sizes_assoc name x y f post =
    append_assoc (put_name name) (0 ∷ (x ++ (y ++ f))) post
    ∙ ap (λ s. put_name name ++ (0 ∷ s))
        (ap (λ s. s ++ post) (sym (append_assoc x y f)) ∙ append_assoc (x ++ y) f post)

module _ (z : Zstd) (d : Dest) (a : Bytes) (end : ℕ) (small : length a < 2 ^ 64)
    (e : end + 24 ≡ length a) where
  named_record-At :
      (off : ℕ) (name post : Bytes) (w : d.W)
      → At a off (put_name name ++ post)
      → safe_entry_name name ≡ true
      → length name < 2 ^ 32
      → 24 ≤ length post
      → (named_record z d a end w (take_name a end off)
          ≡ record_body z d a end name w (take_bytes a end (off + 4 + length name) 1))
        × At a (off + 4 + length name) post
  unfolding named_record
  named_record-At off name post w h k l m =
      let (p, q) = take_name-At a end small e off name post h l m in
      (ap (named_record z d a end w) p ∙ rw k refl, q)

  alias_record-At :
      (off : ℕ) (name target post : Bytes) (w : d.W)
      → At a off (1 ∷ (put_name target ++ post))
      → safe_entry_name target ≡ true
      → length target < 2 ^ 32
      → 24 ≤ length post
      → record_body z d a end name w (take_bytes a end off 1)
        ≡ as_step (off + 1 + 4 + length target) (put_item d (copy_of target name) w)
  unfolding record_body alias_record
  alias_record-At off name target post w h k l m =
      let (p, q) =
        take_bytes-At a end small e off 1 (1 ∷ []) (put_name target ++ post) h refl
          (omega (arith, length-append (put_name target) post)) in
      let (r, t) = take_name-At a end small e (off + 1) target post q l m in
      ap (record_body z d a end name w) p
      ∙ ap (alias_record z d a end name w) r
      ∙ rw k (executable-stored_as z d a end name _ (copy_failed name) (d.copy_file target name w))

  opened-At :
      (off : ℕ) (name s frame post : Bytes) (w : d.W) (o : Bool × d.W)
      → At a off (frame ++ post)
      → nonempty frame ≡ true
      → z.inflate frame ≡ whole s []
      → 24 ≤ length post
      → opened z d a end name (length s) (length frame) off o
        ≡ as_step (off + length frame) (write_opened d name s o)
  unfolding opened unpacked
  opened-At off name s frame post w (false, v) h n i m = refl
  opened-At off name s frame post w (true, v) h n i m =
      ap
        (λ x. unpacked z d a end name (wrap (off + length frame)) v (inflate_record z (length s) x))
        (read_at-At a end small e off frame post h)
      ∙ ap (unpacked z d a end name (wrap (off + length frame)) v)
          (inflate_record-whole z s frame n i)
      ∙ executable-stored_as z d a end name _ (write_failed name) (d.write name s v)
      ∙ ap (λ k. as_step k (stored_as d name (write_failed name) (d.write name s v)))
          (wrap_small (off + length frame) (omega (arith, h.ends, length-append frame post)))

  file_data-At :
      (off : ℕ) (name s frame post : Bytes) (w : d.W)
      → At a off (frame ++ post)
      → nonempty frame ≡ true
      → z.inflate frame ≡ whole s []
      → 24 ≤ length post
      → file_data z d a end name (length s) (length frame) off w
        ≡ as_step (off + length frame) (put_item d (file name s) w)
  unfolding file_data
  file_data-At off name s frame post w h n i m =
      let q : ltb end (wrap (off + length frame)) ≡ false =
        ground (arith, h.ends, length-append frame post) in
      rw q (opened-At off name s frame post w (d.open_file name w) h n i m)

  file_record-At :
      (off : ℕ) (name s frame post : Bytes) (w : d.W)
      → At a off (0 ∷ ((put_le 8 (length s) ++ put_le 8 (length frame)) ++ (frame ++ post)))
      → nonempty frame ≡ true
      → z.inflate frame ≡ whole s []
      → length s < 2 ^ 64
      → 24 ≤ length post
      → record_body z d a end name w (take_bytes a end off 1)
        ≡ as_step (off + 1 + 16 + length frame) (put_item d (file name s) w)
  unfolding record_body file_record
  file_record-At off name s frame post w h n i b m =
      let sizes = put_le 8 (length s) ++ put_le 8 (length frame) in
      let (p, q) =
        take_bytes-At a end small e off 1 (0 ∷ []) (sizes ++ (frame ++ post)) h refl
          (omega (arith, length-append sizes (frame ++ post), length-append frame post)) in
      let (r, t) =
        take_bytes-At a end small e (off + 1) 16 sizes (frame ++ post) q
          (omega (
            arith,
            length-append (put_le 8 (length s)) (put_le 8 (length frame)),
            length-put_le 8 (length s),
            length-put_le 8 (length frame),
          ))
          (omega (arith, length-append frame post)) in
      ap (record_body z d a end name w) p
      ∙ ap (file_record z d a end name w) r
      ∙ ap (λ k. file_data z d a end name k (load_le (drop 8 sizes)) (off + 1 + 16) w)
          (ap load_le (take_of 8 _ _ (length-put_le 8 (length s)))
            ∙ load_le-put_le 8 (length s) (omega arith))
      ∙ ap (λ k. file_data z d a end name (length s) k (off + 1 + 16) w)
          (ap load_le (drop_of 8 (put_le 8 (length s)) _ (length-put_le 8 (length s)))
            ∙ load_le-put_le 8 (length frame) (omega (arith, t.ends, length-append frame post)))
      ∙ file_data-At (off + 1 + 16) name s frame post w t n i m

  module _ (frame : Bytes → Bytes) where
    record-At :
        (off : ℕ) (i : Item) (post : Bytes) (w : d.W)
        → At a off (item_bytes frame i ++ post)
        → Fits i
        → Inflates z frame i
        → 24 ≤ length post
        → named_record z d a end w (take_name a end off)
          ≡ as_step (off + length (item_bytes frame i)) (put_item d i w)
    record-At off (copy_of target name) post w h (k, (l, (m, n))) f g =
        let (p, q) =
          named_record-At off name (1 ∷ (put_name target ++ post)) w
            (subst (λ s. At a off s) (append_assoc (put_name name) (1 ∷ put_name target) post) h) k
            l (omega (arith, length-append (put_name target) post)) in
        p
        ∙ alias_record-At (off + 4 + length name) name target post w q m n g
        ∙ ap (λ j. as_step j (put_item d (copy_of target name) w))
            (omega (
              arith,
              length-append (put_name name) (1 ∷ put_name target),
              length-put_name name,
              length-put_name target,
            ))
    record-At off (file name s) post w h (k, (l, m)) (f, i) g =
        let (p, q) =
          named_record-At off name
            (0 ∷ ((put_le 8 (length s) ++ put_le 8 (length (frame s))) ++ (frame s ++ post))) w
            (subst (λ s. At a off s)
              (sizes_assoc name (put_le 8 (length s)) (put_le 8 (length (frame s))) (frame s) post)
              h)
            k l
            (omega (
              arith,
              length-append (put_le 8 (length s) ++ put_le 8 (length (frame s))) (frame s ++ post),
              length-append (frame s) post,
            )) in
        p
        ∙ file_record-At (off + 4 + length name) name s (frame s) post w q f i m g
        ∙ ap (λ j. as_step j (put_item d (file name s) w)) (omega (arith, length_file frame name s))

    next_record :
        (left n off : ℕ) (is : List Item) (o : Stored d.W)
        → ((v : d.W) → records z d a end left (suc n) off v ≡ install d is (suc n) v)
        → and_then (as_step off o) (records z d a end left (suc n))
          ≡ elim o [ refused x v ↦ failed x v | stored v ↦ install d is (suc n) v ]
    unfolding and_then
    next_record left n off is (refused x v) h = refl
    next_record left n off is (stored v) h = h v

    pub records-At :
        (n off : ℕ) (is : List Item) (post : Bytes) (w : d.W)
        → At a off (items_bytes frame is ++ post)
        → All Fits is
        → All (Inflates z frame) is
        → 24 ≤ length post
        → records z d a end (length is) n off w ≡ install d is n w
    unfolding records
    records-At n off [] post w h f i g = refl
    records-At n off (x ∷ is) post w h (f, fs) (i, ix) g =
        let h' : At a off (item_bytes frame x ++ (items_bytes frame is ++ post)) =
          subst (λ s. At a off s) (append_assoc (item_bytes frame x) (items_bytes frame is) post)
            h in
        let m : 24 ≤ length (items_bytes frame is ++ post) =
          omega (arith, length-append (items_bytes frame is) post) in
        ap (λ r. and_then r (records z d a end (length is) (suc n))) (record-At off x _ w h' f i m)
        ∙ next_record (length is) n (off + length (item_bytes frame x)) is (put_item d x w) (λ v.
          records-At (suc n) _ is post v (At-append a end small e off (item_bytes frame x) _ h') fs
            ix g)
