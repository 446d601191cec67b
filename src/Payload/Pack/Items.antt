-- ===== src/Payload/Pack/Items.antt =====
-- What the records of a packed installer hold.
use mass_worker_llama_cpp.Prelude.{
  ℕ, zero, suc, ◌^◌, ◌<◌, true, List, [], ◌∷◌, ◌++◌, Option, none, some, Bytes, All, length,
  get_elem?, ◌≡◌, ◌≢◌, refl, sym, ap, subst, ◌∙◌, arith,
}
use mass_worker_llama_cpp.Payload.{Zstd, whole, nonempty, safe_entry_name}
use mass_worker_llama_cpp.Payload.Install.{
  Item, file, copy_of, item_bytes, items_bytes, Fits, Inflates,
}
use mass_worker_llama_cpp.Payload.Pack.{
  Files, Deflate, Entry, Packed, PackError, packed, pack_failed, put_le, put_name, name_of, framed,
  file_entry, alias_entry, pack_entry, both, pack_entries,
}
use mass_worker_llama_cpp.Payload.Pack.Plan.{PointsTo, Sound}

-- The frame of a content, as the compressor makes it.
abbrev unframed : Option Bytes → Bytes
unframed none = []
unframed (some f) = f

abbrev pub frame_of : Deflate → Bytes → Bytes
frame_of c s = unframed (c.compress s)

abbrev item_from : Files → List Entry → Entry → Option ℕ → Item
item_from fs entries e (some i) = copy_of (name_of (get_elem? entries i)) e.name
item_from fs entries e none = file e.name (unframed (fs.content e.path))

-- What the entries of a plan install.
abbrev pub items_of : Files → List Entry → List Entry → List Item
items_of fs entries [] = []
items_of fs entries (e ∷ es) = item_from fs entries e e.alias_of ∷ items_of fs entries es

pub packed_eq : {x y : Bytes} → packed x ≡ packed y → x ≡ y
packed_eq e = ground arith

pub packed_ne : {e : PackError} {x : Bytes} → pack_failed e ≢ packed x
packed_ne e = cc

framed-packed :
    (name s b : Bytes) (o : Option Bytes)
    → framed name s o ≡ packed b
    → (b
        ≡ put_name name
          ++ (0 ∷ (put_le 8 (length s) ++ (put_le 8 (length (unframed o)) ++ unframed o))))
      × (o ≡ some (unframed o))
unfolding framed
framed-packed name s b none h = absurd (packed_ne h)
framed-packed name s b (some f) h = (sym (packed_eq h), refl)

-- What the compressor and the decompressor promise each other: a frame is not empty, and gives
-- back what went into it.
pub record Zip (c : Deflate) (z : Zstd) : Type 0 where
  pub ready : z.has_context ≡ true
  pub nonempty_frame : (s f : Bytes) → c.compress s ≡ some f → nonempty f ≡ true
  pub back : (s f : Bytes) → c.compress s ≡ some f → z.inflate f ≡ whole s []

-- A name that the reader takes: a leaf, shorter than 2^32.
abbrev pub IsLeaf : Entry → Type 0
IsLeaf e = (safe_entry_name e.name ≡ true) × (length e.name < 2 ^ 32)

All-get_elem? :
    (P : Entry → Type 0) (es : List Entry) (i : ℕ) (e : Entry)
    → All P es
    → get_elem? es i ≡ some e
    → P e
All-get_elem? P [] i e h g = cc
All-get_elem? P (x ∷ es) zero e (h, hs) g = subst P (ground arith) h
All-get_elem? P (x ∷ es) (suc i) e (h, hs) g = All-get_elem? P es i e hs g

pub length-items_from :
    (fs : Files) (entries es : List Entry) → length es ≡ length (items_of fs entries es)
length-items_from fs entries [] = refl
length-items_from fs entries (e ∷ es) = ap suc (length-items_from fs entries es)

leaf_target :
    {fs : Files} {entries : List Entry} {path : Bytes} {i : ℕ}
    → All IsLeaf entries
    → PointsTo fs entries path i
    → (safe_entry_name (name_of (get_elem? entries i)) ≡ true)
      × (length (name_of (get_elem? entries i)) < 2 ^ 32)
leaf_target {fs} {entries} {path} {i} l t =
    subst (λ o. (safe_entry_name (name_of o) ≡ true) × (length (name_of o) < 2 ^ 32)) (sym t.found)
      (All-get_elem? IsLeaf entries i t.target l t.found)

both-packed :
    (p q : Packed) (b : Bytes)
    → both p q ≡ packed b
    → (x : Bytes) × ((y : Bytes) × ((p ≡ packed x) × ((q ≡ packed y) × (b ≡ x ++ y))))
unfolding both
both-packed (pack_failed e) q b h = absurd (packed_ne h)
both-packed (packed x) (pack_failed e) b h = absurd (packed_ne h)
both-packed (packed x) (packed y) b h = (x, (y, (refl, (refl, sym (packed_eq h)))))

module _ (fs : Files) (c : Deflate) (z : Zstd) (zip : Zip c z)
    (bounded : (p s : Bytes) → fs.content p ≡ some s → length s < 2 ^ 64) (entries : List Entry)
    (leaves : All IsLeaf entries) where
  file_entry-packed :
      (e : Entry) (b : Bytes) (o : Option Bytes)
      → fs.content e.path ≡ o
      → file_entry c e o ≡ packed b
      → IsLeaf e
      → (b ≡ item_bytes (frame_of c) (file e.name (unframed o)))
        × (Fits (file e.name (unframed o)) × Inflates z (frame_of c) (file e.name (unframed o)))
  unfolding file_entry
  file_entry-packed e b none r h l = absurd (packed_ne h)
  file_entry-packed e b (some s) r h l =
      let (p, q) = framed-packed e.name s b (c.compress s) h in
      (p, ((l.0, (l.1, bounded e.path s r)), (zip.nonempty_frame s _ q, zip.back s _ q)))

  alias_entry-packed :
      (e : Entry) (b : Bytes) (i : ℕ)
      → PointsTo fs entries e.path i
      → alias_entry e.name (name_of (get_elem? entries i)) ≡ packed b
      → IsLeaf e
      → (b ≡ item_bytes (frame_of c) (copy_of (name_of (get_elem? entries i)) e.name))
        × (Fits (copy_of (name_of (get_elem? entries i)) e.name) × Unit {0})
  unfolding alias_entry
  alias_entry-packed e b i t h l =
      let target = leaf_target leaves t in (sym (packed_eq h), ((l.0, (l.1, target)), tt))

  pack_entry-packed :
      (e : Entry) (b : Bytes) (o : Option ℕ)
      → e.alias_of ≡ o
      → Sound fs entries e
      → pack_entry fs c entries e o ≡ packed b
      → IsLeaf e
      → (b ≡ item_bytes (frame_of c) (item_from fs entries e o))
        × (Fits (item_from fs entries e o) × Inflates z (frame_of c) (item_from fs entries e o))
  unfolding pack_entry
  pack_entry-packed e b none a s h l = file_entry-packed e b (fs.content e.path) refl h l
  pack_entry-packed e b (some i) a s h l = alias_entry-packed e b i (s i a) h l

  pub pack_entries-packed :
      (es : List Entry) (b : Bytes)
      → All (Sound fs entries) es
      → All IsLeaf es
      → pack_entries fs c entries es ≡ packed b
      → (b ≡ items_bytes (frame_of c) (items_of fs entries es))
        × (All Fits (items_of fs entries es)
            × All (Inflates z (frame_of c)) (items_of fs entries es))
  unfolding pack_entries
  pack_entries-packed [] b s l h = (sym (packed_eq h), (tt, tt))
  pack_entries-packed (e ∷ es) b (s, ss) (l, ls) h =
      let (x, (y, (p, (q, r)))) = both-packed _ _ b h in
      let (u, (v, w)) = pack_entry-packed e x e.alias_of refl s p l in
      let (u', (v', w')) = pack_entries-packed es y ss ls q in
      (
        r
            ∙ ap (λ k. k ++ y) u
            ∙ ap (λ k. item_bytes (frame_of c) (item_from fs entries e e.alias_of) ++ k) u',
        ((v, v'), (w, w')),
      )
