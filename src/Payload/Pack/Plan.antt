-- ===== src/Payload/Pack/Plan.antt =====
-- What the plan of an installer promises: names are unique, and an alias stands behind the entry
-- of its own that is the same file on disk.
use mathlib.Core.List.{append-nil}
use mass_worker_llama_cpp.Prelude.{
  ℕ, zero, suc, ◌+◌, true, false, ◌&&◌, ◌||◌, List, [], ◌∷◌, ◌++◌, Option, none, some, Bytes, All,
  All-append, text_eq, text_eq_iff, get_elem?, ◌≡◌, ◌≢◌, refl, sym, ap, subst, map, ◌∙◌, arith, inl,
  inr, Bool-cases,
}
use mass_worker_llama_cpp.Payload.Pack.{
  Files, Entry, Planned, PackError, planned, refused, has_name, is_first, alias_from, plan_entry,
  plan_from, plan_entries, filename_from,
}

-- Where an alias stands: the entry that it points to is there, is a file of its own, and is the
-- same file on disk.
pub record PointsTo (fs : Files) (es : List Entry) (path : Bytes) (i : ℕ) : Type 0 where
  pub target : Entry
  pub found : get_elem? es i ≡ some target
  pub own : target.alias_of ≡ none
  pub same : fs.equivalent target.path path ≡ true

abbrev pub Sound : Files → List Entry → Entry → Type 0
Sound fs es e = (i : ℕ) → e.alias_of ≡ some i → PointsTo fs es e.path i

get_elem?-append :
    (es fs : List Entry) (i : ℕ) (e : Entry)
    → get_elem? es i ≡ some e
    → get_elem? (es ++ fs) i ≡ some e
get_elem?-append [] fs i e h = cc
get_elem?-append (x ∷ es) fs zero e h = h
get_elem?-append (x ∷ es) fs (suc i) e h = get_elem?-append es fs i e h

own_of_first :
    (e : Entry) (o : Option ℕ) → elim o [ none ↦ true | some i ↦ false ] ≡ true → o ≡ none
own_of_first e none h = refl
own_of_first e (some i) h = cc

-- With `k` entries before these, the place found is among these.
alias_from-PointsTo :
    (fs : Files) (k : ℕ) (path : Bytes) (es : List Entry) (i : ℕ)
    → alias_from fs k path es ≡ some i
    → (j : ℕ) × ((i ≡ k + j) × PointsTo fs es path j)
unfolding alias_from
alias_from-PointsTo fs k path [] i h = cc
alias_from-PointsTo fs k path (e ∷ es) i h =
    elim (Bool-cases (is_first e && fs.equivalent e.path path)) [
      | inl b ↦ (
        0,
        (
          ground arith,
          record {
            target = e;
            found = refl;
            own = own_of_first e e.alias_of (ground arith);
            same = ground arith;
          },
        ),
      )
      | inr b ↦
          let (j, (q, r)) = alias_from-PointsTo fs (suc k) path es i (rw b at h) in
          (
            suc j,
            (
              omega arith,
              record { target = r.target; found = r.found; own = r.own; same = r.same },
            ),
          )
    ]

Sound-append :
    (fs : Files) (es new : List Entry) (e : Entry) → Sound fs es e → Sound fs (es ++ new) e
Sound-append fs es new e h i a =
    let r = h i a in
    record {
      target = r.target;
      found = get_elem?-append es new i r.target r.found;
      own = r.own;
      same = r.same;
    }

All-Sound-append :
    (fs : Files) (es new xs : List Entry) → All (Sound fs es) xs → All (Sound fs (es ++ new)) xs
All-Sound-append fs es new [] h = tt
All-Sound-append fs es new (x ∷ xs) (h, hs) =
    (Sound-append fs es new x h, All-Sound-append fs es new xs hs)

-- No name stands twice.
abbrev pub Unique : List Entry → Type 0
Unique [] = Unit {0}
Unique (e ∷ es) = (has_name e.name es ≡ false) × Unique es

has_name-append :
    (n : Bytes) (es : List Entry) (new : Entry)
    → has_name n (es ++ (new ∷ [])) ≡ (has_name n es || text_eq new.name n)
unfolding has_name
has_name-append n [] new = ground arith
has_name-append n (e ∷ es) new = ground (arith, has_name-append n es new)

Unique-append :
    (es : List Entry) (new : Entry)
    → has_name new.name es ≡ false
    → Unique es
    → Unique (es ++ (new ∷ []))
unfolding has_name
Unique-append [] new h u = (refl, tt)
Unique-append (e ∷ es) new h (u, us) = (
  ground (
    arith,
    has_name-append e.name es new,
    text_eq_iff e.name new.name,
    text_eq_iff new.name e.name,
  ),
  Unique-append es new (ground arith) us,
)

-- The entry of a path, behind `entries`.
abbrev entry_of : Files → List Entry → Bytes → Bytes → Entry
entry_of fs entries path name = record {
  path = path;
  name = name;
  alias_of = alias_from fs 0 path entries;
}

planned_eq : {es fs : List Entry} → planned es ≡ planned fs → es ≡ fs
planned_eq e = ground arith

refused_ne : {e : PackError} {es : List Entry} → refused e ≢ planned es
refused_ne e = cc

plan_entry-planned :
    (fs : Files) (entries es : List Entry) (path name : Bytes)
    → plan_entry fs entries path name ≡ planned es
    → (has_name name entries ≡ false) × (es ≡ entries ++ (entry_of fs entries path name ∷ []))
unfolding plan_entry
plan_entry-planned fs entries es path name h = elim (Bool-cases (text_eq name [])) [
  | inl a ↦ absurd (refused_ne (rw a at h))
  | inr a ↦ elim (Bool-cases (has_name name entries)) [
    | inl b ↦ absurd (refused_ne (rw b at (rw a at h)))
    | inr b ↦ elim (Bool-cases (fs.exists path)) [
      | inl c ↦ (b, sym (planned_eq (rw c at (rw b at (rw a at h)))))
      | inr c ↦ absurd (refused_ne (rw c at (rw b at (rw a at h))))
    ]
  ]
]

entry_of-Sound :
    (fs : Files) (entries : List Entry) (path name : Bytes)
    → Sound fs entries (entry_of fs entries path name)
entry_of-Sound fs entries path name i h =
    let (j, (e, p)) = alias_from-PointsTo fs 0 path entries i h in
    subst (λ k. PointsTo fs entries path k) (omega arith) p

-- Every path has its entry, in order and under its file name; names are unique, and each alias
-- points to an entry of its own that is the same file.
pub record IsPlan (fs : Files) (before : List Entry) (files : List Bytes) (es : List Entry)
    : Type 0 where
  pub sound : All (Sound fs es) es
  pub unique : Unique es
  pub paths : map (λ e. e.path) es ≡ map (λ e. e.path) before ++ files

paths_append :
    (entries : List Entry) (f : Bytes) (files : List Bytes) (new : Entry)
    → new.path ≡ f
    → map (λ e. e.path) (entries ++ (new ∷ [])) ++ files ≡ map (λ e. e.path) entries ++ (f ∷ files)
paths_append [] f files new h = ap (λ x. x ∷ files) h
paths_append (e ∷ es) f files new h = ap (◌∷◌ e.path) (paths_append es f files new h)

next_entry :
    (fs : Files) (entries : List Entry) (f : Bytes) (files : List Bytes) (es : List Entry)
    (o : Planned)
    → ((more : List Entry)
        → plan_from fs more files ≡ planned es
        → All (Sound fs more) more
        → Unique more
        → IsPlan fs more files es)
    → plan_entry fs entries f (filename_from [] f) ≡ o
    → elim o [ refused e ↦ refused e | planned more ↦ plan_from fs more files ] ≡ planned es
    → All (Sound fs entries) entries
    → Unique entries
    → IsPlan fs entries (f ∷ files) es
next_entry fs entries f files es (refused e) ih p q a u = absurd (refused_ne q)
next_entry fs entries f files es (planned more) ih p q a u =
    let new = entry_of fs entries f (filename_from [] f) in
    let (n, m) = plan_entry-planned fs entries more f (filename_from [] f) p in
    let r =
      ih (entries ++ (new ∷ [])) (subst (λ x. plan_from fs x files ≡ planned es) m q)
        (All-append (Sound fs (entries ++ (new ∷ []))) entries (new ∷ [])
          (All-Sound-append fs entries (new ∷ []) entries a)
          (
            Sound-append fs entries (new ∷ []) new
                (entry_of-Sound fs entries f (filename_from [] f)),
            tt,
          ))
        (Unique-append entries new n u) in
    record {
      sound = r.sound;
      unique = r.unique;
      paths = r.paths ∙ paths_append entries f files new refl;
    }

plan_from-IsPlan :
    (fs : Files) (entries : List Entry) (files : List Bytes) (es : List Entry)
    → plan_from fs entries files ≡ planned es
    → All (Sound fs entries) entries
    → Unique entries
    → IsPlan fs entries files es
unfolding plan_from
plan_from-IsPlan fs entries [] es h a u =
    subst (λ x. IsPlan fs entries [] x) (planned_eq h)
      (record { sound = a; unique = u; paths = sym (append-nil (map (λ e. e.path) entries)) })
plan_from-IsPlan fs entries (f ∷ files) es h a u =
    next_entry fs entries f files es _ (λ more. plan_from-IsPlan fs more files es) refl h a u

-- If a list of files is planned, every file has its entry, in order, no name stands twice, and
-- each alias points to an entry that is no alias and is the same file on disk.
pub plan_entries-IsPlan :
    (fs : Files) (files : List Bytes) (es : List Entry)
    → plan_entries fs files ≡ planned es
    → IsPlan fs [] files es
unfolding plan_entries
plan_entries-IsPlan fs files es h = plan_from-IsPlan fs [] files es h tt tt
