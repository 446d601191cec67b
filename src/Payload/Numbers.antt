-- ===== src/Payload/Numbers.antt =====
-- Little-endian numbers, and reading a piece of an archive that stands between two others.
use native.Mathlib.Nat.{pow-suc}
use mathlib.Core.List.{append_assoc}
use mass_worker_llama_cpp.Prelude.{
  ℕ, zero, suc, ◌+◌, ◌/◌, ◌^◌, ◌<◌, ◌≤◌, ◌++◌, Option, some, Bytes, length, length-append, ◌≡◌,
  refl, sym, ap, subst, ◌∙◌, arith,
}
use mass_worker_llama_cpp.Prelude.Slices.{take, drop, take-append, drop-append, drop_add}
use mass_worker_llama_cpp.Payload.{load_le, read_at, take_bytes, taken, take_name, named}
use mass_worker_llama_cpp.Payload.Pack.{put_le, put_name}

pub length-put_le : (k v : ℕ) → length (put_le k v) ≡ k
unfolding put_le
length-put_le zero v = refl
length-put_le (suc k) v = ap suc (length-put_le k (v / 256))

quotient_lt : (k v : ℕ) → v < 256 ^ suc k → v / 256 < 256 ^ k
quotient_lt k v h = omega (arith, pow-suc 256 k)

-- A number that fits its bytes is read back.
pub load_le-put_le : (k v : ℕ) → v < 256 ^ k → load_le (put_le k v) ≡ v
unfolding load_le put_le
load_le-put_le zero v h = omega arith
load_le-put_le (suc k) v h = omega (arith, load_le-put_le k (v / 256) (quotient_lt k v h))

-- `s` is what stands at `off` in the archive, up to its end.
pub record At (a : Bytes) (off : ℕ) (s : Bytes) : Type 0 where
  pub rest : drop off a ≡ s
  pub ends : off + length s ≡ length a

module _ (a : Bytes) (end : ℕ) (small : length a < 2 ^ 64) (e : end + 24 ≡ length a) where
  pub At-append : (off : ℕ) (x post : Bytes) → At a off (x ++ post) → At a (off + length x) post
  At-append off x post h = record {
    rest = drop_add off (length x) a ∙ ap (drop (length x)) h.rest ∙ drop-append x post;
    ends = omega (arith, h.ends, length-append x post);
  }

  pub read_at-At :
      (off : ℕ) (x post : Bytes) → At a off (x ++ post) → read_at a off (length x) ≡ some x
  unfolding read_at
  read_at-At off x post h =
      let t : take (length x) (drop off a) ≡ x = ap (take (length x)) h.rest ∙ take-append x post in
      rw t (ground arith)

  pub take_bytes-At :
      (off n : ℕ) (x post : Bytes)
      → At a off (x ++ post)
      → length x ≡ n
      → 24 ≤ length post
      → (take_bytes a end off n ≡ some (x, off + n)) × At a (off + n) post
  unfolding take_bytes taken
  take_bytes-At off n x post h k l = (
    rw (sym (ap (λ m. read_at a off m) k))
        (rw (read_at-At off x post h) (ground (arith, length-append x post))),
    subst (λ m. At a (off + m) post) k (At-append off x post h),
  )

  pub take_name-At :
      (off : ℕ) (name post : Bytes)
      → At a off (put_name name ++ post)
      → length name < 2 ^ 32
      → 24 ≤ length post
      → (take_name a end off ≡ some (name, off + 4 + length name))
        × At a (off + 4 + length name) post
  unfolding take_name named put_name
  take_name-At off name post h k l =
      let h' : At a off (put_le 4 (length name) ++ (name ++ post)) =
        subst (λ s. At a off s) (append_assoc (put_le 4 (length name)) name post) h in
      let (p, q) =
        take_bytes-At off 4 (put_le 4 (length name)) (name ++ post) h'
          (length-put_le 4 (length name)) (omega (arith, length-append name post)) in
      let (r, t) = take_bytes-At (off + 4) (length name) name post q refl l in
      (
        ap named_at p
            ∙ ap (λ n. take_bytes a end (off + 4) n) (load_le-put_le 4 (length name) (omega arith))
            ∙ r,
        t,
      )
    where
      named_at : Option (Bytes × ℕ) → Option (Bytes × ℕ)
      named_at o = named a end o
