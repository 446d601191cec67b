-- ===== src/Fetch/Ladder/Transfers.antt =====
-- What a transfer adds to the partial file.
use mathlib.Core.List.{append_assoc, append-nil}
use mass_worker_llama_cpp.Prelude.{
  ℕ, zero, suc, ◌<◌, Bool, true, false, ◌&&◌, not, List, [], ◌∷◌, ◌++◌, none, Bytes, All, length,
  ◌==◌, if◌then◌else◌, ◌≡◌, ◌≢◌, refl, sym, ap, subst, ◌∙◌, inl, inr, Bool-cases, ==_iff, if_true,
  if_false,
}
use mass_worker_llama_cpp.Prelude.Slices.{take, drop, take-append}
use mass_worker_llama_cpp.Fetch.Ladder.{
  Chunk, WriteCtx, fwrite, resumes, confirmed, write_cb, transfer, ok, Round,
}

-- The first is the start of the second.
abbrev pub Starts : Bytes → Bytes → Type 0
Starts s b = (r : Bytes) × (s ++ r ≡ b)

abbrev pub bytes_of : List Chunk → Bytes
bytes_of [] = []
bytes_of (c ∷ cs) = c.bytes ++ bytes_of cs

-- A response that may be appended at an offset, by the status that its first piece comes with; one
-- without a piece, such as a 416, may not, whatever libcurl makes of it.
abbrev pub confirms : ℕ → List Chunk → Bool
confirms zero cs = true
confirms (suc o) [] = false
confirms (suc o) (c ∷ cs) = resumes c.status

-- A server of a file: pieces are not empty, and a response that may be appended brings a start of
-- what is asked for, or all of it if libcurl calls it complete. The last flush of a transfer that
-- libcurl calls complete goes through.
pub record Serves (body : Bytes) (o : ℕ) (r : Round) : Type 0 where
  pub pieces : All (λ c. 0 < length c.bytes) r.chunks
  pub start : confirms o r.chunks ≡ true → Starts (bytes_of r.chunks) (drop o body)
  pub complete : confirms o r.chunks ≡ true → r.code ≡ ok → bytes_of r.chunks ≡ drop o body
  pub flush : r.code ≡ ok → r.flushed ≡ none

-- What was appended to the file: a start of the pieces, and all of them without an abort.
pub record Appended (file : Bytes) (cs : List Chunk) (r : WriteCtx × Bool) : Type 0 where
  pub added : Bytes
  pub file_is : r.0.file ≡ file ++ added
  pub begins : Starts added (bytes_of cs)
  pub whole : r.1 ≡ false → added ≡ bytes_of cs

Starts-append : (s b t : Bytes) → Starts s b → Starts s (b ++ t)
Starts-append s b t (r, e) = (r ++ t, sym (append_assoc s r t) ∙ ap (λ x. x ++ t) e)

Starts-cons : (x : ℕ) (s b : Bytes) → Starts s b → Starts (x ∷ s) (x ∷ b)
Starts-cons x s b (r, e) = (r, ap (λ y. x ∷ y) e)

pub Starts-both : (a s b : Bytes) → Starts s b → Starts (a ++ s) (a ++ b)
Starts-both a s b (r, e) = (r, append_assoc a s r ∙ ap (λ y. a ++ y) e)

pub take_Starts : (n : ℕ) (s : Bytes) → Starts (take n s) s
take_Starts zero s = (s, refl)
take_Starts (suc n) [] = ([], refl)
take_Starts (suc n) (x ∷ s) = Starts-cons x (take n s) s (take_Starts n s)

pub take_all : (s : Bytes) (n : ℕ) → n ≡ length s → take n s ≡ s
take_all s n h =
    ap (λ k. take k s) h ∙ (ap (take (length s)) (sym (append-nil s)) ∙ take-append s [])

pub true_ne : true ≢ false
true_ne e = cc

-- What one piece adds.
pub record Piece (expect : Bool) (c : Chunk) (file : Bytes) (r : WriteCtx × ℕ) : Type 0 where
  pub file_is : r.0.file ≡ file ++ take r.1 c.bytes
  pub guarded : (expect && not r.0.checked_response) ≡ false

and_false : (b : Bool) → (b && false) ≡ false
and_false true = refl
and_false false = refl

pub fwrite-Piece :
    (expect : Bool) (c : Chunk) (ctx : WriteCtx)
    → (expect && not ctx.checked_response) ≡ false
    → Piece expect c ctx.file (fwrite c ctx)
unfolding fwrite
fwrite-Piece expect c ctx h = record { file_is = refl; guarded = h }

write_cb-Piece :
    (expect : Bool) (c : Chunk) (ctx : WriteCtx)
    → (expect && not ctx.checked_response) ≡ false
    → Piece expect c ctx.file (write_cb expect c ctx)
unfolding write_cb confirmed
write_cb-Piece expect c ctx h = elim (Bool-cases c.cancelled) [
  | inl e ↦
      subst (Piece expect c ctx.file) (sym (if_true _ _ _ e))
        (record { file_is = sym (append-nil ctx.file); guarded = h })
  | inr e ↦
      subst (Piece expect c ctx.file) (sym (if_false _ _ _ e ∙ ap (λ b. confirmed b c ctx) h))
        (fwrite-Piece expect c ctx h)
]

pub Piece-Appended :
    (expect : Bool) (c : Chunk) (cs : List Chunk) (file : Bytes) (r : WriteCtx × ℕ)
    → Piece expect c file r
    → Appended r.0.file cs (transfer expect cs r.0)
    → Appended file (c ∷ cs) (if r.1 == length c.bytes then transfer expect cs r.0 else (r.0, true))
Piece-Appended expect c cs file r p ih = elim (Bool-cases (r.1 == length c.bytes)) [
  | inl e ↦
      let all : take r.1 c.bytes ≡ c.bytes =
        take_all c.bytes r.1 ((==_iff r.1 (length c.bytes)).0 e) in
      subst (Appended file (c ∷ cs)) (sym (if_true _ _ _ e)) (record {
        added = c.bytes ++ ih.added;
        file_is =
            ih.file_is
            ∙ ap (λ f. f ++ ih.added) (p.file_is ∙ ap (λ x. file ++ x) all)
            ∙ append_assoc file c.bytes ih.added;
        begins = Starts-both c.bytes ih.added (bytes_of cs) ih.begins;
        whole = λ w. ap (λ x. c.bytes ++ x) (ih.whole w);
      })
  | inr e ↦ subst (Appended file (c ∷ cs)) (sym (if_false _ _ _ e)) (record {
    added = take r.1 c.bytes;
    file_is = p.file_is;
    begins = Starts-append (take r.1 c.bytes) c.bytes (bytes_of cs) (take_Starts r.1 c.bytes);
    whole = λ w. absurd (true_ne w);
  })
]

pub transfer-Appended :
    (expect : Bool) (cs : List Chunk) (ctx : WriteCtx)
    → (expect && not ctx.checked_response) ≡ false
    → Appended ctx.file cs (transfer expect cs ctx)
unfolding transfer
transfer-Appended expect [] ctx h = record {
  added = [];
  file_is = sym (append-nil ctx.file);
  begins = ([], refl);
  whole = λ e. refl;
}
transfer-Appended expect (c ∷ cs) ctx h =
    let p = write_cb-Piece expect c ctx h in
    Piece-Appended expect c cs ctx.file _ p
      (transfer-Appended expect cs (write_cb expect c ctx).0 p.guarded)
