-- ===== src/Fetch/Ladder/Attempts.antt =====
-- What one attempt leaves in the partial file.
use mathlib.Core.List.{append_assoc, append-nil}
use mass_worker_llama_cpp.Prelude.{
  ℕ, zero, suc, ◌<◌, Bool, true, false, ◌&&◌, ◌||◌, not, List, [], ◌∷◌, ◌++◌, Option, none, some,
  Bytes, All, length, ltb, ◌==◌, if◌then◌else◌, ◌≡◌, ◌≢◌, refl, sym, ap, subst, ◌∙◌, arith, inl,
  inr, Bool-cases, if_true, if_false,
}
use mass_worker_llama_cpp.Prelude.Slices.{drop, drop_of}
use mass_worker_llama_cpp.Fetch.Ladder.{
  Chunk, WriteCtx, fwrite, resumes, unconfirmed, confirmed, write_cb, transfer, CurlCode, ok,
  range_error, other, Round, AttemptFailure, judge_failure, judge, content_of, starting, on_disk,
  transferred, download_attempt,
}
use mass_worker_llama_cpp.Fetch.Ladder.Transfers.{
  Starts, take_Starts, bytes_of, confirms, Serves, Appended, Starts-both, fwrite-Piece,
  Piece-Appended, transfer-Appended, true_ne,
}

Starts-trans : (a b c : Bytes) → Starts a b → Starts b c → Starts a c
Starts-trans a b c (r, e) (t, f) = (r ++ t, sym (append_assoc a r t) ∙ ap (λ x. x ++ t) e ∙ f)

module _ (body : Bytes) (o : ℕ) (r : Round) where
  -- What a transfer of an attempt leaves: a start of the body, and the body when it succeeds.
  record Sound (p : WriteCtx × Bool) : Type 0 where
    pub starts : Starts p.0.file body
    pub whole :
        p.1 ≡ false → r.code ≡ ok → (ltb 0 o && not p.0.checked_response) ≡ false → p.0.file ≡ body

  -- The pieces stand behind `s` in the file, and are those of the rest of the body.
  Sound-of_Appended :
      (s q : Bytes) (p : WriteCtx × Bool)
      → Appended s r.chunks p
      → s ++ q ≡ body
      → Starts (bytes_of r.chunks) q
      → (r.code ≡ ok → bytes_of r.chunks ≡ q)
      → Sound p
  Sound-of_Appended s q p a e b c = record {
    starts =
        subst (λ f. Starts f body) (sym a.file_is)
          (subst (λ x. Starts (s ++ a.added) x) e
            (Starts-both s a.added q (Starts-trans a.added (bytes_of r.chunks) q a.begins b)));
    whole = λ h k g. a.file_is ∙ ap (λ x. s ++ x) (a.whole h ∙ c k) ∙ e;
  }

  Sound-aborted : (ctx : WriteCtx) → Starts ctx.file body → Sound (ctx, true)
  Sound-aborted ctx h = record { starts = h; whole = λ w k g. absurd (true_ne w) }

pub some_ne : {f : AttemptFailure} → some f ≢ none
some_ne e = cc

either :
    (b : Bool) (x y : Option AttemptFailure) → x ≢ none → y ≢ none → (if b then x else y) ≢ none
either true x y h k = h
either false x y h k = k

guard_off : (b : Bool) (f : AttemptFailure) → (if b then some f else none) ≡ none → b ≡ false
guard_off true f h = cc
guard_off false f h = refl

judge_failure_some :
    (no_space : ℕ) (r : Round) (is_range : Bool) (ctx : WriteCtx)
    → judge_failure no_space r is_range ctx ≢ none
unfolding judge_failure
judge_failure_some no_space r is_range ctx = either r.cancelled _ _ some_ne (
    either (ctx.range_ignored || is_range) _ _ some_ne
      (either (ctx.write_errno == no_space) _ _ some_ne some_ne))

-- An attempt that fails leaves a start of the body, one that succeeds the body.
abbrev pub Good : Bytes → Option Bytes × Option AttemptFailure → Type 0
Good body t = Starts (content_of t.0) body × (t.1 ≡ none → t.0 ≡ some body)

on_disk-Starts : (o : Option ℕ) (s : Bytes) → Starts (on_disk o s) s
unfolding on_disk
on_disk-Starts none s = ([], append-nil s)
on_disk-Starts (some n) s = take_Starts n s

transferred-Good :
    (no_space : ℕ) (body : Bytes) (o : ℕ) (r : Round) (p : WriteCtx × Bool)
    → (r.code ≡ ok → r.flushed ≡ none)
    → Sound body o r p
    → Good body (transferred no_space r o p)
unfolding transferred judge on_disk
transferred-Good no_space body o r (ctx, true) z s = (
  Starts-trans _ ctx.file body (on_disk-Starts r.flushed ctx.file) s.starts,
  λ h. absurd (judge_failure_some no_space r false ctx h),
)
transferred-Good no_space body o r (ctx, false) z s = (
  Starts-trans _ ctx.file body (on_disk-Starts r.flushed ctx.file) s.starts,
  λ h. ap some (judged r.code refl h),
)
  where
    judged :
        (code : CurlCode)
        → r.code ≡ code
        → judge no_space r o code ctx ≡ none
        → on_disk r.flushed ctx.file ≡ body
    judged ok e h = ap (λ f. on_disk f ctx.file) (z e) ∙ s.whole refl e (guard_off _ _ h)
    judged range_error e h = absurd (judge_failure_some no_space r true ctx h)
    judged other e h = absurd (judge_failure_some no_space r false ctx h)

-- Nothing stands in the file before it is opened anew, and what stands there to be resumed is a
-- start of the body, as long as the offset says.
abbrev pub Resumable : Bytes → ℕ → Option Bytes → Type 0
Resumable body zero tmp = Starts (content_of tmp) body
Resumable body (suc o) tmp = Starts (content_of tmp) body × (length (content_of tmp) ≡ suc o)

rest_of : (n : ℕ) (s q body : Bytes) → length s ≡ n → s ++ q ≡ body → drop n body ≡ q
rest_of n s q body h e = ap (drop n) (sym e) ∙ drop_of n s q h

pub or_false : (a b : Bool) → (a || b) ≡ false → b ≡ false
or_false true b h = cc
or_false false b h = h

positive : (o : ℕ) → ltb 0 (suc o) ≡ true
positive o = ground arith

not_zero : (n : ℕ) → 0 < n → (0 == n) ≡ false
not_zero n h = ground arith

first_of :
    (c : Chunk) (cs : List Chunk) → All (λ c. 0 < length c.bytes) (c ∷ cs) → 0 < length c.bytes
first_of c cs (h, hs) = h

carried :
    (c : Chunk) (cs : List Chunk) (ctx : WriteCtx) (w : WriteCtx × ℕ)
    → write_cb true c ctx ≡ w
    → transfer true (c ∷ cs) ctx
      ≡ (if w.1 == length c.bytes then transfer true cs w.0 else (w.0, true))
unfolding transfer
carried c cs ctx w h =
    ap (λ x. if x.1 == length c.bytes then transfer true cs x.0 else (x.0, true)) h

cut_short :
    (c : Chunk) (cs : List Chunk) (ctx : WriteCtx) (w : WriteCtx × ℕ)
    → write_cb true c ctx ≡ w
    → (w.1 == length c.bytes) ≡ false
    → transfer true (c ∷ cs) ctx ≡ (w.0, true)
cut_short c cs ctx w h k = carried c cs ctx w h ∙ if_false _ _ _ k

module _ (body : Bytes) where
  nothing_read :
      (o : ℕ) (r : Round) (tmp : Option Bytes)
      → Starts (content_of tmp) body
      → Sound body (suc o) r (transfer true [] (starting (suc o) tmp))
  unfolding transfer
  nothing_read o r tmp t = record {
    starts = t;
    whole = λ w k g. absurd (true_ne (sym (ap (λ b. b && true) (positive o)) ∙ g));
  }

  first_piece-Sound :
      (o : ℕ) (r : Round) (tmp : Option Bytes) (c : Chunk) (cs : List Chunk)
      → r.chunks ≡ c ∷ cs
      → Serves body (suc o) r
      → Resumable body (suc o) tmp
      → Sound body (suc o) r (transfer true (c ∷ cs) (starting (suc o) tmp))
  unfolding write_cb confirmed unconfirmed
  first_piece-Sound o r tmp c cs h v ((q, e), l) =
      let start = starting (suc o) tmp in
      let short : (0 == length c.bytes) ≡ false =
        not_zero (length c.bytes)
          (first_of c cs (subst (All (λ c. 0 < length c.bytes)) h v.pieces)) in
      let rest : drop (suc o) body ≡ q = rest_of (suc o) (content_of tmp) q body l e in
      elim (Bool-cases c.cancelled) [
        | inl a ↦
            subst (Sound body (suc o) r)
              (sym (cut_short c cs start (start, 0) (if_true _ _ _ a) short))
              (Sound-aborted body (suc o) r start (q, e))
        | inr a ↦ elim (Bool-cases (resumes c.status)) [
          | inl b ↦
              let shown : confirms (suc o) r.chunks ≡ true = ap (confirms (suc o)) h ∙ b in
              let began = record start { checked_response = true } in
              subst (Sound body (suc o) r)
                (sym (carried c cs start _ (if_false _ _ _ a ∙ ap (λ x. unconfirmed x c start) b)))
                (Sound-of_Appended body (suc o) r (content_of tmp) q _
                  (subst
                    (λ x. Appended (content_of tmp) x (
                      if (fwrite c began).1 == length c.bytes
                      then transfer true cs (fwrite c began).0
                      else ((fwrite c began).0, true)))
                    (sym h)
                    (Piece-Appended true c cs (content_of tmp) (fwrite c began)
                      (fwrite-Piece true c began refl)
                      (transfer-Appended true cs (fwrite c began).0
                        (fwrite-Piece true c began refl).guarded)))
                  e (subst (Starts (bytes_of r.chunks)) rest (v.start shown))
                  (λ k. v.complete shown k ∙ rest))
          | inr b ↦
              subst (Sound body (suc o) r)
                (sym (
                  cut_short c cs start
                    (record start { checked_response = true; range_ignored = true }, 0)
                    (if_false _ _ _ a ∙ ap (λ x. unconfirmed x c start) b) short))
                (Sound-aborted body (suc o) r
                  (record start { checked_response = true; range_ignored = true }) (q, e))
        ]
      ]

  transfer-Sound :
      (o : ℕ) (r : Round) (tmp : Option Bytes) (cs : List Chunk)
      → r.chunks ≡ cs
      → Serves body o r
      → Resumable body o tmp
      → Sound body o r (transfer (ltb 0 o) cs (starting o tmp))
  transfer-Sound zero r tmp cs h v t =
      subst (λ x. Sound body 0 r (transfer false x (starting 0 tmp))) h
        (Sound-of_Appended body 0 r [] body _
          (transfer-Appended false r.chunks (starting 0 tmp) refl) refl (v.start refl)
          (v.complete refl))
  transfer-Sound (suc o) r tmp [] h v (t, l) =
      subst (λ b. Sound body (suc o) r (transfer b [] (starting (suc o) tmp))) (sym (positive o))
        (nothing_read o r tmp t)
  transfer-Sound (suc o) r tmp (c ∷ cs) h v t =
      subst (λ b. Sound body (suc o) r (transfer b (c ∷ cs) (starting (suc o) tmp)))
        (sym (positive o)) (first_piece-Sound o r tmp c cs h v t)

  chosen :
      (b : Bool) (x y : Option Bytes × Option AttemptFailure)
      → Good body x
      → Good body y
      → Good body (if b then x else y)
  chosen true x y h k = h
  chosen false x y h k = k

  Starts_of : (o : ℕ) (tmp : Option Bytes) → Resumable body o tmp → Starts (content_of tmp) body
  Starts_of zero tmp t = t
  Starts_of (suc o) tmp t = t.0

  pub download_attempt-Good :
      (no_space o : ℕ) (r : Round) (tmp : Option Bytes)
      → Serves body o r
      → Resumable body o tmp
      → Good body (download_attempt no_space r o tmp)
  unfolding download_attempt
  download_attempt-Good no_space o r tmp v t =
      chosen (not r.curl_inits) _ _ (Starts_of o tmp t, λ h. absurd (some_ne h))
        (chosen (not r.file_opens) _ _ (Starts_of o tmp t, λ h. absurd (some_ne h))
          (transferred-Good no_space body o r _ v.flush (transfer-Sound o r tmp r.chunks refl v t)))
