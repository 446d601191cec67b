-- ===== src/Fetch/Ladder/Whole.antt =====
-- A download that succeeds is the whole file, whatever its attempts resumed from.
use mass_worker_llama_cpp.Prelude.{
  ℕ, zero, suc, ◌≤◌, Bool, true, false, ◌&&◌, ◌||◌, ◌++◌, Option, none, some, Bytes, length,
  length-append, ◌==◌, if◌then◌else◌, ◌≡◌, ◌≢◌, refl, sym, ap, subst, ◌∙◌, arith, inl, inr,
  Bool-cases, if_true, if_false,
}
use mass_worker_llama_cpp.Fetch.{FetchErrorCode}
use mass_worker_llama_cpp.Fetch.Ladder.{
  Round, AttemptFailure, content_of, resume_from, discarded, gives_up, next_attempt, attempt_from,
  ladder, Finish, placed, not_placed, finished, download_and_place,
}
use mass_worker_llama_cpp.Fetch.Ladder.Transfers.{Starts, Serves, true_ne}
use mass_worker_llama_cpp.Fetch.Ladder.Attempts.{Good, Resumable, download_attempt-Good, or_false}

module _ (body : Bytes) where
  Resumable-of_length :
      (n : ℕ) (tmp : Option Bytes)
      → Starts (content_of tmp) body
      → length (content_of tmp) ≡ n
      → Resumable body n tmp
  Resumable-of_length zero tmp t l = t
  Resumable-of_length (suc n) tmp t l = (t, l)

  Resumable-resume_from :
      (b : Bool) (tmp : Option Bytes)
      → Starts (content_of tmp) body
      → Resumable body (resume_from b tmp) tmp
  unfolding resume_from
  Resumable-resume_from b none t = t
  Resumable-resume_from true (some s) t = Resumable-of_length (length s) (some s) t refl
  Resumable-resume_from false (some s) t = t

  offset_le : (o : ℕ) (tmp : Option Bytes) → Resumable body o tmp → o ≤ length body
  offset_le zero tmp t = omega arith
  offset_le (suc o) tmp ((q, e), l) =
      let total : length (content_of tmp ++ q) ≡ length body = ap length e in
      omega (arith, length-append (content_of tmp) q)

  -- The ladder leaves a start of the body behind, and the body without an error.
  abbrev Ends : Option Bytes × Option FetchErrorCode → Type 0
  Ends t = Starts (content_of t.0) body × (t.1 ≡ none → t.0 ≡ some body)

  code_ne : {e : FetchErrorCode} → some e ≢ none
  code_ne e = cc

  discarded-Starts :
      (r : Round) (f : AttemptFailure) (tmp : Option Bytes)
      → Starts (content_of tmp) body
      → Starts (content_of (discarded r f tmp)) body
  unfolding discarded
  discarded-Starts r f tmp t = elim (Bool-cases (f.discard_partial && r.removes)) [
    | inl e ↦ subst (λ x. Starts (content_of x) body) (sym (if_true _ _ _ e)) (body, refl)
    | inr e ↦ subst (λ x. Starts (content_of x) body) (sym (if_false _ _ _ e)) t
  ]

  kept-Starts :
      (b : Bool) (r : Round) (f : AttemptFailure) (tmp : Option Bytes)
      → Starts (content_of tmp) body
      → Starts (content_of (if b then tmp else discarded r f tmp)) body
  kept-Starts true r f tmp t = t
  kept-Starts false r f tmp t = discarded-Starts r f tmp t

  next_attempt-Ends :
      (r : Round) (left : ℕ) (p : Option Bytes × Option AttemptFailure)
      (again : Option Bytes → Option Bytes × Option FetchErrorCode)
      → Good body p
      → ((left == 0) ≡ false
          → (tmp : Option Bytes) → Starts (content_of tmp) body
          → Ends (again tmp))
      → Ends (next_attempt r left p again)
  unfolding next_attempt
  next_attempt-Ends r left (tmp, none) again g ih = (g.0, λ h. g.1 refl)
  next_attempt-Ends r left (tmp, some f) again g ih =
      let kept = kept-Starts r.stopped r f tmp g.0 in
      elim (Bool-cases (gives_up r f || (left == 0))) [
        | inl e ↦ subst Ends (sym (if_true _ _ _ e)) (kept, λ h. absurd (code_ne h))
        | inr e ↦
            subst Ends (sym (if_false _ _ _ e)) (ih (or_false (gives_up r f) (left == 0) e) _ kept)
      ]

  module _ (no_space : ℕ) (sizes : ℕ → Bool) (rounds : ℕ → ℕ → Round)
      (serves : (k o : ℕ) → o ≤ length body → Serves body o (rounds k o)) where
    rung-Ends :
        (n : ℕ) (tmp : Option Bytes)
        → Starts (content_of tmp) body
        → ((n == 0) ≡ false
            → (t : Option Bytes) → Starts (content_of t) body
            → Ends (ladder no_space sizes rounds n t))
        → Ends (ladder no_space sizes rounds (suc n) tmp)
    unfolding ladder attempt_from
    rung-Ends n tmp t ih =
        let o = resume_from (sizes n) tmp in
        let f = Resumable-resume_from (sizes n) tmp t in
        next_attempt-Ends (rounds n o) n _ (ladder no_space sizes rounds n)
          (download_attempt-Good body no_space o (rounds n o) tmp (serves n o (offset_le o tmp f))
            f)
          ih

    ladder-Ends :
        (n : ℕ) (tmp : Option Bytes)
        → Starts (content_of tmp) body
        → Ends (ladder no_space sizes rounds (suc n) tmp)
    ladder-Ends zero tmp t = rung-Ends 0 tmp t (λ h. absurd (true_ne h))
    ladder-Ends (suc n) tmp t = rung-Ends (suc n) tmp t (λ h u v. ladder-Ends n u v)

placed_eq : {x y : Option Bytes} → placed x ≡ placed y → x ≡ y
placed_eq h = cc

not_placed_ne : {e : FetchErrorCode} {x : Option Bytes} → not_placed e ≢ placed x
not_placed_ne h = cc

finished-body :
    (f : Finish) (body : Bytes) (t : Option Bytes × Option FetchErrorCode) (x : Option Bytes)
    → (t.1 ≡ none → t.0 ≡ some body)
    → finished f t ≡ placed x
    → x ≡ some body
unfolding finished
finished-body f body (tmp, some e) x h g = absurd (not_placed_ne g)
finished-body f body (tmp, none) x h g = elim (Bool-cases f.renames) [
  | inl e ↦ sym (placed_eq (sym (if_true _ _ _ e) ∙ g)) ∙ h refl
  | inr e ↦ elim (Bool-cases f.copies) [
    | inl c ↦ sym (placed_eq (sym (if_true _ _ _ c) ∙ (sym (if_false _ _ _ e) ∙ g))) ∙ h refl
    | inr c ↦ absurd (not_placed_ne (sym (if_false _ _ _ c) ∙ (sym (if_false _ _ _ e) ∙ g)))
  ]
]

-- If every attempt meets a server of the same file, whose pieces are not empty and whose responses,
-- where their status lets them be appended, bring a start of what is asked for and all of it when
-- libcurl calls them complete, if the last flush of a transfer that libcurl calls complete goes
-- through, and if the partial file of an earlier download is a start of the file: a download that
-- succeeds puts the whole file in its place, whatever failed before and whichever attempts resumed,
-- were answered with another status or with nothing that libcurl calls complete, as a 416 is, or
-- were not answered at all.
pub download_and_place-whole :
    (no_space : ℕ) (sizes : ℕ → Bool) (rounds : ℕ → ℕ → Round) (f : Finish) (body : Bytes)
    (tmp : Option Bytes) (x : Option Bytes)
    → ((k o : ℕ) → o ≤ length body → Serves body o (rounds k o))
    → Starts (content_of tmp) body
    → download_and_place no_space sizes rounds f tmp ≡ placed x
    → x ≡ some body
unfolding download_and_place
download_and_place-whole no_space sizes rounds f body tmp x serves t h =
    finished-body f body (ladder no_space sizes rounds 3 tmp) x
      (ladder-Ends body no_space sizes rounds serves 2 tmp t).1 h
