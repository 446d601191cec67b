-- ===== src/Runner/Session/Events.antt =====
-- What a session has read and answered, and how the loads in flight are counted.
use mass_worker_llama_cpp.Prelude.{
  ℕ, zero, suc, ◌+◌, ◌-◌, false, List, [], ◌∷◌, ◌++◌, Option, none, some, Bytes, text_eq,
  text_eq_iff, text_eq_refl, if◌then◌else◌, ◌≡◌, refl, sym, ap, ◌∙◌, arith, inl, inr, Bool-cases,
  if_true, if_false,
}
use mass_worker_llama_cpp.Prelude.Map.{Dict, lookup, lookup-assign, lookup-erase}
use mass_worker_llama_cpp.Service.Messages.{HubMessage, load_model}
use mass_worker_llama_cpp.Runner.Session.{
  Control, idle, taken, answered, Event, read_control, answered_control, handled_inline, started,
  dropped, Session, count_of, increment, lower, decrement,
}

-- The control messages that were read and those that were answered, in order.
abbrev pub reads : List Event → List HubMessage
reads [] = []
reads (read_control m ∷ l) = reads l ++ (m ∷ [])
reads (answered_control m ∷ l) = reads l
reads (handled_inline m ∷ l) = reads l
reads (started j ∷ l) = reads l
reads (dropped j ∷ l) = reads l

abbrev pub answers : List Event → List HubMessage
answers [] = []
answers (read_control m ∷ l) = answers l
answers (answered_control m ∷ l) = answers l ++ (m ∷ [])
answers (handled_inline m ∷ l) = answers l
answers (started j ∷ l) = answers l
answers (dropped j ∷ l) = answers l

-- How many of the messages load a model.
abbrev pub is_load : Bytes → HubMessage → ℕ
is_load mid (load_model r) = if text_eq r.model_id mid then 1 else 0
is_load mid _ = 0

abbrev pub loads : Bytes → List HubMessage → ℕ
loads mid [] = 0
loads mid (m ∷ ms) = is_load mid m + loads mid ms

-- Before each start, every load of its model that had been read had been answered.
abbrev pub InOrder : List Event → Type 0
InOrder [] = Unit {0}
InOrder (started j ∷ l) = (loads j.model_id (reads l) ≡ loads j.model_id (answers l)) × InOrder l
InOrder (read_control m ∷ l) = InOrder l
InOrder (answered_control m ∷ l) = InOrder l
InOrder (handled_inline m ∷ l) = InOrder l
InOrder (dropped j ∷ l) = InOrder l

abbrev pub in_hand : Control → List HubMessage
in_hand idle = []
in_hand (taken m) = m ∷ []
in_hand (answered m) = m ∷ []

abbrev pub unanswered : Control → List HubMessage
unanswered idle = []
unanswered (taken m) = m ∷ []
unanswered (answered m) = []

abbrev pub listed : Option HubMessage → List HubMessage
listed none = []
listed (some m) = m ∷ []

-- A count as an entry of the map.
abbrev pub as_entry : ℕ → Option ℕ
as_entry zero = none
as_entry (suc n) = some (suc n)

abbrev pub in_flight : Bytes → Session → ℕ
in_flight mid s =
    loads mid (in_hand s.control) + (loads mid s.control_q + loads mid (listed s.marked))

pub record IsGated (s : Session) : Type 0 where
  pub counted : (mid : Bytes) → lookup mid s.pending ≡ as_entry (in_flight mid s)
  pub ordered :
      reads s.log ≡ answers s.log ++ (unanswered s.control ++ (s.control_q ++ listed s.marked))
  pub in_order : InOrder s.log

pub loads-append :
    (mid : Bytes) (ms ns : List HubMessage) → loads mid (ms ++ ns) ≡ loads mid ms + loads mid ns
loads-append mid [] ns = omega arith
loads-append mid (m ∷ ms) ns = omega (arith, loads-append mid ms ns)

count_as_entry : (n : ℕ) → count_of (as_entry n) ≡ n
unfolding count_of
count_as_entry zero = refl
count_as_entry (suc n) = refl

-- One more load of a model, in flight and in the map.
pub counted-increment :
    (mid j : Bytes) (m : Dict ℕ) (n : ℕ)
    → lookup j m ≡ as_entry n
    → lookup j (increment mid m) ≡ as_entry (n + (if text_eq mid j then 1 else 0))
unfolding increment
counted-increment mid j m n g = elim (Bool-cases (text_eq mid j)) [
  | inl e ↦
      let same : lookup mid m ≡ as_entry n = ap (λ x. lookup x m) ((text_eq_iff mid j).0 e) ∙ g in
      let sum : suc n ≡ n + (if text_eq mid j then 1 else 0) = ground arith in
      lookup-assign mid j (suc (count_of (lookup mid m))) m
      ∙ if_true _ _ _ e
      ∙ ap (λ o. some (suc (count_of o))) same
      ∙ ap (λ k. some (suc k)) (count_as_entry n)
      ∙ ap as_entry sum
  | inr e ↦
      let sum : n ≡ n + (if text_eq mid j then 1 else 0) = ground arith in
      lookup-assign mid j (suc (count_of (lookup mid m))) m ∙ if_false _ _ _ e ∙ g ∙ ap as_entry sum
]

lower-entry :
    (mid : Bytes) (m : Dict ℕ) (n : ℕ) → lookup mid (lower mid (some (suc n)) m) ≡ as_entry n
unfolding lower
lower-entry mid m zero = ground (arith, lookup-erase mid mid m, text_eq_refl mid)
lower-entry mid m (suc n) = ground (arith, lookup-assign mid mid (suc n) m, text_eq_refl mid)

lower-other :
    (mid j : Bytes) (o : Option ℕ) (m : Dict ℕ)
    → text_eq mid j ≡ false
    → lookup j (lower mid o m) ≡ lookup j m
unfolding lower
lower-other mid j none m e = refl
lower-other mid j (some n) m e = ground (arith, lookup-erase mid j m, lookup-assign mid j (n - 1) m)

pub counted-decrement :
    (mid j : Bytes) (m : Dict ℕ) (n : ℕ)
    → lookup j m ≡ as_entry ((if text_eq mid j then 1 else 0) + n)
    → lookup j (decrement mid m) ≡ as_entry n
unfolding decrement
counted-decrement mid j m n g = elim (Bool-cases (text_eq mid j)) [
  | inl e ↦
      let eq : mid ≡ j = (text_eq_iff mid j).0 e in
      let sum : (if text_eq mid j then 1 else 0) + n ≡ suc n = ground arith in
      let here : lookup mid m ≡ some (suc n) = ap (λ x. lookup x m) eq ∙ (g ∙ ap as_entry sum) in
      ap (λ x. lookup x (lower mid (lookup mid m) m)) (sym eq)
      ∙ ap (λ o. lookup mid (lower mid o m)) here
      ∙ lower-entry mid m n
  | inr e ↦
      let sum : (if text_eq mid j then 1 else 0) + n ≡ n = ground arith in
      lower-other mid j (lookup mid m) m e ∙ g ∙ ap as_entry sum
]
