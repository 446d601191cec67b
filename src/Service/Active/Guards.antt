-- ===== src/Service/Active/Guards.antt =====
-- The counts refine the multiset of live guards.
use mass_worker_llama_cpp.Prelude.{
  ℕ, zero, suc, ◌+◌, ◌-◌, ◌<◌, List, [], ◌∷◌, Option, none, some, Bytes, text_eq, text_eq_iff,
  text_eq_refl, length, if◌then◌else◌, ◌≡◌, refl, ◌∙◌, arith,
}
use mass_worker_llama_cpp.Prelude.Map.{Dict, lookup, lookup-assign, lookup-erase}
use mass_worker_llama_cpp.Service.State.{Service, init}
use mass_worker_llama_cpp.Service.Active.{enter, leave, drop_count}

-- How many of the live guards are held for a model.
abbrev pub count : Bytes → List Bytes → ℕ
count id [] = 0
count id (x ∷ xs) = let rest = count id xs in if text_eq x id then suc rest else rest

-- The guards without one for the model.
abbrev pub release : Bytes → List Bytes → List Bytes
release id [] = []
release id (x ∷ xs) = let rest = release id xs in if text_eq x id then xs else x ∷ rest

abbrev pub positive : ℕ → Option ℕ
positive zero = none
positive (suc n) = some (suc n)

-- A model's entry is the number of its live guards, and is absent if there are none.
pub record Tracks (held : List Bytes) (s : Service) : Type 0 where
  pub each : (id : Bytes) → lookup id s.active_per_model ≡ positive (count id held)
  pub total : s.active_total ≡ length held

enter-each :
    (held : List Bytes) (s : Service) (id j : Bytes)
    → Tracks held s
    → lookup j (enter id s).active_per_model ≡ positive (count j (id ∷ held))
unfolding enter
enter-each held s id j t =
    lookup-assign id j _ s.active_per_model ∙ ground (arith, t.each id, t.each j, text_eq_iff id j)

pub enter-Tracks :
    (held : List Bytes) (s : Service) (id : Bytes) → Tracks held s → Tracks (id ∷ held) (enter id s)
enter-Tracks held s id t = record {
  each = λ j. enter-each held s id j t;
  total = unfold enter in omega (arith, t.total);
}

count-release :
    (id j : Bytes) (held : List Bytes)
    → count j (release id held) ≡ (if text_eq id j then count j held - 1 else count j held)
count-release id j [] = ground arith
count-release id j (x ∷ xs) = ground (
  arith,
  text_eq_iff x id,
  text_eq_iff x j,
  text_eq_iff id j,
  text_eq_refl j,
  count-release id j xs,
)

length-release :
    (id : Bytes) (held : List Bytes)
    → 0 < count id held
    → length (release id held) + 1 ≡ length held
length-release id [] h = elim h [ ]
length-release id (x ∷ xs) h = ground (arith, length-release id xs)

lookup-drop_count :
    (id j : Bytes) (n : ℕ) (m : Dict ℕ)
    → lookup j (drop_count id (some (suc n)) m) ≡ (if text_eq id j then positive n else lookup j m)
unfolding drop_count
lookup-drop_count id j zero m = lookup-erase id j m
lookup-drop_count id j (suc n) m =
    let e : suc (suc n) - 1 ≡ suc n = omega arith in
    rw e (ground (arith, lookup-assign id j (suc n) m))

leave-each :
    (held : List Bytes) (s : Service) (id j : Bytes) (n : ℕ)
    → Tracks held s
    → count id held ≡ suc n
    → lookup j (leave id s).active_per_model ≡ positive (count j (release id held))
unfolding leave
leave-each held s id j n t e =
    rw (t.each id, e)
      (lookup-drop_count id j n s.active_per_model
        ∙ ground (arith, count-release id j held, t.each j, text_eq_iff id j, e))

pub leave-Tracks :
    (held : List Bytes) (s : Service) (id : Bytes)
    → 0 < count id held
    → Tracks held s
    → Tracks (release id held) (leave id s)
leave-Tracks held s id h t = record {
  each = λ j. leave-each held s id j (count id held - 1) t (omega arith);
  total = unfold leave in omega (arith, t.total, length-release id held h);
}

-- What the threads of a session do to the counts.
pub data Event : Type 0 where
  enters leaves : Bytes → Event

pub step : Service → Event → Service
step s (enters id) = enter id s
step s (leaves id) = leave id s

pub run : Service → List Event → Service
run s [] = s
run s (e ∷ es) = run (step s e) es

abbrev pub held_after : List Bytes → List Event → List Bytes
held_after held [] = held
held_after held (enters id ∷ es) = held_after (id ∷ held) es
held_after held (leaves id ∷ es) = held_after (release id held) es

-- Each destructor belongs to a guard that is live: the discipline of scoped objects.
abbrev pub IsScoped : List Bytes → List Event → Type 0
IsScoped held [] = Unit {0}
IsScoped held (enters id ∷ es) = IsScoped (id ∷ held) es
IsScoped held (leaves id ∷ es) = (0 < count id held) × IsScoped (release id held) es

run-Tracks :
    (held : List Bytes) (s : Service) (es : List Event)
    → IsScoped held es
    → Tracks held s
    → Tracks (held_after held es) (run s es)
unfolding run step
run-Tracks held s [] h t = t
run-Tracks held s (enters id ∷ es) h t =
    run-Tracks (id ∷ held) (enter id s) es h (enter-Tracks held s id t)
run-Tracks held s (leaves id ∷ es) h t =
    run-Tracks (release id held) (leave id s) es h.1 (leave-Tracks held s id h.0 t)

init-Tracks : (headroom : ℕ) → Tracks [] (init headroom)
unfolding init lookup
init-Tracks headroom = record { each = λ id. refl; total = refl }

-- After any interleaving of guards in which only live guards are destroyed, each model's count is
-- the number of its live guards, a model without one has no entry, and the total is the number of
-- all live guards.
pub run-init-Tracks :
    (headroom : ℕ) (es : List Event)
    → IsScoped [] es
    → Tracks (held_after [] es) (run (init headroom) es)
run-init-Tracks headroom es h = run-Tracks [] (init headroom) es h (init-Tracks headroom)
