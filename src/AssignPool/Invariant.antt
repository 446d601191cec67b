-- ===== src/AssignPool/Invariant.antt =====
-- What holds of the pool after any schedule.
use mathlib.Core.List.{append_assoc}
use mass_worker_llama_cpp.Prelude.{
  ℕ, ◌+◌, ◌-◌, ◌≤◌, ◌<◌, Bool, true, false, List, [], ◌∷◌, ◌++◌, Option, none, some, ◌==◌, length,
  length-append, length-set, get_elem?, set, if◌then◌else◌, ◌≡◌, ◌≢◌, refl, sym, ap, ◌∙◌, inl, inr,
  arith, Bool-cases,
}
use mass_worker_llama_cpp.AssignPool.{
  Phase, ready, parked, exited, running, Pool, init, accept, post, begin_shutdown, take_task,
  may_go, move, Event, posts, shuts_down, moves, step, run,
}
use mass_worker_llama_cpp.Prelude.Sums.{total, total-set, total-append, total-one}

abbrev pub is_parked : Phase → ℕ
is_parked parked = 1
is_parked _ = 0

abbrev pub is_exited : Phase → ℕ
is_exited exited = 1
is_exited _ = 0

abbrev pub runs : ℕ → Phase → ℕ
runs t (running u) = if u == t then 1 else 0
runs t _ = 0

abbrev pub count : ℕ → List ℕ → ℕ
count t [] = 0
count t (u ∷ us) = (if u == t then 1 else 0) + count t us

pub record Inv (p : Pool) : Type 0 where
  pub capped : length p.workers ≤ p.max_threads
  pub some_cap : 0 < p.max_threads
  pub idle_parked : p.idle ≡ total is_parked p.workers
  pub in_order : p.accepted ≡ p.started ++ p.queue
  pub balanced : (t : ℕ) → count t p.started ≡ count t p.finished + total (runs t) p.workers
  pub exits : 0 < total is_exited p.workers → (p.draining ≡ true) × (p.queue ≡ [])
  pub served : p.queue ≢ [] → 0 < length p.workers

pub init-Inv : (n : ℕ) → Inv (init n)
unfolding init total
init-Inv n = record {
  capped = ground arith;
  some_cap = ground arith;
  idle_parked = refl;
  in_order = refl;
  balanced = λ t. refl;
  exits = λ h. absurd (omega arith);
  served = λ h. absurd (h refl);
}

count-append : (t : ℕ) (xs ys : List ℕ) → count t (xs ++ ys) ≡ count t xs + count t ys
count-append t [] ys = omega arith
count-append t (x ∷ xs) ys = omega (arith, count-append t xs ys)

parked-le : (ws : List Phase) → total is_parked ws ≤ length ws
unfolding total
parked-le [] = omega arith
parked-le (parked ∷ ws) = omega (arith, parked-le ws)
parked-le (ready ∷ ws) = omega (arith, parked-le ws)
parked-le (exited ∷ ws) = omega (arith, parked-le ws)
parked-le (running t ∷ ws) = omega (arith, parked-le ws)

accept-Inv : (t : ℕ) (p : Pool) → p.draining ≡ false → Inv p → Inv (accept t p)
unfolding accept
accept-Inv t p live v = record {
  capped = ground (arith, length-append p.workers (ready ∷ []));
  some_cap = v.some_cap;
  idle_parked =
      ground (arith, total-append is_parked p.workers (ready ∷ []), total-one is_parked ready);
  in_order = ap (λ l. l ++ (t ∷ [])) v.in_order ∙ append_assoc p.started p.queue (t ∷ []);
  balanced = λ u.
      ground (
        arith,
        v.balanced u,
        total-append (runs u) p.workers (ready ∷ []),
        total-one (runs u) ready,
      );
  exits = λ h.
      ground (
        arith,
        v.exits,
        total-append is_exited p.workers (ready ∷ []),
        total-one is_exited ready,
        h,
      );
  served = λ h. ground (arith, length-append p.workers (ready ∷ []), parked-le p.workers);
}

post-Inv : (t : ℕ) (p : Pool) → Inv p → Inv (post t p)
unfolding post
post-Inv t p v = choose p.draining refl
  where
    choose : (b : Bool) → p.draining ≡ b → Inv (if b then p else accept t p)
    choose true e = v
    choose false e = accept-Inv t p e v

pub begin_shutdown-Inv : (p : Pool) → Inv p → Inv (begin_shutdown p)
unfolding begin_shutdown
begin_shutdown-Inv p v = record {
  capped = v.capped;
  some_cap = v.some_cap;
  idle_parked = v.idle_parked;
  in_order = v.in_order;
  balanced = v.balanced;
  exits = λ h. (refl, (v.exits h).1);
  served = v.served;
}

-- Neither in a task nor gone: the phases from which a task may be taken.
record IsIdle (q : Phase) : Type 0 where
  not_exited : is_exited q ≡ 0
  not_running : (t : ℕ) → runs t q ≡ 0

take_task-Inv :
    (i n : ℕ) (p : Pool) (q : Phase) (queue : List ℕ)
    → get_elem? p.workers i ≡ some q
    → IsIdle q
    → n + is_parked q ≡ p.idle
    → p.queue ≡ queue
    → (queue ≡ [] → p.draining ≡ true)
    → Inv p
    → Inv (take_task i queue (record p { idle = n }))
unfolding take_task
take_task-Inv i n p q [] at free less empty drained v = record {
  capped = omega (arith, v.capped, length-set p.workers i exited);
  some_cap = v.some_cap;
  idle_parked = omega (arith, v.idle_parked, total-set is_parked p.workers i q exited at);
  in_order = v.in_order;
  balanced = λ t.
      omega (arith, v.balanced t, total-set (runs t) p.workers i q exited at, free.not_running t);
  exits = λ h. (drained refl, empty);
  served = λ h. absurd (h empty);
}
take_task-Inv i n p q (t ∷ queue) at free less front drained v = record {
  capped = omega (arith, v.capped, length-set p.workers i (running t));
  some_cap = v.some_cap;
  idle_parked = omega (arith, v.idle_parked, total-set is_parked p.workers i q (running t) at);
  in_order =
      v.in_order ∙ ap (λ l. p.started ++ l) front ∙ sym (append_assoc p.started (t ∷ []) queue);
  balanced = λ u. ground (
    arith,
    v.balanced u,
    total-set (runs u) p.workers i q (running t) at,
    free.not_running u,
    count-append u p.started (t ∷ []),
  );
  exits = λ h.
      absurd_of_exit
        (v.exits (omega (arith, total-set is_exited p.workers i q (running t) at, free.not_exited)))
        h;
  served = λ h. omega (arith, v.served (λ e. nonempty e), length-set p.workers i (running t));
}
  where
    nonempty : p.queue ≡ [] → ⊥
    nonempty e = cc

    absurd_of_exit :
        (p.draining ≡ true) × (p.queue ≡ [])
        → 0 < total is_exited (set p.workers i (running t))
        → (p.draining ≡ true) × (queue ≡ [])
    absurd_of_exit g h = ground (arith, g.1, front)

ready-IsIdle : IsIdle ready
ready-IsIdle = record { not_exited = refl; not_running = λ t. refl }

parked-IsIdle : IsIdle parked
parked-IsIdle = record { not_exited = refl; not_running = λ t. refl }

drained_of_go : (p : Pool) → may_go p ≡ true → p.queue ≡ [] → p.draining ≡ true
unfolding may_go
drained_of_go p h e = ground arith

park-Inv :
    (i : ℕ) (p : Pool)
    → get_elem? p.workers i ≡ some ready
    → Inv p
    → Inv (record p { idle = p.idle + 1; workers = set p.workers i parked })
park-Inv i p at v = record {
  capped = omega (arith, v.capped, length-set p.workers i parked);
  some_cap = v.some_cap;
  idle_parked = omega (arith, v.idle_parked, total-set is_parked p.workers i ready parked at);
  in_order = v.in_order;
  balanced = λ t. omega (arith, v.balanced t, total-set (runs t) p.workers i ready parked at);
  exits = λ h. v.exits (omega (arith, total-set is_exited p.workers i ready parked at));
  served = λ h. omega (arith, v.served h, length-set p.workers i parked);
}

finish-Inv :
    (i t : ℕ) (p : Pool)
    → get_elem? p.workers i ≡ some (running t)
    → Inv p
    → Inv (record p { finished = p.finished ++ (t ∷ []); workers = set p.workers i ready })
finish-Inv i t p at v = record {
  capped = omega (arith, v.capped, length-set p.workers i ready);
  some_cap = v.some_cap;
  idle_parked = omega (arith, v.idle_parked, total-set is_parked p.workers i (running t) ready at);
  in_order = v.in_order;
  balanced = λ u. ground (
    arith,
    v.balanced u,
    total-set (runs u) p.workers i (running t) ready at,
    count-append u p.finished (t ∷ []),
  );
  exits = λ h. v.exits (omega (arith, total-set is_exited p.workers i (running t) ready at));
  served = λ h. omega (arith, v.served h, length-set p.workers i ready);
}

parked_pos : (ws : List Phase) (i : ℕ) → get_elem? ws i ≡ some parked → 0 < total is_parked ws
parked_pos ws i at = omega (arith, total-set is_parked ws i parked ready at)

move-Inv :
    (i : ℕ) (ph : Option Phase) (p : Pool) → get_elem? p.workers i ≡ ph → Inv p → Inv (move i ph p)
unfolding move
move-Inv i none p at v = v
move-Inv i (some exited) p at v = v
move-Inv i (some (running t)) p at v = finish-Inv i t p at v
move-Inv i (some ready) p at v = elim (Bool-cases (may_go p)) [
  | inl e ↦ rw e (
      take_task-Inv i p.idle p ready p.queue at ready-IsIdle (omega arith) refl (drained_of_go p e)
        v)
  | inr e ↦ rw e (park-Inv i p at v)
]
move-Inv i (some parked) p at v = elim (Bool-cases (may_go p)) [
  | inl e ↦ rw e (
      take_task-Inv i (p.idle - 1) p parked p.queue at parked-IsIdle
        (omega (arith, v.idle_parked, parked_pos p.workers i at)) refl (drained_of_go p e) v)
  | inr e ↦ rw e v
]

step-Inv : (p : Pool) (e : Event) → Inv p → Inv (step p e)
unfolding step
step-Inv p (posts t) v = post-Inv t p v
step-Inv p shuts_down v = begin_shutdown-Inv p v
step-Inv p (moves i) v = move-Inv i (get_elem? p.workers i) p refl v

pub run-Inv : (p : Pool) (es : List Event) → Inv p → Inv (run p es)
unfolding run
run-Inv p [] v = v
run-Inv p (e ∷ es) v = run-Inv (step p e) es (step-Inv p e v)

-- After any schedule: the threads are within the cap, `idle_` is the number of parked threads, the
-- tasks have been started in the order in which they were accepted with the queue as the rest, none
-- is lost or run twice, a thread has returned only if the pool drains and its queue is empty, and a
-- queue with tasks in it has a thread to serve it.
pub run-init-Inv : (max_threads : ℕ) (es : List Event) → Inv (run (init max_threads) es)
run-init-Inv max_threads es = run-Inv (init max_threads) es (init-Inv max_threads)
