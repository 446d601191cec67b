-- ===== src/AssignPool/Backlog.antt =====
-- Teardown: the workers finish what was accepted, and end.
use mathlib.Core.List.{append-nil}
use mass_worker_llama_cpp.Prelude.{
  ℕ, ◌+◌, ◌-◌, ◌*◌, ◌<◌, true, List, [], ◌∷◌, ◌++◌, some, length, get_elem?, ◌≡◌, ◌≢◌, refl, sym,
  ap, ◌∙◌, arith, Option, none, map, zero, suc, ◌⊎◌, inl, inr, subst, if_true,
}
use mass_worker_llama_cpp.AssignPool.{
  Phase, ready, parked, exited, running, Pool, init, post, begin_shutdown, take_task, may_go, move,
  Event, posts, shuts_down, moves, step, run,
}
use mass_worker_llama_cpp.Prelude.Sums.{total, total-set}
use mass_worker_llama_cpp.AssignPool.Invariant.{
  run-Inv, run-init-Inv, begin_shutdown-Inv, Inv, is_exited, runs, count,
}

-- What is left for a thread to do before it returns.
abbrev pub rest : Phase → ℕ
rest ready = 1
rest parked = 1
rest (running t) = 2
rest exited = 0

pub measure : Pool → ℕ
measure p = 3 * length p.queue + total rest p.workers

none_exited_of_empty :
    (ws : List Phase) → total rest ws ≡ 0 → 0 < length ws → 0 < total is_exited ws
unfolding total
none_exited_of_empty [] e h = absurd (omega arith)
none_exited_of_empty (exited ∷ ws) e h = omega arith
none_exited_of_empty (ready ∷ ws) e h = absurd (omega arith)
none_exited_of_empty (parked ∷ ws) e h = absurd (omega arith)
none_exited_of_empty (running t ∷ ws) e h = absurd (omega arith)

runs_of_rest : (t : ℕ) (ws : List Phase) → total rest ws ≡ 0 → total (runs t) ws ≡ 0
unfolding total
runs_of_rest t [] e = refl
runs_of_rest t (exited ∷ ws) e = omega (arith, runs_of_rest t ws (omega arith))
runs_of_rest t (ready ∷ ws) e = absurd (omega arith)
runs_of_rest t (parked ∷ ws) e = absurd (omega arith)
runs_of_rest t (running u ∷ ws) e = absurd (omega arith)

queue_empty :
    (p : Pool) (queue : List ℕ) → p.queue ≡ queue → Inv p → total rest p.workers ≡ 0 → queue ≡ []
queue_empty p [] e v h = refl
queue_empty p (t ∷ queue) e v h =
    absurd_of (v.exits (none_exited_of_empty p.workers h (v.served full))).1
  where
    full : p.queue ≡ [] → ⊥
    full f = cc

    absurd_of : p.queue ≡ [] → t ∷ queue ≡ []
    absurd_of f = cc

-- Every thread has returned; the tasks have been started in the order in which they were accepted,
-- and each has finished as often as it was accepted.
pub record IsFinished (accepted : List ℕ) (p : Pool) : Type 0 where
  pub returned : total rest p.workers ≡ 0
  pub started_all : p.started ≡ accepted
  pub finished_all : (t : ℕ) → count t p.finished ≡ count t accepted

returned-IsFinished : (p : Pool) → Inv p → total rest p.workers ≡ 0 → IsFinished p.accepted p
returned-IsFinished p v h = record { returned = h; started_all = same; finished_all = counted }
  where
    same : p.started ≡ p.accepted
    same = sym (
        v.in_order
        ∙ (ap (λ l. p.started ++ l) (queue_empty p p.queue refl v h) ∙ append-nil p.started))

    counted : (t : ℕ) → count t p.finished ≡ count t p.accepted
    counted t = rw (← same) (omega (arith, v.balanced t, runs_of_rest t p.workers h))

take_task-measure :
    (i n : ℕ) (p : Pool) (q : Phase) (queue : List ℕ)
    → get_elem? p.workers i ≡ some q
    → rest q ≡ 1
    → p.queue ≡ queue
    → measure (take_task i queue (record p { idle = n })) < measure p
unfolding take_task measure
take_task-measure i n p q [] at one e =
    omega (arith, total-set rest p.workers i q exited at, ap length e)
take_task-measure i n p q (t ∷ queue) at one e =
    omega (arith, total-set rest p.workers i q (running t) at, ap length e)

may_go_of_draining : (p : Pool) → p.draining ≡ true → may_go p ≡ true
unfolding may_go
may_go_of_draining p d = ground arith

move-measure :
    (i : ℕ) (p : Pool) (q : Phase)
    → p.draining ≡ true
    → get_elem? p.workers i ≡ some q
    → q ≢ exited
    → measure (move i (some q) p) < measure p
unfolding move
move-measure i p exited d at h = absurd (h refl)
move-measure i p (running t) d at h =
    unfold measure in omega (arith, total-set rest p.workers i (running t) ready at)
move-measure i p ready d at h =
    rw (may_go_of_draining p d) (take_task-measure i p.idle p ready p.queue at refl refl)
move-measure i p parked d at h =
    rw (may_go_of_draining p d) (take_task-measure i (p.idle - 1) p parked p.queue at refl refl)

-- While the pool drains, every step of a thread that has not returned lowers the measure: three for
-- each queued task, two for each running thread and one for each waiting one.
pub drain_terminates :
    (p : Pool) (i : ℕ) (q : Phase)
    → p.draining ≡ true
    → get_elem? p.workers i ≡ some q
    → q ≢ exited
    → measure (step p (moves i)) < measure p
unfolding step
drain_terminates p i q d at h = rw at (move-measure i p q d at h)

-- A pool that drains goes on draining, and accepts nothing.
record Drains (p q : Pool) : Type 0 where
  draining : q.draining ≡ true
  no_more : q.accepted ≡ p.accepted

take_task-Drains :
    (i n : ℕ) (p : Pool) (queue : List ℕ)
    → p.draining ≡ true
    → Drains p (take_task i queue (record p { idle = n }))
unfolding take_task
take_task-Drains i n p [] d = record { draining = d; no_more = refl }
take_task-Drains i n p (t ∷ queue) d = record { draining = d; no_more = refl }

move-Drains : (i : ℕ) (o : Option Phase) (p : Pool) → p.draining ≡ true → Drains p (move i o p)
unfolding move
move-Drains i none p d = record { draining = d; no_more = refl }
move-Drains i (some exited) p d = record { draining = d; no_more = refl }
move-Drains i (some ready) p d = rw (may_go_of_draining p d) (take_task-Drains i p.idle p p.queue d)
move-Drains i (some parked) p d =
    rw (may_go_of_draining p d) (take_task-Drains i (p.idle - 1) p p.queue d)
move-Drains i (some (running t)) p d = record { draining = d; no_more = refl }

step-Drains : (p : Pool) (e : Event) → p.draining ≡ true → Drains p (step p e)
unfolding step post begin_shutdown
step-Drains p (posts t) d =
    subst (Drains p) (sym (if_true p.draining p _ d)) (record { draining = d; no_more = refl })
step-Drains p shuts_down d = record { draining = refl; no_more = refl }
step-Drains p (moves i) d = move-Drains i (get_elem? p.workers i) p d

run-Drains : (p : Pool) (es : List Event) → p.draining ≡ true → Drains p (run p es)
unfolding run
run-Drains p [] d = record { draining = d; no_more = refl }
run-Drains p (e ∷ es) d =
    let a = step-Drains p e d in
    let b = run-Drains (step p e) es a.draining in
    record { draining = b.draining; no_more = b.no_more ∙ a.no_more }

-- A thread that has not returned, if there is one.
live_thread :
    (ws : List Phase)
    → (total rest ws ≡ 0) ⊎ ((i : ℕ) × (q : Phase) × (get_elem? ws i ≡ some q) × (q ≢ exited))
unfolding total
live_thread [] = inl refl
live_thread (exited ∷ ws) = elim (live_thread ws) [
  | inl e ↦ inl (omega arith)
  | inr (i, q, at, h) ↦ inr (suc i, q, at, h)
]
live_thread (ready ∷ ws) = inr (0, ready, refl, λ e. cc)
live_thread (parked ∷ ws) = inr (0, parked, refl, λ e. cc)
live_thread (running t ∷ ws) = inr (0, running t, refl, λ e. cc)

-- The threads that move until all have returned.
returning :
    (n : ℕ) (p : Pool)
    → measure p < n
    → p.draining ≡ true
    → (is : List ℕ) × (total rest (run p (map moves is)).workers ≡ 0)
unfolding run
returning zero p h d = absurd (omega arith)
returning (suc n) p h d = elim (live_thread p.workers) [
  | inl e ↦ ([], e)
  | inr (i, q, at, ne) ↦
      let (is, e) =
        returning n (step p (moves i)) (omega (arith, drain_terminates p i q d at ne))
          (step-Drains p (moves i) d).draining in
      (i ∷ is, e)
]

-- Whatever was done before `begin_shutdown` and after it, the threads can go on so that all return,
-- and at the end the tasks that were accepted before it have been started in their order and have
-- finished, each as often as it was accepted: none is dropped, and nothing is accepted after it.
pub backlog-IsFinished :
    (max_threads : ℕ) (before after : List Event)
    → let p = run (init max_threads) before in
      (is : List ℕ) × IsFinished p.accepted (run (run (begin_shutdown p) after) (map moves is))
backlog-IsFinished n before after =
    let p = run (init n) before in
    let v = begin_shutdown-Inv p (run-init-Inv n before) in
    let q = run (begin_shutdown p) after in
    let d = run-Drains (begin_shutdown p) after (unfold begin_shutdown in refl) in
    let (is, e) = returning (suc (measure q)) q (omega arith) d.draining in
    let r = run q (map moves is) in
    let same : r.accepted ≡ p.accepted =
      (run-Drains q (map moves is) d.draining).no_more
      ∙ d.no_more
      ∙ unfold begin_shutdown in refl in
    (
      is,
      subst (λ l. IsFinished l r) same
          (returned-IsFinished r (run-Inv q (map moves is) (run-Inv _ after v)) e),
    )
