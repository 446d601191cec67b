-- ===== src/CtxPool/Growth.antt =====
-- How large a pool grows.
use mass_worker_llama_cpp.Prelude.{
  ℕ, zero, suc, ◌+◌, ◌≤◌, ◌<◌, Bool, true, false, List, [], ◌∷◌, map, none, Bytes, ◌≡◌, refl, ap,
  ◌∙◌, ◌-◌, ◌⊎◌, subst, inl, inr, arith, Bool-cases, Option-cases, any, if◌then◌else◌,
}
use mass_worker_llama_cpp.Prelude.Int.{
  ℤ, pos, negsuc, pos_part, ltb_ℤ, is_zero_ℤ, ◌≤ℤ◌, max_ℤ, ◌+ℤ◌, ◌-ℤ◌,
}
use mass_worker_llama_cpp.Prelude.Double.{Double}
use mass_worker_llama_cpp.CtxPool.{
  DevMemSnap, reports, CtxPoolHeadroom, headroom_of, predict_device, predict_from, predict,
  growth_bytes, Alloc, allocated, refused, Machine, Pool, grown, no_slot, gate, observe,
  first_refusal, grow_loop, ceiling_of, watermark_works, grow_ctx_pool, price_slot,
  probe_model_bench, threshold_of,
}

ceiling_of_pos : (n : ℤ) (enabled : Bool) → (room : ℕ) × (ceiling_of n enabled ≡ suc room)
unfolding ceiling_of
ceiling_of_pos n enabled = elim (Bool-cases (ltb_ℤ (pos 0) n)) [
  | inl e ↦ (pos_part n - 1, rw e (ground arith))
  | inr e ↦ elim (Bool-cases enabled) [
    | inl f ↦ (2147483646, rw (e, f) (omega arith))
    | inr f ↦ (0, rw (e, f) (omega arith))
  ]
]

-- The largest pool that is asked for: the pinned size, one if no device reports its memory, and
-- otherwise the largest 32-bit count.
abbrev unpinned : Bool → ℕ
unpinned true = 2147483647
unpinned false = 1

abbrev pub limit : ℤ → List DevMemSnap → ℕ
limit (pos (suc n)) ss = suc n
limit (pos zero) ss = unpinned (any reports ss)
limit (negsuc n) ss = unpinned (any reports ss)

-- Whether the growth is steered by what the devices report.
abbrev pub steered : ℤ → List DevMemSnap → Bool
steered (pos (suc n)) ss = false
steered (pos zero) ss = any reports ss
steered (negsuc n) ss = any reports ss

watermark_works-steered : (n : ℤ) (ss : List DevMemSnap) → watermark_works n ss ≡ steered n ss
unfolding watermark_works
watermark_works-steered (pos (suc n)) ss =
    let e : ltb_ℤ (pos 0) (pos (suc n)) ≡ true = ground arith in rw e refl
watermark_works-steered (pos zero) ss = refl
watermark_works-steered (negsuc n) ss =
    let e : ltb_ℤ (pos 0) (negsuc n) ≡ false = ground arith in rw e refl

unpinned_eq : (b : Bool) → (if b then 2147483647 else 1) ≡ unpinned b
unpinned_eq true = refl
unpinned_eq false = refl

ceiling_of-limit : (n : ℤ) (ss : List DevMemSnap) → ceiling_of n (steered n ss) ≡ limit n ss
unfolding ceiling_of
ceiling_of-limit (pos (suc n)) ss =
    let e : ltb_ℤ (pos 0) (pos (suc n)) ≡ true = ground arith in rw e refl
ceiling_of-limit (pos zero) ss = unpinned_eq (any reports ss)
ceiling_of-limit (negsuc n) ss =
    let e : ltb_ℤ (pos 0) (negsuc n) ≡ false = ground arith in rw e (unpinned_eq (any reports ss))

module _ (d : Double) (machine : Machine) where
  open machine use {M}

  abbrev pub Within : ℕ → ℕ → Pool → Type 0
  Within lo hi (grown n) = (lo ≤ n) × (n ≤ hi)
  Within lo hi (no_slot msg) = ⊥

  -- A pool of one context up to the ceiling, if the first allocation went through, or else the
  -- refusal of that first one.
  abbrev pub Sized : ℕ → Alloc → Pool → Type 0
  Sized ceiling first (grown n) = (first ≡ allocated) × (1 ≤ n) × (n ≤ ceiling)
  Sized ceiling first (no_slot msg) = first ≡ refused msg

  Within-Sized :
      (lo hi : ℕ) (first : Alloc) (p : Pool)
      → first ≡ allocated
      → 1 ≤ lo
      → Within lo hi p
      → Sized hi first p
  Within-Sized lo hi first (grown n) e h w = (e, omega (arith, w.0), w.1)
  Within-Sized lo hi first (no_slot msg) e h w = absurd w

  -- The machine when the first context is allocated: the devices are read once before, and once
  -- more if they steer the growth.
  abbrev read_again : Bool → M → M
  read_again true m = (machine.snapshot m).0
  read_again false m = m

  abbrev pub first_alloc : ℤ → M × List DevMemSnap → Alloc
  first_alloc n (m, ss) = (machine.try_alloc (read_again (steered n ss) m)).1

  gate_state :
      (enabled : Bool) (h : CtxPoolHeadroom d) (m : M)
      → (gate d machine enabled h m).0 ≡ read_again enabled m
  unfolding gate
  gate_state true h m = refl
  gate_state false h m = refl

  Within-weaken : (lo hi : ℕ) (p : Pool) → Within (lo + 1) hi p → Within lo hi p
  Within-weaken lo hi (grown n) w = (omega (arith, w.0), w.1)
  Within-weaken lo hi (no_slot msg) w = w

  Alloc-cases : (a : Alloc) → (a ≡ allocated) ⊎ ((msg : Bytes) × (a ≡ refused msg))
  Alloc-cases allocated = inl refl
  Alloc-cases (refused msg) = inr (msg, refl)

  -- From the second slot on the loop only adds slots, one for each place that is left.
  grow_loop-Within :
      (enabled : Bool) (room : ℕ) (h : CtxPoolHeadroom d) (size : ℕ) (m : M)
      → Within (suc size) (suc size + room) (grow_loop d machine enabled room h (suc size) m).1
  unfolding grow_loop first_refusal
  grow_loop-Within enabled zero h size m = (omega arith, omega arith)
  grow_loop-Within enabled (suc room) h size m =
      let g = gate d machine enabled h m in
      elim (Option-cases g.1) [
        | inr (st, e) ↦ rw (e, grow_loop) (omega arith, omega arith)
        | inl e ↦
            let a = machine.try_alloc g.0 in
            elim (Alloc-cases a.1) [
              | inr (msg, f) ↦ rw (e, grow_loop) (rw (f, grow_loop) (omega arith, omega arith))
              | inl f ↦
                  let o = observe d machine enabled h a.0 in
                  elim (Option-cases o.1.1) [
                    | inr (st, k) ↦
                        rw (e, grow_loop)
                          (rw (f, grow_loop) (rw (k, grow_loop) (omega arith, omega arith)))
                    | inl k ↦
                        rw (e, grow_loop)
                          (rw (f, grow_loop)
                            (rw (k, grow_loop)
                              (next enabled room size _
                                (grow_loop-Within enabled room o.1.0 (suc size) o.0))))
                  ]
            ]
      ]
    where
      next :
          (enabled : Bool) (room size : ℕ) (p : Pool)
          → Within (suc (suc size)) (suc (suc size) + room) p
          → Within (suc size) (suc size + suc room) p
      next enabled room size (grown n) w = (omega (arith, w.0), omega (arith, w.1))
      next enabled room size (no_slot msg) w = w

  fresh_device :
      (threshold : d.F) (i : ℕ) (s : DevMemSnap)
      → predict_device d threshold i s (pos 0) none ≡ none
  unfolding predict_device
  fresh_device threshold i s = elim (Bool-cases (is_zero_ℤ s.total)) [
    | inl e ↦ rw e refl
    | inr e ↦ rw e refl
  ]

  -- With no growth seen, nothing is projected.
  predict-fresh :
      (threshold : d.F) (i : ℕ) (ss xs : List DevMemSnap)
      → predict_from d threshold i ss (map (λ x. pos 0) xs) none ≡ none
  unfolding predict_from predict_device
  predict-fresh threshold i [] xs = refl
  predict-fresh threshold i (s ∷ ss) [] = refl
  predict-fresh threshold i (s ∷ ss) (x ∷ xs) =
      rw (fresh_device threshold i s) (predict-fresh threshold (i + 1) ss xs)

  -- The first slot: no device stops it, so it is allocated or refused by the machine.
  first-Sized :
      (enabled : Bool) (room : ℕ) (h : CtxPoolHeadroom d) (m : M)
      → (gate d machine enabled h m).1 ≡ none
      → Sized
          (suc room)
          (machine.try_alloc (gate d machine enabled h m).0).1
          (grow_loop d machine enabled (suc room) h 0 m).1
  unfolding grow_loop first_refusal
  first-Sized enabled room h m e =
      let a = machine.try_alloc (gate d machine enabled h m).0 in
      elim (Alloc-cases a.1) [
        | inr (msg, f) ↦ rw (e, grow_loop) (rw (f, grow_loop) refl)
        | inl f ↦
            let o = observe d machine enabled h a.0 in
            elim (Option-cases o.1.1) [
              | inr (st, k) ↦
                  rw (e, grow_loop)
                    (rw (f, grow_loop) (rw (k, grow_loop) (refl, omega arith, omega arith)))
              | inl k ↦
                  rw (e, grow_loop)
                    (rw (f, grow_loop)
                      (rw (k, grow_loop)
                        (Within-Sized 1 (suc room) allocated _ refl (omega arith)
                          (one _ (grow_loop-Within enabled room o.1.0 0 o.0)))))
            ]
      ]
    where
      one : (p : Pool) → Within 1 (1 + room) p → Within 1 (suc room) p
      one (grown n) w = (w.0, omega (arith, w.1))
      one (no_slot msg) w = w

  gate-fresh :
      (enabled : Bool) (threshold : d.F) (initial : List DevMemSnap) (m : M)
      → (gate d machine enabled (headroom_of d threshold initial) m).1 ≡ none
  unfolding gate predict headroom_of
  gate-fresh false threshold initial m = refl
  gate-fresh true threshold initial m = predict-fresh threshold 0 (machine.snapshot m).1 initial

  -- If the machine grants the first context, the pool has at least one and at most its limit, which
  -- is the pinned size, one if no device reports its memory, and otherwise the largest 32-bit count:
  -- a refusal later on ends the growth only. The load fails exactly if the machine refuses the first
  -- context, with the machine's message.
  pub grow_ctx_pool-Sized :
      (max_concurrent : ℤ) (headroom_pct : ℕ) (m : M)
      → let initial = machine.snapshot m in
        Sized
          (limit max_concurrent initial.1)
          (first_alloc max_concurrent initial)
          (grow_ctx_pool d machine max_concurrent headroom_pct m).1
  unfolding grow_ctx_pool
  grow_ctx_pool-Sized n pct m =
      let s = machine.snapshot m in
      let w = steered n s.1 in
      let h = headroom_of d (threshold_of d machine pct) (if w then s.1 else []) in
      let (room, e) = ceiling_of_pos n w in
      rw (watermark_works-steered n s.1) (
        rw (← ceiling_of-limit n s.1) (
          rw e (
            subst
              (λ q.
                Sized (suc room) (machine.try_alloc q).1
                  (grow_loop d machine w (suc room) h 0 s.0).1)
              (gate_state w h s.0)
              (first-Sized w room h s.0
                (gate-fresh w (threshold_of d machine pct) (if w then s.1 else []) s.0)))))

  -- If the machine never refuses a context, a loop without the watermark fills every place.
  grow_loop-full :
      ((m : M) → (machine.try_alloc m).1 ≡ allocated)
      → (room : ℕ) (h : CtxPoolHeadroom d) (size : ℕ) (m : M)
      → (grow_loop d machine false room h size m).1 ≡ grown (size + room)
  unfolding grow_loop gate observe
  grow_loop-full ready zero h size m = ap grown (omega arith)
  grow_loop-full ready (suc room) h size m =
      rw (ready m, grow_loop)
        (grow_loop-full ready room h (suc size) (machine.try_alloc m).0 ∙ ap grown (omega arith))

  -- A pinned pool on a machine that refuses no context is exactly of the pinned size, whatever the
  -- devices report.
  pub grow_ctx_pool-pinned :
      (max_concurrent headroom_pct : ℕ) (m : M)
      → 0 < max_concurrent
      → ((m : M) → (machine.try_alloc m).1 ≡ allocated)
      → (grow_ctx_pool d machine (pos max_concurrent) headroom_pct m).1 ≡ grown max_concurrent
  unfolding grow_ctx_pool ceiling_of watermark_works
  grow_ctx_pool-pinned n pct m h ready =
      let e : ltb_ℤ (pos 0) (pos n) ≡ true = ground arith in
      rw e (grow_loop-full ready n _ 0 _ ∙ ap grown (omega arith))

add_nonneg : (a b : ℤ) → pos 0 ≤ℤ a → pos 0 ≤ℤ b → pos 0 ≤ℤ (a +ℤ b)
unfolding ◌+ℤ◌
add_nonneg a b h k = ground arith

max_nonneg : (x : ℤ) → pos 0 ≤ℤ max_ℤ (pos 0) x
unfolding max_ℤ
max_nonneg x = elim (Bool-cases (ltb_ℤ (pos 0) x)) [
  | inl e ↦ rw e (ground arith)
  | inr e ↦ rw e (omega arith)
]

growth_bytes_nonneg : (before after : List DevMemSnap) → pos 0 ≤ℤ growth_bytes before after
unfolding growth_bytes
growth_bytes_nonneg [] after = omega arith
growth_bytes_nonneg (b ∷ before) [] = omega arith
growth_bytes_nonneg (b ∷ before) (a ∷ after) = elim (Bool-cases (is_zero_ℤ a.total)) [
  | inl e ↦ rw e (growth_bytes_nonneg before after)
  | inr e ↦ rw e (add_nonneg _ _ (max_nonneg (a.used -ℤ b.used)) (growth_bytes_nonneg before after))
]

module _ (machine : Machine) where
  price_slot-priced :
      (secs : ℕ) (base : ℤ) (warm : List DevMemSnap) (r : machine.M × Alloc)
      → pos 0 ≤ℤ base
      → let p = (price_slot machine secs base warm r).1 in
        (pos 0 ≤ℤ p.base_bytes)
        × (pos 0 ≤ℤ p.per_slot_bytes)
        × ((r.1 ≡ allocated) ⊎ (p.per_slot_bytes ≡ p.base_bytes))
  unfolding price_slot
  price_slot-priced secs base warm (m, refused msg) h = (h, h, inr refl)
  price_slot-priced secs base warm (m, allocated) h = (h, growth_bytes_nonneg warm _, inl refl)

  -- A probe prices the load and a slot with sizes that are not negative, and a slot that the machine
  -- refused to allocate at the size of the whole load.
  pub probe_model_bench-priced :
      (before_load : List DevMemSnap) (m : machine.M)
      → let p = (probe_model_bench machine before_load m).1 in
        let warm = (machine.snapshot (machine.calibrate m).0).0 in
        (pos 0 ≤ℤ p.base_bytes)
        × (pos 0 ≤ℤ p.per_slot_bytes)
        × (((machine.try_alloc warm).1 ≡ allocated) ⊎ (p.per_slot_bytes ≡ p.base_bytes))
  unfolding probe_model_bench
  probe_model_bench-priced before_load m =
      price_slot-priced _ _ _ _ (growth_bytes_nonneg before_load _)
