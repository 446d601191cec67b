-- ===== src/CtxPool.antt =====
-- src/ctx_pool.cpp: the decisions of `CtxPoolHeadroom`, and the loop that grows a model's pool of
-- contexts under them. A device is read by a snapshot in bytes; the machine behind the snapshots and
-- the allocations is a parameter, and contexts are counted. `double` is a parameter too.
pub mod Headroom
pub mod Growth
mod Tests
use mass_worker_llama_cpp.Prelude.{
  ℕ, zero, suc, ◌+◌, Bool, true, false, not, ◌&&◌, ◌||◌, List, [], ◌∷◌, Option, none, some, Bytes,
  ltb, ◌==◌, min, max, any, if◌then◌else◌, map,
}
use mass_worker_llama_cpp.Prelude.Int.{ℤ, pos, pos_part, ltb_ℤ, is_zero_ℤ, max_ℤ, ◌+ℤ◌, ◌-ℤ◌}
use mass_worker_llama_cpp.Prelude.Double.{Double}

-- A total of 0 is a device whose use the backend cannot report.
pub record DevMemSnap : Type 0 where
  pub used : ℤ
  pub total : ℤ

-- `total > 0`.
abbrev pub reports : DevMemSnap → Bool
reports s = ltb_ℤ (pos 0) s.total

module _ (d : Double) where
  open d use {F, of_ℤ, div}

  pub record Stop : Type 0 where
    pub device : ℕ
    pub ratio : F
    pub delta : ℤ

  pub record CtxPoolHeadroom : Type 0 where
    pub threshold : F
    pub prev : List DevMemSnap
    pub worst_slot_delta : List ℤ

  pub headroom_of : F → List DevMemSnap → CtxPoolHeadroom
  headroom_of threshold initial = record {
    threshold = threshold;
    prev = initial;
    worst_slot_delta = map (λ s. pos 0) initial;
  }

  -- `ratio >= threshold && (!best || ratio > best->ratio)`.
  beats : F → F → Option Stop → Bool
  beats threshold ratio none = not (d.lt ratio threshold)
  beats threshold ratio (some best) = not (d.lt ratio threshold) && d.lt best.ratio ratio

  -- The device's use after one more slot of the worst size seen.
  pub projected : DevMemSnap → ℤ → F
  projected s w = div (of_ℤ (s.used +ℤ w)) (of_ℤ s.total)

  predict_device : F → ℕ → DevMemSnap → ℤ → Option Stop → Option Stop
  unfolding beats projected
  predict_device threshold i s w best =
      if is_zero_ℤ s.total || not (ltb_ℤ (pos 0) w)
      then best
      else if beats threshold (projected s w) best
      then some (record { device = i; ratio = projected s w; delta = w })
      else best

  -- The loop over the devices from `i` on.
  predict_from : F → ℕ → List DevMemSnap → List ℤ → Option Stop → Option Stop
  unfolding predict_device
  predict_from threshold i [] ws best = best
  predict_from threshold i (s ∷ ss) [] best = best
  predict_from threshold i (s ∷ ss) (w ∷ ws) best =
      predict_from threshold (i + 1) ss ws (predict_device threshold i s w best)

  pub predict : CtxPoolHeadroom → List DevMemSnap → Option Stop
  unfolding predict_from
  predict h cur = predict_from h.threshold 0 cur h.worst_slot_delta none

  -- `if (total == 0) continue; ... if (delta > 0) worst = max(worst, delta)`.
  fold_delta : DevMemSnap → DevMemSnap → ℤ → ℤ
  fold_delta s p w =
      if is_zero_ℤ s.total
      then w
      else if ltb_ℤ (pos 0) (s.used -ℤ p.used)
      then max_ℤ w (s.used -ℤ p.used)
      else w

  -- The three vectors have one entry for each device.
  fold_deltas : List DevMemSnap → List DevMemSnap → List ℤ → List ℤ
  unfolding fold_delta
  fold_deltas (s ∷ ss) (p ∷ ps) (w ∷ ws) = fold_delta s p w ∷ fold_deltas ss ps ws
  fold_deltas [] ps ws = ws
  fold_deltas (s ∷ ss) [] ws = ws
  fold_deltas (s ∷ ss) (p ∷ ps) [] = []

  pub current : DevMemSnap → F
  current s = div (of_ℤ s.used) (of_ℤ s.total)

  crossed_from : F → ℕ → List DevMemSnap → List ℤ → Option Stop → Option Stop
  unfolding beats current
  crossed_from threshold i [] ws best = best
  crossed_from threshold i (s ∷ ss) [] best = best
  crossed_from threshold i (s ∷ ss) (w ∷ ws) best = crossed_from threshold (i + 1) ss ws (
      if is_zero_ℤ s.total
      then best
      else if beats threshold (current s) best
      then some (record { device = i; ratio = current s; delta = w })
      else best)

  -- `record`.
  pub note : CtxPoolHeadroom → List DevMemSnap → CtxPoolHeadroom × Option Stop
  unfolding fold_deltas crossed_from
  note h cur =
      let deltas = fold_deltas cur h.prev h.worst_slot_delta in
      (
        record h { prev = cur; worst_slot_delta = deltas },
        crossed_from h.threshold 0 cur deltas none,
      )

-- The positive growth between two snapshots, over the devices that report.
pub growth_bytes : List DevMemSnap → List DevMemSnap → ℤ
growth_bytes [] after = pos 0
growth_bytes (b ∷ before) [] = pos 0
growth_bytes (b ∷ before) (a ∷ after) =
    let rest = growth_bytes before after in
    if is_zero_ℤ a.total then rest else max_ℤ (pos 0) (a.used -ℤ b.used) +ℤ rest

-- What an allocation comes to; an exception is folded into a refusal, with its text.
pub data Alloc : Type 0 where
  allocated : Alloc
  refused : Bytes → Alloc

-- The machine: its state, a reading of the devices that a load is accounted against, an allocation
-- of a context, and the time of a calibration graph. Freeing the context of a probe is `free`.
pub record Machine : Type 1 where
  pub M : Type 0
  pub snapshot : M → M × List DevMemSnap
  pub try_alloc : M → M × Alloc
  pub calibrate : M → M × Option ℕ
  pub free : M → M

-- The pool's size, or the failure of slot 0 with the detail of its message.
pub data Pool : Type 0 where
  grown : ℕ → Pool
  no_slot : Bytes → Pool

pub record BenchProbe : Type 0 where
  pub graph_secs : ℕ
  pub base_bytes : ℤ
  pub per_slot_bytes : ℤ

abbrev pub int32_max : ℕ
int32_max = 2147483647

-- `max_concurrent > 0` pins the size; otherwise the watermark works if some device reports.
pub ceiling_of : ℤ → Bool → ℕ
ceiling_of max_concurrent enabled =
    if ltb_ℤ (pos 0) max_concurrent
    then pos_part max_concurrent
    else if enabled
    then int32_max
    else 1

pub watermark_works : ℤ → List DevMemSnap → Bool
unfolding any
watermark_works max_concurrent initial = not (ltb_ℤ (pos 0) max_concurrent) && any reports initial

module _ (d : Double) (machine : Machine) where
  open machine use {M}

  -- Without the watermark nothing is read.
  gate : Bool → CtxPoolHeadroom d → M → M × Option (Stop d)
  unfolding predict
  gate false h m = (m, none)
  gate true h m = let (m', cur) = machine.snapshot m in (m', predict d h cur)

  observe : Bool → CtxPoolHeadroom d → M → M × (CtxPoolHeadroom d × Option (Stop d))
  unfolding note
  observe false h m = (m, (h, none))
  observe true h m = let (m', cur) = machine.snapshot m in (m', note d h cur)

  first_refusal : ℕ → Bytes → Pool
  first_refusal zero msg = no_slot msg
  first_refusal (suc size) msg = grown (suc size)

  -- `room` is what is left below the ceiling, so the loop needs no other fuel.
  grow_loop : Bool → ℕ → CtxPoolHeadroom d → ℕ → M → M × Pool
  unfolding gate observe first_refusal
  grow_loop enabled zero h size m = (m, grown size)
  grow_loop enabled (suc room) h size m =
      let (m1, stop) = gate enabled h m in
      elim stop [
        | some st ↦ (m1, grown size)
        | none ↦
            let (m2, a) = machine.try_alloc m1 in
            elim a [
              | refused msg ↦ (m2, first_refusal size msg)
              | allocated ↦
                  let (m3, seen) = observe enabled h m2 in
                  elim seen.1 [
                    | some st ↦ (m3, grown (suc size))
                    | none ↦ grow_loop enabled room seen.0 (suc size) m3
                  ]
            ]
      ]

  -- `std::clamp(pct, 1, 100) / 100.0`.
  threshold_of : ℕ → d.F
  threshold_of pct = d.div (d.of_ℤ (pos (min (max pct 1) 100))) (d.of_ℤ (pos 100))

  pub grow_ctx_pool : ℤ → ℕ → M → M × Pool
  unfolding grow_loop headroom_of threshold_of watermark_works ceiling_of
  grow_ctx_pool max_concurrent headroom_pct m =
      let (m', initial) = machine.snapshot m in
      let enabled = watermark_works max_concurrent initial in
      grow_loop enabled (ceiling_of max_concurrent enabled)
        (headroom_of d (threshold_of headroom_pct) (if enabled then initial else [])) 0 m'

secs_of : Option ℕ → ℕ
secs_of none = 0
secs_of (some secs) = secs

module _ (machine : Machine) where
  -- The second slot: its growth, or the whole load's when it does not fit.
  price_slot : ℕ → ℤ → List DevMemSnap → machine.M × Alloc → machine.M × BenchProbe
  unfolding growth_bytes
  price_slot secs base warm (m, refused msg) =
      (m, record { graph_secs = secs; base_bytes = base; per_slot_bytes = base })
  price_slot secs base warm (m, allocated) =
      let (m', after) = machine.snapshot m in
      (
        machine.free m',
        record { graph_secs = secs; base_bytes = base; per_slot_bytes = growth_bytes warm after },
      )

  pub probe_model_bench : List DevMemSnap → machine.M → machine.M × BenchProbe
  unfolding price_slot secs_of
  probe_model_bench before_load m =
      let (m1, secs) = machine.calibrate m in
      let (m2, warm) = machine.snapshot m1 in
      price_slot (secs_of secs) (growth_bytes before_load warm) warm (machine.try_alloc m2)
