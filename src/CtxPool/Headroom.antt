-- ===== src/CtxPool/Headroom.antt =====
-- Which device stops the growth of a pool.
use mass_worker_llama_cpp.Prelude.{
  ℕ, zero, suc, ◌+◌, Bool, true, false, not, ◌&&◌, ◌||◌, List, [], ◌∷◌, Option, none, some, ◌≡◌,
  refl, sym, ◌∙◌, subst, ◌⊎◌, inl, inr, arith, Bool-cases, get_elem?,
}
use mass_worker_llama_cpp.Prelude.Int.{ℤ, pos, ltb_ℤ, is_zero_ℤ}
use mass_worker_llama_cpp.Prelude.Double.{Double, Laws, Le}
use mass_worker_llama_cpp.CtxPool.{
  DevMemSnap, Stop, CtxPoolHeadroom, projected, beats, predict_device, predict_from, predict,
}

module _ (d : Double) where
  -- A device with a known total and a sample of growth, whose projection reaches the threshold.
  abbrev pub gates : d.F → DevMemSnap → ℤ → Bool
  gates threshold s w =
      (not (is_zero_ℤ s.total) && ltb_ℤ (pos 0) w) && not (d.lt (projected d s w) threshold)

  -- The stop's ratio is at least this one.
  abbrev pub Above : d.F → Option (Stop d) → Type 0
  Above x none = ⊥
  Above x (some st) = Le d x st.ratio

  -- The stop is at a device that gates.
  pub record IsGate (threshold : d.F) (ss : List DevMemSnap) (ws : List ℤ) (i : ℕ) (st : Stop d)
      : Type 0 where
    pub index : ℕ
    pub snap : DevMemSnap
    pub read : get_elem? ss index ≡ some snap
    pub grew : get_elem? ws index ≡ some st.delta
    pub gating : gates threshold snap st.delta ≡ true
    pub device_eq : st.device ≡ i + index
    pub ratio_eq : st.ratio ≡ projected d snap st.delta

module _ (d : Double) (l : Laws d) where
  device-Above :
      (threshold : d.F) (i : ℕ) (s : DevMemSnap) (w : ℤ) (best : Option (Stop d)) (x : d.F)
      → Above d x best
      → Above d x (predict_device d threshold i s w best)
  unfolding predict_device beats
  device-Above threshold i s w none x h = absurd h
  device-Above threshold i s w (some b) x h =
      elim (Bool-cases (is_zero_ℤ s.total || not (ltb_ℤ (pos 0) w))) [
        | inl e ↦ rw e h
        | inr e ↦
            let p = projected d s w in
            rw e (elim (Bool-cases (not (d.lt p threshold) && d.lt b.ratio p)) [
              | inl f ↦ rw f (l.trans x b.ratio p h (l.asym b.ratio p (ground arith)))
              | inr f ↦ rw f h
            ])
      ]

  device_gates-Above :
      (threshold : d.F) (i : ℕ) (s : DevMemSnap) (w : ℤ) (best : Option (Stop d))
      → gates d threshold s w ≡ true
      → Above d (projected d s w) (predict_device d threshold i s w best)
  unfolding predict_device beats
  device_gates-Above threshold i s w none h =
      let e : (is_zero_ℤ s.total || not (ltb_ℤ (pos 0) w)) ≡ false = ground arith in
      let f : not (d.lt (projected d s w) threshold) ≡ true = ground arith in
      rw e (rw f (l.irrefl (projected d s w)))
  device_gates-Above threshold i s w (some b) h =
      let p = projected d s w in
      let e : (is_zero_ℤ s.total || not (ltb_ℤ (pos 0) w)) ≡ false = ground arith in
      rw e (elim (Bool-cases (not (d.lt p threshold) && d.lt b.ratio p)) [
        | inl f ↦ rw f (l.irrefl p)
        | inr f ↦ rw f (ground arith)
      ])

  from-Above :
      (threshold : d.F) (i : ℕ) (ss : List DevMemSnap) (ws : List ℤ) (best : Option (Stop d))
      (x : d.F)
      → Above d x best
      → Above d x (predict_from d threshold i ss ws best)
  unfolding predict_from
  from-Above threshold i [] ws best x h = h
  from-Above threshold i (s ∷ ss) [] best x h = h
  from-Above threshold i (s ∷ ss) (w ∷ ws) best x h =
      from-Above threshold (i + 1) ss ws _ x (device-Above threshold i s w best x h)

  gates-Above :
      (threshold : d.F) (i j : ℕ) (ss : List DevMemSnap) (ws : List ℤ) (best : Option (Stop d))
      (s : DevMemSnap) (w : ℤ)
      → get_elem? ss j ≡ some s
      → get_elem? ws j ≡ some w
      → gates d threshold s w ≡ true
      → Above d (projected d s w) (predict_from d threshold i ss ws best)
  unfolding predict_from
  gates-Above threshold i j [] ws best s w a b h = cc
  gates-Above threshold i j (t ∷ ss) [] best s w a b h = cc
  gates-Above threshold i zero (t ∷ ss) (v ∷ ws) best s w a b h =
      let p : t ≡ s = ground arith in
      let q : v ≡ w = ground arith in
      rw (p, q) (from-Above threshold (i + 1) ss ws _ _ (device_gates-Above threshold i s w best h))
  gates-Above threshold i (suc j) (t ∷ ss) (v ∷ ws) best s w a b h =
      gates-Above threshold (i + 1) j ss ws _ s w a b h

  -- What the loop ends with: the stop that it began with, or one of a device that gates.
  IsGate-shift :
      (threshold : d.F) (s : DevMemSnap) (ss : List DevMemSnap) (w : ℤ) (ws : List ℤ) (i : ℕ)
      (st : Stop d)
      → IsGate d threshold ss ws (i + 1) st
      → IsGate d threshold (s ∷ ss) (w ∷ ws) i st
  IsGate-shift threshold s ss w ws i st g = record {
    index = suc g.index;
    snap = g.snap;
    read = g.read;
    grew = g.grew;
    gating = g.gating;
    device_eq = omega (arith, g.device_eq);
    ratio_eq = g.ratio_eq;
  }

  beats_ge :
      (threshold r : d.F) (best : Option (Stop d))
      → beats d threshold r best ≡ true
      → not (d.lt r threshold) ≡ true
  unfolding beats
  beats_ge threshold r none h = h
  beats_ge threshold r (some b) h = ground arith

  first-IsGate :
      (threshold : d.F) (i : ℕ) (s : DevMemSnap) (ss : List DevMemSnap) (w : ℤ) (ws : List ℤ)
      (st : Stop d)
      → gates d threshold s w ≡ true
      → some (record { device = i; ratio = projected d s w; delta = w }) ≡ some st
      → IsGate d threshold (s ∷ ss) (w ∷ ws) i st
  first-IsGate threshold i s ss w ws st g e =
      let p : record { device = i; ratio = projected d s w; delta = w } ≡ st = cc in
      subst (IsGate d threshold (s ∷ ss) (w ∷ ws) i) p (record {
        index = 0;
        snap = s;
        read = refl;
        grew = refl;
        gating = g;
        device_eq = omega arith;
        ratio_eq = refl;
      })

  device_cases :
      (threshold : d.F) (i : ℕ) (s : DevMemSnap) (w : ℤ) (best : Option (Stop d))
      → (predict_device d threshold i s w best ≡ best)
        ⊎ ((gates d threshold s w ≡ true)
            × (predict_device d threshold i s w best
                ≡ some (record { device = i; ratio = projected d s w; delta = w })))
  unfolding predict_device
  device_cases threshold i s w best =
      elim (Bool-cases (is_zero_ℤ s.total || not (ltb_ℤ (pos 0) w))) [
        | inl e ↦ inl (rw e refl)
        | inr e ↦ rw e (elim (Bool-cases (beats d threshold (projected d s w) best)) [
          | inl f ↦
              let ge = beats_ge threshold (projected d s w) best f in
              rw f (inr (ground arith, refl))
          | inr f ↦ inl (rw f refl)
        ])
      ]

  from_cases :
      (threshold : d.F) (i : ℕ) (ss : List DevMemSnap) (ws : List ℤ) (best : Option (Stop d))
      (st : Stop d)
      → predict_from d threshold i ss ws best ≡ some st
      → (best ≡ some st) ⊎ IsGate d threshold ss ws i st
  unfolding predict_from
  from_cases threshold i [] ws best st h = inl h
  from_cases threshold i (s ∷ ss) [] best st h = inl h
  from_cases threshold i (s ∷ ss) (w ∷ ws) best st h =
      elim (from_cases threshold (i + 1) ss ws (predict_device d threshold i s w best) st h) [
        | inr g ↦ inr (IsGate-shift threshold s ss w ws i st g)
        | inl e ↦ elim (device_cases threshold i s w best) [
          | inl same ↦ inl (sym same ∙ e)
          | inr (g, new) ↦ inr (first-IsGate threshold i s ss w ws st g (sym new ∙ e))
        ]
      ]

  -- With the arithmetic of finite doubles: when growth stops before a slot, it does so at a device
  -- that a further slot would bring to the watermark, and no other such device would go higher.
  pub predict-IsTightest :
      (h : CtxPoolHeadroom d) (cur : List DevMemSnap) (st : Stop d)
      → predict d h cur ≡ some st
      → IsGate d h.threshold cur h.worst_slot_delta 0 st
        × ((j : ℕ) (s : DevMemSnap) (w : ℤ)
            → get_elem? cur j ≡ some s
            → get_elem? h.worst_slot_delta j ≡ some w
            → gates d h.threshold s w ≡ true
            → Le d (projected d s w) st.ratio)
  unfolding predict
  predict-IsTightest h cur st e = (
    elim (from_cases h.threshold 0 cur h.worst_slot_delta none st e) [
      | inl absent ↦ cc
      | inr g ↦ g
    ],
    λ j s w a b g.
        subst (Above d (projected d s w)) e
          (gates-Above h.threshold 0 j cur h.worst_slot_delta none s w a b g),
  )

  -- With the arithmetic of finite doubles: when growth goes on, no device with a known total that
  -- has shown growth would reach the watermark with a further slot of the worst size that it has
  -- shown.
  pub predict-none :
      (h : CtxPoolHeadroom d) (cur : List DevMemSnap)
      → predict d h cur ≡ none
      → (j : ℕ) (s : DevMemSnap) (w : ℤ) → get_elem? cur j ≡ some s
      → get_elem? h.worst_slot_delta j ≡ some w
      → gates d h.threshold s w ≡ false
  unfolding predict
  predict-none h cur e j s w a b = elim (Bool-cases (gates d h.threshold s w)) [
    | inl g ↦ absurd (
        subst (Above d (projected d s w)) e
          (gates-Above h.threshold 0 j cur h.worst_slot_delta none s w a b g))
    | inr g ↦ g
  ]
