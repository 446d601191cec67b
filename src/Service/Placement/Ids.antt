-- ===== src/Service/Placement/Ids.antt =====
-- Which identifiers a new load may occupy.
use mass_worker_llama_cpp.Prelude.{
  ℕ, zero, suc, ◌+◌, ◌≤◌, ◌<◌, Bool, true, false, ◌&&◌, List, [], ◌∷◌, Bytes, ◌≡◌, inl, inr, ◌↔◌,
  refl, arith, Bool-cases, All, ◌==◌, ==_iff, text_eq_refl,
}
use mass_worker_llama_cpp.Service.Placement.{
  Enabled, is_enabled, member, gpu_id, cpu_id, gpu_ids, enabled_placement_ids, is_empty,
}

-- What an identifier of the result is: an enabled GPU, or the CPU in the absence of enabled GPUs.
pub data IsTarget (enabled : Enabled) (gpu_count : ℕ) (has_cpu : Bool) (ids : List Bytes)
    : Bytes → Type 0 where
  gpu :
      {id : Bytes} (k : ℕ)
      → k < gpu_count
      → is_enabled enabled id ≡ true
      → id ≡ gpu_id k
      → IsTarget enabled gpu_count has_cpu ids id
  cpu :
      {id : Bytes}
      → id ≡ cpu_id
      → ids ≡ cpu_id ∷ []
      → has_cpu ≡ true
      → is_enabled enabled cpu_id ≡ true
      → ((k : ℕ) → k < gpu_count → is_enabled enabled (gpu_id k) ≡ false)
      → IsTarget enabled gpu_count has_cpu ids id

-- The identifiers that the loop collects are enabled GPUs below the count.
gpu_ids-All :
    (enabled : Enabled) (i n j : ℕ)
    → i + n ≤ j
    → All
        (λ id. (k : ℕ) × (k < j) × (is_enabled enabled id ≡ true) × (id ≡ gpu_id k))
        (gpu_ids enabled i n)
unfolding gpu_ids
gpu_ids-All enabled i zero j h = tt
gpu_ids-All enabled i (suc n) j h = elim (Bool-cases (is_enabled enabled (gpu_id i))) [
  | inl e ↦ rw e ((i, omega arith, e, refl), gpu_ids-All enabled (i + 1) n j (omega arith))
  | inr e ↦ rw e (gpu_ids-All enabled (i + 1) n j (omega arith))
]

member-gpu_ids :
    (enabled : Enabled) (i n k : ℕ)
    → i ≤ k
    → k < i + n
    → is_enabled enabled (gpu_id k) ≡ true
    → member (gpu_id k) (gpu_ids enabled i n) ≡ true
unfolding gpu_ids member
member-gpu_ids enabled i zero k h l e = absurd (omega arith)
member-gpu_ids enabled i (suc n) k h l e = elim (Bool-cases (i == k)) [
  | inl same ↦ let p : i ≡ k = (==_iff i k).0 same in rw (p, e) (rw (text_eq_refl (gpu_id k)))
  | inr other ↦
      let next : i + 1 ≤ k = ground arith in
      ground (arith, member-gpu_ids enabled (i + 1) n k next (omega arith) e)
]

All-map {ℓ κ μ} :
    {A : Type ℓ} (P : A → Type κ) (Q : A → Type μ)
    → ((a : A) → P a → Q a)
    → (xs : List A) → All P xs
    → All Q xs
All-map P Q f [] h = tt
All-map P Q f (x ∷ xs) h = (f x h.0, All-map P Q f xs h.1)

-- With an empty list of GPUs no GPU is enabled.
none_enabled :
    (enabled : Enabled) (n : ℕ)
    → is_empty (gpu_ids enabled 0 n) ≡ true
    → (k : ℕ) → k < n
    → is_enabled enabled (gpu_id k) ≡ false
unfolding member
none_enabled enabled n e k h = elim (Bool-cases (is_enabled enabled (gpu_id k))) [
  | inl f ↦
      nothing_in (gpu_ids enabled 0 n) e
        (member-gpu_ids enabled 0 n k (omega arith) (omega arith) f)
  | inr f ↦ f
]
  where
    nothing_in :
        (ids : List Bytes)
        → is_empty ids ≡ true
        → member (gpu_id k) ids ≡ true
        → is_enabled enabled (gpu_id k) ≡ false
    nothing_in [] e m = cc
    nothing_in (x ∷ xs) e m = cc

-- Every identifier handed to a load is an enabled GPU, or it is the CPU alone, enabled, on a machine
-- with a CPU and with no enabled GPU.
pub enabled_placement_ids-IsTarget :
    (enabled : Enabled) (gpu_count : ℕ) (has_cpu : Bool)
    → All
        (IsTarget enabled gpu_count has_cpu (enabled_placement_ids enabled gpu_count has_cpu))
        (enabled_placement_ids enabled gpu_count has_cpu)
unfolding enabled_placement_ids
enabled_placement_ids-IsTarget enabled n has_cpu =
    elim (Bool-cases (is_empty (gpu_ids enabled 0 n) && (has_cpu && is_enabled enabled cpu_id))) [
      | inl e ↦
          rw e (
            cpu refl refl (ground arith) (ground arith) (none_enabled enabled n (ground arith)),
            tt,
          )
      | inr e ↦ rw e (
          All-map _ _ (λ id p. gpu p.0 p.1 p.2 p.3) (gpu_ids enabled 0 n)
            (gpu_ids-All enabled 0 n n (omega arith)))
    ]

-- Every enabled GPU is among the identifiers.
pub member-enabled_placement_ids :
    (enabled : Enabled) (gpu_count k : ℕ) (has_cpu : Bool)
    → k < gpu_count
    → is_enabled enabled (gpu_id k) ≡ true
    → member (gpu_id k) (enabled_placement_ids enabled gpu_count has_cpu) ≡ true
unfolding enabled_placement_ids
member-enabled_placement_ids enabled n k has_cpu h e =
    elim (Bool-cases (is_empty (gpu_ids enabled 0 n) && (has_cpu && is_enabled enabled cpu_id))) [
      | inl f ↦ ground (arith, none_enabled enabled n (ground arith) k h)
      | inr f ↦ rw f (member-gpu_ids enabled 0 n k (omega arith) (omega arith) e)
    ]

gpu_ids-nil :
    (enabled : Enabled) (n : ℕ)
    → ((k : ℕ) → k < n → is_enabled enabled (gpu_id k) ≡ false)
    → gpu_ids enabled 0 n ≡ []
gpu_ids-nil enabled n none_on = go (gpu_ids enabled 0 n) (gpu_ids-All enabled 0 n n (omega arith))
  where
    go :
        (ids : List Bytes)
        → All (λ id. (k : ℕ) × (k < n) × (is_enabled enabled id ≡ true) × (id ≡ gpu_id k)) ids
        → ids ≡ []
    go [] h = refl
    go (x ∷ xs) h = ground (arith, h.0.3, h.0.2, none_on h.0.0 h.0.1)

-- The load is refused for want of devices exactly when no GPU is enabled and the CPU is missing or
-- not enabled either.
pub enabled_placement_ids-nil_iff :
    (enabled : Enabled) (gpu_count : ℕ) (has_cpu : Bool)
    → (enabled_placement_ids enabled gpu_count has_cpu ≡ []) ↔ (
        ((k : ℕ) → k < gpu_count → is_enabled enabled (gpu_id k) ≡ false)
        × ((has_cpu && is_enabled enabled cpu_id) ≡ false))
unfolding enabled_placement_ids
enabled_placement_ids-nil_iff enabled n has_cpu = (refused, empty)
  where
    refused :
        enabled_placement_ids enabled n has_cpu ≡ []
        → ((k : ℕ) → k < n → is_enabled enabled (gpu_id k) ≡ false)
          × ((has_cpu && is_enabled enabled cpu_id) ≡ false)
    refused h = (none_enabled enabled n (ground arith), ground arith)

    empty :
        ((k : ℕ) → k < n → is_enabled enabled (gpu_id k) ≡ false)
          × ((has_cpu && is_enabled enabled cpu_id) ≡ false)
        → enabled_placement_ids enabled n has_cpu ≡ []
    empty h = ground (arith, gpu_ids-nil enabled n h.0)
