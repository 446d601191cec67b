-- ===== src/Service/Errors/Mentions.antt =====
-- A mention survives the text that is put around it.
use mathlib.Core.List.{map-append}
use mass_worker_llama_cpp.Prelude.{true, [], ◌∷◌, ◌++◌, map, Bytes, text, ◌≡◌, refl, arith, any-imp}
use mass_worker_llama_cpp.Service.Errors.{
  to_lower, lowercased, is_prefix, finds, mentions_device_loss, mentions_allocation_failure,
  allocation_needles,
}

is_prefix-append : (n s t : Bytes) → is_prefix n s ≡ true → is_prefix n (s ++ t) ≡ true
unfolding is_prefix
is_prefix-append [] s t h = refl
is_prefix-append (x ∷ n) [] t h = cc
is_prefix-append (x ∷ n) (y ∷ s) t h = ground (arith, is_prefix-append n s t)

is_prefix-finds : (n s : Bytes) → is_prefix n s ≡ true → finds n s ≡ true
unfolding finds
is_prefix-finds n [] h = h
is_prefix-finds n (c ∷ s) h = ground arith

finds-append_right : (n s t : Bytes) → finds n s ≡ true → finds n (s ++ t) ≡ true
unfolding finds
finds-append_right n [] t h = is_prefix-finds n t (is_prefix-append n [] t h)
finds-append_right n (c ∷ s) t h =
    ground (arith, is_prefix-append n (c ∷ s) t, finds-append_right n s t)

finds-append_left : (n p s : Bytes) → finds n s ≡ true → finds n (p ++ s) ≡ true
unfolding finds
finds-append_left n [] s h = h
finds-append_left n (c ∷ p) s h = ground (arith, finds-append_left n p s h)

finds-within :
    (n p s t : Bytes) → finds n (lowercased s) ≡ true → finds n (lowercased (p ++ (s ++ t))) ≡ true
unfolding lowercased
finds-within n p s t h =
    rw (map-append to_lower p (s ++ t), map-append to_lower s t)
      (finds-append_left n _ _ (finds-append_right n _ (map to_lower t) h))

-- A message that tells of a lost device still does so inside a longer one: no prefix or suffix that
-- the service adds on the way to a frame hides it.
pub mentions_device_loss-within :
    (pre msg post : Bytes)
    → mentions_device_loss msg ≡ true
    → mentions_device_loss (pre ++ (msg ++ post)) ≡ true
unfolding mentions_device_loss
mentions_device_loss-within p s t h = ground (
  arith,
  finds-within (text "devicelost") p s t,
  finds-within (text "device_lost") p s t,
  finds-within (text "device lost") p s t,
)

-- So does a message that tells of a refused allocation.
pub mentions_allocation_failure-within :
    (pre msg post : Bytes)
    → mentions_allocation_failure msg ≡ true
    → mentions_allocation_failure (pre ++ (msg ++ post)) ≡ true
unfolding mentions_allocation_failure
mentions_allocation_failure-within p s t h =
    any-imp _ _ allocation_needles (λ n. finds-within n p s t) h
