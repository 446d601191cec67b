-- ===== src/Service/Errors.antt =====
-- Error texts of src/worker_service.cpp: which of them tell of a lost device or of a refused
-- allocation, and the text that a terminal frame carries.
pub mod Mentions
use mass_worker_llama_cpp.Prelude.{
  ℕ, ◌+◌, Bool, true, false, ◌&&◌, ◌||◌, List, [], ◌∷◌, ◌++◌, map, Bytes, text, ◌==◌, leb, any,
  if◌then◌else◌,
}

-- `std::tolower` in the C locale.
unfoldable pub to_lower : ℕ → ℕ
to_lower c = if leb b'A' c && leb c b'Z' then c + 32 else c

unfoldable pub lowercased : Bytes → Bytes
unfolding to_lower
lowercased msg = map to_lower msg

unfoldable pub is_prefix : Bytes → Bytes → Bool
is_prefix [] s = true
is_prefix (x ∷ xs) [] = false
is_prefix (x ∷ xs) (y ∷ ys) = x == y && is_prefix xs ys

-- `s.find(needle) != npos`.
unfoldable pub finds : Bytes → Bytes → Bool
unfolding is_prefix
finds needle [] = is_prefix needle []
finds needle (c ∷ s) = is_prefix needle (c ∷ s) || finds needle s

unfoldable pub mentions_device_loss : Bytes → Bool
unfolding lowercased finds
mentions_device_loss msg =
    let lower = lowercased msg in
    finds (text "devicelost") lower
    || (finds (text "device_lost") lower || finds (text "device lost") lower)

unfoldable pub allocation_needles : List Bytes
allocation_needles =
    text "out of memory"
    ∷ text "outofdevicememory"
    ∷ text "outofhostmemory"
    ∷ text "bad_alloc"
    ∷ text "bad alloc"
    ∷ text "failed to allocate"
    ∷ text "cannot allocate"
    ∷ text "unable to allocate"
    ∷ text "allocation failed"
    ∷ text "not enough vram"
    ∷ text "insufficient memory"
    ∷ []

unfoldable pub mentions_allocation_failure : Bytes → Bool
unfolding lowercased finds allocation_needles any
mentions_allocation_failure msg =
    let lower = lowercased msg in any (λ n. finds n lower) allocation_needles

-- `ModelBenchmarkFailureKind`.
pub data FailureKind : Type 0 where
  incapable transient : FailureKind

unfoldable pub classify_bench_failure : Bytes → Bool → FailureKind
classify_bench_failure msg context_alloc_failed =
    if context_alloc_failed || mentions_allocation_failure msg then incapable else transient

pub data ModelErrorCode : Type 0 where
  invalid_config load_failed context_create_failed tokenize_failed decode_failed : ModelErrorCode
  template_failed context_overflow cancelled : ModelErrorCode

pub record ModelError : Type 0 where
  pub code : ModelErrorCode
  pub message : Bytes

abbrev pub is_context_create_failed : ModelErrorCode → Bool
is_context_create_failed context_create_failed = true
is_context_create_failed _ = false

unfoldable pub classify_load_failure : ModelError → FailureKind
unfolding classify_bench_failure
classify_load_failure e = classify_bench_failure e.message (is_context_create_failed e.code)
