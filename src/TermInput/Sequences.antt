-- ===== src/TermInput/Sequences.antt =====
-- `read_key` of src/term_input.cpp against a grammar of what terminals send.
use mass_worker_llama_cpp.Prelude.{ℕ, ◌≤◌, ◌<◌, [], ◌∷◌, ◌++◌, Option, some, Bytes, ◌≡◌, ◌≢◌, ◌⊎◌}
use mass_worker_llama_cpp.TermInput.{
  KeyType, k_enter, k_backspace, k_tab, k_up, k_down, k_left, k_right, k_home, k_end, k_ctrl_c,
  k_unknown, Key, read_byte, Stream, of_type, of_byte, param_key,
}

-- The letters that end a key's sequence.
pub data IsLetter : ℕ → KeyType → Type 0 where
  up : IsLetter b'A' k_up
  down : IsLetter b'B' k_down
  right : IsLetter b'C' k_right
  left : IsLetter b'D' k_left
  home : IsLetter b'H' k_home
  end : IsLetter b'F' k_end

-- All bytes are parameter bytes: digits and ';'.
pub data AreParams : Bytes → Type 0 where
  no_params : AreParams []
  digit : {x : ℕ} {s : Bytes} → b'0' ≤ x → x ≤ b'9' → AreParams s → AreParams (x ∷ s)
  semicolon : {s : Bytes} → AreParams s → AreParams (b';' ∷ s)

-- What a terminal sends for a key, and the key.
pub data IsSequence : Bytes → Key → Type 0 where
  printed : {c : ℕ} → b' ' ≤ c → c ≢ 127 → IsSequence (c ∷ []) (of_byte c)
  carriage_return : IsSequence (13 ∷ []) (of_type k_enter)
  line_feed : IsSequence (10 ∷ []) (of_type k_enter)
  tab : IsSequence (9 ∷ []) (of_type k_tab)
  delete : IsSequence (127 ∷ []) (of_type k_backspace)
  backspace : IsSequence (8 ∷ []) (of_type k_backspace)
  ctrl_c : IsSequence (3 ∷ []) (of_type k_ctrl_c)
  csi : {c : ℕ} {t : KeyType} → IsLetter c t → IsSequence (27 ∷ b'[' ∷ c ∷ []) (of_type t)
  ss3 : {c : ℕ} {t : KeyType} → IsLetter c t → IsSequence (27 ∷ b'O' ∷ c ∷ []) (of_type t)
  mouse :
      {s : Bytes} {c : ℕ}
      → AreParams s
      → (c ≡ b'M') ⊎ (c ≡ b'm')
      → IsSequence (27 ∷ b'[' ∷ b'<' ∷ s ++ (c ∷ [])) (of_type k_unknown)
  x10_mouse : {a b c : ℕ} → IsSequence (27 ∷ b'[' ∷ b'M' ∷ a ∷ b ∷ c ∷ []) (of_type k_unknown)
  params :
      {d c : ℕ} {s : Bytes}
      → b'0' ≤ d
      → d ≤ b'9'
      → AreParams s
      → b';' < c
      → IsSequence (27 ∷ b'[' ∷ d ∷ s ++ (c ∷ [])) (of_type (param_key (d ∷ s) c))

-- What the terminal gives for these bytes, and then the rest.
pub sent : Bytes → Stream → Stream
sent [] rest = rest
sent (c ∷ s) rest = read_byte c ∷ sent s rest

abbrev read : Key × Stream → Option Key × Stream
read r = (some r.0, r.1)
