-- ===== src/TermInput/Tests.antt =====
-- Keys read from concrete streams.
use mass_worker_llama_cpp.Prelude.{true, [], ◌∷◌, some, text, text_eq, ◌≡◌, refl}
use mass_worker_llama_cpp.TermInput.{
  Stream, read_byte, read_none, of_type, k_esc, k_home, k_ctrl_right, k_eof, read_key, parse_key,
  param_key, is_modified, named_key, next, byte_of, control, keyed, escaped,
}

abbrev typed : Stream
typed = read_byte b'x' ∷ []

-- A lone Esc, and Alt with a key.
lone : read_key true (read_byte 27 ∷ read_none ∷ typed) ≡ (some (of_type k_esc), typed)
unfolding read_key parse_key control keyed escaped next byte_of
lone = refl

alt : read_key true (read_byte 27 ∷ read_byte b'q' ∷ typed) ≡ (some (of_type k_esc), typed)
unfolding read_key parse_key control keyed escaped next byte_of
alt = refl

ended : read_key true (read_none ∷ typed) ≡ (some (of_type k_eof), typed)
unfolding read_key
ended = refl

home_key : param_key (text "7") b'~' ≡ k_home
unfolding param_key is_modified named_key text text_eq
home_key = refl

ctrl_right : param_key (text "1;5") b'C' ≡ k_ctrl_right
unfolding param_key is_modified named_key text text_eq
ctrl_right = refl
