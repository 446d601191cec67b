-- ===== src/Payload/Pack/Trailers.antt =====
-- The trailer of an installer is read back as it was written.
use mass_worker_llama_cpp.Prelude.{
  ℕ, ◌+◌, ◌^◌, ◌<◌, ◌≤◌, true, [], ◌∷◌, ◌++◌, some, Bytes, text, text_eq, length, length-append,
  ◌≡◌, refl, ap, ◌∙◌, arith,
}
use mass_worker_llama_cpp.Prelude.Slices.{take, drop, take_of, drop_of, drop_add}
use mass_worker_llama_cpp.Payload.{
  first, magic_prefix, magic_format, load_le, trailer_of, fitting, parse_trailer,
}
use mass_worker_llama_cpp.Payload.Numbers.{length-put_le, load_le-put_le}
use mass_worker_llama_cpp.Payload.Pack.{put_le, trailer}

pub length-trailer : (size count : ℕ) → length (trailer size count) ≡ 24
unfolding trailer text
length-trailer size count = omega (
  arith,
  length-append (put_le 8 size) (put_le 8 count ++ (magic_prefix ++ (magic_format ∷ []))),
  length-append (put_le 8 count) (magic_prefix ++ (magic_format ∷ [])),
  length-put_le 8 size,
  length-put_le 8 count,
)

abbrev magic : Bytes
magic = magic_prefix ++ (magic_format ∷ [])

magic_text : text_eq (take 7 magic) magic_prefix ≡ true
unfolding text text_eq
magic_text = refl

module _ (size count : ℕ) where
  drop-8 : drop 8 (trailer size count) ≡ put_le 8 count ++ magic
  unfolding trailer
  drop-8 = drop_of 8 (put_le 8 size) (put_le 8 count ++ magic) (length-put_le 8 size)

  drop-16 : drop 16 (trailer size count) ≡ magic
  drop-16 =
      drop_add 8 8 (trailer size count)
      ∙ ap (drop 8) drop-8
      ∙ drop_of 8 (put_le 8 count) magic (length-put_le 8 count)

  drop-23 : drop 23 (trailer size count) ≡ magic_format ∷ []
  unfolding text
  drop-23 = drop_add 16 7 (trailer size count) ∙ ap (drop 7) drop-16

  first-8 : take 8 (trailer size count) ≡ put_le 8 size
  unfolding trailer
  first-8 = take_of 8 (put_le 8 size) (put_le 8 count ++ magic) (length-put_le 8 size)

  trailer_of-trailer :
      (total : ℕ)
      → size < 2 ^ 64
      → count < 2 ^ 64
      → trailer_of total (trailer size count) ≡ record {
        payload_size = size;
        file_count = count;
        file_size = total;
        format = magic_format;
      }
  unfolding trailer_of
  trailer_of-trailer total h c =
      ap
        (λ s. record {
          payload_size = load_le s;
          file_count = load_le (take 8 (drop 8 (trailer size count)));
          file_size = total;
          format = first (drop 23 (trailer size count));
        })
        first-8
      ∙ ap
          (λ s. record {
            payload_size = load_le (put_le 8 size);
            file_count = load_le (take 8 s);
            file_size = total;
            format = first (drop 23 (trailer size count));
          })
          drop-8
      ∙ ap
          (λ s. record {
            payload_size = load_le (put_le 8 size);
            file_count = load_le s;
            file_size = total;
            format = first (drop 23 (trailer size count));
          })
          (take_of 8 (put_le 8 count) magic (length-put_le 8 count))
      ∙ ap
          (λ s. record {
            payload_size = load_le (put_le 8 size);
            file_count = load_le (put_le 8 count);
            file_size = total;
            format = first s;
          })
          drop-23
      ∙ ap
          (λ n. record {
            payload_size = n;
            file_count = load_le (put_le 8 count);
            file_size = total;
            format = magic_format;
          })
          (load_le-put_le 8 size (omega arith))
      ∙ ap
          (λ n. record {
            payload_size = size;
            file_count = n;
            file_size = total;
            format = magic_format;
          })
          (load_le-put_le 8 count (omega arith))

  pub trailer_read :
      (total : ℕ)
      → size + 24 ≤ total
      → total < 2 ^ 64
      → count < 2 ^ 64
      → parse_trailer total (some (trailer size count))
        ≡ some (record {
          payload_size = size;
          file_count = count;
          file_size = total;
          format = magic_format;
        })
  unfolding parse_trailer fitting
  trailer_read total h t c =
      let m : text_eq (take 7 (drop 16 (trailer size count))) magic_prefix ≡ true =
        ap (λ s. text_eq (take 7 s) magic_prefix) drop-16 ∙ magic_text in
      rw m (ap fitting (trailer_of-trailer total (omega arith) c) ∙ ground arith)
