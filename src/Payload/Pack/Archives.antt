-- ===== src/Payload/Pack/Archives.antt =====
-- Extraction of an archive: a host, the records of some items, and a trailer.
use mathlib.Core.List.{append-nil}
use mass_worker_llama_cpp.Prelude.{
  ℕ, ◌+◌, ◌-◌, ◌^◌, ◌<◌, Bool, true, false, List, [], ◌++◌, some, Bytes, All, length, length-append,
  ltb, ◌≡◌, refl, sym, ap, subst, ◌∙◌, arith, passes,
}
use mass_worker_llama_cpp.Payload.{
  Zstd, Dest, magic_format, trailer_size, read_at, wrap, parse_trailer, read_trailer, with_trailer,
  prepared, records, extract_payload,
}
use mass_worker_llama_cpp.Payload.Numbers.{At, At-append, read_at-At}
use mass_worker_llama_cpp.Payload.Install.{install_into, Item, install, items_bytes, Fits, Inflates}
use mass_worker_llama_cpp.Payload.Records.{records-At}
use mass_worker_llama_cpp.Payload.Pack.{trailer}
use mass_worker_llama_cpp.Payload.Pack.Trailers.{length-trailer, trailer_read}

module _ (z : Zstd) (d : Dest) (host body : Bytes) (count : ℕ) where
  abbrev pub archive : Bytes
  archive = host ++ (body ++ trailer (length body) count)

  length-archive : length archive ≡ length host + length body + 24
  length-archive = omega (
    arith,
    length-append host (body ++ trailer (length body) count),
    length-append body (trailer (length body) count),
    length-trailer (length body) count,
  )

  module _ (small : length archive < 2 ^ 64) (few : count < 2 ^ 64) where
    ended : length archive - 24 + 24 ≡ length archive
    ended = omega (arith, length-archive)

    body-At : At archive (0 + length host) (body ++ trailer (length body) count)
    body-At =
        At-append archive (length archive - 24) small ended 0 host _
          (record { rest = refl; ends = omega arith })

    trailer-At : At archive (length archive - 24) (trailer (length body) count ++ [])
    trailer-At =
        subst (λ k. At archive k (trailer (length body) count ++ []))
          (omega (arith, length-archive))
          (subst (λ s. At archive (0 + length host + length body) s)
            (sym (append-nil (trailer (length body) count)))
            (At-append archive (length archive - 24) small ended (0 + length host) body _ body-At))

    read_at-trailer :
        read_at archive (length archive - trailer_size) trailer_size
        ≡ some (trailer (length body) count)
    read_at-trailer =
        ap (λ n. read_at archive (length archive - 24) n) (sym (length-trailer (length body) count))
        ∙ read_at-At archive (length archive - 24) small ended (length archive - 24)
            (trailer (length body) count) [] trailer-At

    read_trailer-archive :
        read_trailer archive
        ≡ some (record {
          payload_size = length body;
          file_count = count;
          file_size = length archive;
          format = magic_format;
        })
    unfolding read_trailer
    read_trailer-archive =
        let g : ltb (length archive) trailer_size ≡ false = ground (arith, length-archive) in
        rw g (
          ap (parse_trailer (length archive)) read_at-trailer
          ∙ trailer_read (length body) count (length archive) (omega (arith, length-archive)) small
              few)

    -- Extraction of an archive whose body holds the items.
    module _ (frame : Bytes → Bytes) (is : List Item) (b : body ≡ items_bytes frame is)
        (n : count ≡ length is) (f : All Fits is) (i : All (Inflates z frame) is) where
      begin_eq : wrap (length archive - trailer_size + (2 ^ 64 - length body)) ≡ 0 + length host
      begin_eq = omega (arith, length-archive)

      records-archive :
          (v : d.W)
          → records z d archive
              (length archive - trailer_size)
              count
              0
              (wrap (length archive - trailer_size + (2 ^ 64 - length body)))
              v
            ≡ install d is 0 v
      records-archive v =
          ap (λ k. records z d archive (length archive - trailer_size) count 0 k v) begin_eq
          ∙ ap (λ m. records z d archive (length archive - trailer_size) m 0 (0 + length host) v) n
          ∙ records-At z d archive (length archive - 24) small ended frame 0 (0 + length host) is
              (trailer (length body) count) v
              (subst (λ s. At archive (0 + length host) (s ++ trailer (length body) count)) b
                body-At)
              f i (omega (arith, length-trailer (length body) count))

      prepared-archive :
          (o : Bool × d.W)
          → prepared z d archive
              (record {
                payload_size = length body;
                file_count = count;
                file_size = length archive;
                format = magic_format;
              })
              o
            ≡ install_into d is o
      unfolding prepared
      prepared-archive (false, v) = refl
      prepared-archive (true, v) = records-archive v

      pub extract-archive :
          (w : d.W)
          → z.has_context ≡ true
          → extract_payload z d (some archive) w ≡ install_into d is (d.prepare w)
      unfolding extract_payload with_trailer
      extract-archive w c =
          ap (with_trailer z d archive w) read_trailer-archive
          ∙ passes z.has_context _ _ c
          ∙ prepared-archive (d.prepare w)
