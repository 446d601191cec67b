-- ===== src/Payload/Pack/RoundTrip.antt =====
-- An installer that was packed installs the files that went into it, in their order.
use mass_worker_llama_cpp.Prelude.{
  ◌^◌, ◌<◌, List, [], ◌∷◌, Option, none, some, Bytes, All, length, ◌≡◌, refl, sym, ap, subst, ◌∙◌,
  inl, inr, Bool-cases, passes, stops,
}
use mass_worker_llama_cpp.Payload.{Zstd, Dest, extract_payload}
use mass_worker_llama_cpp.Payload.Install.{install_into}
use mass_worker_llama_cpp.Payload.Pack.{
  Files, Deflate, Entry, planned, Packed, packed, pack_failed, pack_entries, with_host, finished,
  pack_planned, plan_entries, append_payload,
}
use mass_worker_llama_cpp.Payload.Pack.Plan.{Sound, plan_entries-IsPlan}
use mass_worker_llama_cpp.Payload.Pack.Archives.{extract-archive}
use mass_worker_llama_cpp.Payload.Pack.Items.{
  Zip, IsLeaf, items_of, frame_of, packed_eq, packed_ne, length-items_from, pack_entries-packed,
}

module _ (fs : Files) (c : Deflate) (z : Zstd) (zip : Zip c z)
    (bounded : (p s : Bytes) → fs.content p ≡ some s → length s < 2 ^ 64) (entries : List Entry)
    (leaves : All IsLeaf entries) where
  module _ (d : Dest) (plan : All (Sound fs entries) entries) (few : length entries < 2 ^ 64)
      (w : d.W) where
    Installs : Bytes → Type 0
    Installs a =
        length a < 2 ^ 64
        → extract_payload z d (some a) w
          ≡ install_into d (items_of fs entries entries) (d.prepare w)

    finished-Installs :
        (host a : Bytes) (p : Packed)
        → p ≡ pack_entries fs c entries entries
        → finished host (length entries) p ≡ packed a
        → Installs a
    unfolding finished Installs
    finished-Installs host a (pack_failed x) r h = absurd (packed_ne h)
    finished-Installs host a (packed body) r h = subst Installs (packed_eq h) (λ small.
        let (b, (f, i)) =
          pack_entries-packed fs c z zip bounded entries leaves entries body plan leaves (sym r) in
        extract-archive z d host body (length entries) small few (frame_of c)
          (items_of fs entries entries) b (length-items_from fs entries entries) f i w zip.ready)

    with_host-Installs :
        (path a : Bytes) (o : Option Bytes) → with_host fs c path entries o ≡ packed a → Installs a
    unfolding with_host
    with_host-Installs path a none h = absurd (packed_ne h)
    with_host-Installs path a (some host) h = finished-Installs host a _ refl h

    pack_planned-Installs :
        (path a : Bytes) → pack_planned fs c path (planned entries) ≡ packed a → Installs a
    unfolding pack_planned
    pack_planned-Installs path a h = elim (Bool-cases c.has_context) [
      | inl e ↦ with_host-Installs path a (fs.content path) (sym (passes c.has_context _ _ e) ∙ h)
      | inr e ↦ absurd (packed_ne (sym (stops c.has_context _ _ e) ∙ h))
    ]

append_payload-planned :
    (fs : Files) (c : Deflate) (host : Bytes) (files : List Bytes) (a : Bytes) (es : List Entry)
    → append_payload fs c host files ≡ packed a
    → plan_entries fs files ≡ planned es
    → pack_planned fs c host (planned es) ≡ packed a
unfolding append_payload
append_payload-planned fs c host [] a es h p = absurd (packed_ne h)
append_payload-planned fs c host (f ∷ files) a es h p = sym (ap (pack_planned fs c host) p) ∙ h

-- Let the compressor and the decompressor agree, and no file be larger than 2^64 bytes. If files
-- are planned as entries whose names are leaves that the reader takes, fewer than 2^64 of them, and
-- are packed as an installer of less than 2^64 bytes, its extraction puts exactly these files into
-- the directory, in their order, the aliases as copies, and counts them; it fails only where the
-- directory refuses a call.
pub extract_payload-append_payload :
    (fs : Files) (c : Deflate) (z : Zstd) (d : Dest) (host : Bytes) (files : List Bytes) (a : Bytes)
    (es : List Entry) (w : d.W)
    → Zip c z
    → ((p s : Bytes) → fs.content p ≡ some s → length s < 2 ^ 64)
    → append_payload fs c host files ≡ packed a
    → plan_entries fs files ≡ planned es
    → All IsLeaf es
    → length es < 2 ^ 64
    → length a < 2 ^ 64
    → extract_payload z d (some a) w ≡ install_into d (items_of fs es es) (d.prepare w)
unfolding Installs
extract_payload-append_payload fs c z d host files a es w zip bounded h p leaves few small =
    pack_planned-Installs fs c z zip bounded es leaves d (plan_entries-IsPlan fs files es p).sound
      few w host a (append_payload-planned fs c host files a es h p) small
