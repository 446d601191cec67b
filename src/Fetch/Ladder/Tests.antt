-- ===== src/Fetch/Ladder/Tests.antt =====
-- A server of three bytes that answers 416 to a resume at the first, and a partial file of one.
use mathlib.Core.List.{append-nil}
use mass_worker_llama_cpp.Prelude.{
  ℕ, zero, suc, ◌≤◌, ◌<◌, true, false, List, [], ◌∷◌, Option, none, some, Bytes, All, length, ◌≡◌,
  refl, ◌∙◌, arith,
}
use mass_worker_llama_cpp.Prelude.Slices.{drop}
use mass_worker_llama_cpp.Fetch.Ladder.{
  Chunk, Round, ok, Finish, Placed, placed, not_placed, download_and_place,
}
use mass_worker_llama_cpp.Fetch.Ladder.Transfers.{Starts, Serves, bytes_of}
use mass_worker_llama_cpp.Fetch.Ladder.Whole.{download_and_place-whole}

abbrev body : Bytes
body = 1 ∷ 2 ∷ 3 ∷ []

abbrev pieces : Bytes → List Chunk
pieces [] = []
pieces (x ∷ s) =
    record { bytes = x ∷ s; cancelled = false; status = 206; accepted = 4096; errno = 0 } ∷ []

-- No piece at all: a 416, which libcurl calls complete.
abbrev offered : ℕ → List Chunk
offered zero = pieces body
offered (suc zero) = []
offered (suc (suc o)) = pieces (drop (suc (suc o)) body)

abbrev server : ℕ → ℕ → Round
server k o = record {
  curl_inits = true;
  file_opens = true;
  chunks = offered o;
  code = ok;
  flushed = none;
  http_status = 206;
  cancelled = false;
  stopped = false;
  removes = true;
}

pieces_all : (s : Bytes) → All (λ c. 0 < length c.bytes) (pieces s)
pieces_all [] = tt
pieces_all (x ∷ s) = (omega arith, tt)

bytes_of-pieces : (s : Bytes) → bytes_of (pieces s) ≡ s
bytes_of-pieces [] = refl
bytes_of-pieces (x ∷ s) = append-nil (x ∷ s)

whole_pieces : (s : Bytes) → Starts (bytes_of (pieces s)) s
whole_pieces s = ([], append-nil (bytes_of (pieces s)) ∙ bytes_of-pieces s)

server-Serves : (k o : ℕ) → o ≤ length body → Serves body o (server k o)
server-Serves k zero h = record {
  pieces = pieces_all body;
  start = λ e. whole_pieces body;
  complete = λ e c. bytes_of-pieces body;
  flush = λ c. refl;
}
server-Serves k (suc zero) h = record {
  pieces = tt;
  start = λ e. cc;
  complete = λ e c. cc;
  flush = λ c. refl;
}
server-Serves k (suc (suc o)) h = record {
  pieces = pieces_all (drop (suc (suc o)) body);
  start = λ e. whole_pieces (drop (suc (suc o)) body);
  complete = λ e c. bytes_of-pieces (drop (suc (suc o)) body);
  flush = λ c. refl;
}

abbrev renamed : Finish
renamed = record { renames = true; copies = false }

resumed : download_and_place 28 (λ k. true) server renamed (some (1 ∷ [])) ≡ placed (some body)
unfolding download_and_place
resumed = refl

abbrev content_placed : Placed → Option Bytes
content_placed (placed x) = x
content_placed (not_placed e) = none

is_placed :
    download_and_place 28 (λ k. true) server renamed (some (1 ∷ []))
    ≡ placed (content_placed (download_and_place 28 (λ k. true) server renamed (some (1 ∷ []))))
unfolding download_and_place
is_placed = refl

download_and_place-whole_example :
    content_placed (download_and_place 28 (λ k. true) server renamed (some (1 ∷ []))) ≡ some body
download_and_place-whole_example =
    download_and_place-whole 28 (λ k. true) server renamed body (some (1 ∷ [])) _ server-Serves
      (2 ∷ 3 ∷ [], refl) is_placed

-- A server whose last flush is lost: the file that is placed is cut short.
abbrev full_disk : ℕ → ℕ → Round
full_disk k o = record (server k o) { flushed = some 2 }

cut_test : download_and_place 28 (λ k. true) full_disk renamed none ≡ placed (some (1 ∷ 2 ∷ []))
unfolding download_and_place
cut_test = refl
