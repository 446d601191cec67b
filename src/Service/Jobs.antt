-- ===== src/Service/Jobs.antt =====
-- AssignJob of src/worker_service.cpp: `to_chat_request`, `run_job` and the look-up of the model.
-- The engine behind the models, the decoder of payloads and the encoder of responses are parameters.
pub mod Chat
pub mod Batches
pub mod Replies
use mass_worker_llama_cpp.Prelude.{
  ℕ, Bool, true, false, List, [], ◌∷◌, ◌++◌, Option, none, some, Bytes, text, max, min, length,
  if◌then◌else◌,
}
use mass_worker_llama_cpp.Prelude.Decimal.{to_string}
use mass_worker_llama_cpp.Prelude.Map.{lookup}
use mass_worker_llama_cpp.Service.State.{Service, Model}
use mass_worker_llama_cpp.Service.Active.{enter, leave}
use mass_worker_llama_cpp.Service.Cancel.{clear_job_cancel}
use mass_worker_llama_cpp.Service.Messages.{Frame, job_completed, job_failed, Reply, frame, threw}
use mass_worker_llama_cpp.BatchRunner.{Result, Batch, Out, items, item_error, result}
use Batches.{Move, embed_item, chat_item, opens_chat, run_items}
use Chat.{WireMessage, ChatMessage, to_chat_request}

-- `llamacpp::Job`.
pub data Job : Type 0 where
  chat : List WireMessage → Bool → Job  -- messages, stream
  embed : Bytes → Job
  batch_embed : List Bytes → Job
  batch_chat : List (List WireMessage) → Job
  tokenize : Bytes → Job
  unknown_kind : Job

-- What a call into the engine comes back with: an encoded response, an error's message, or an
-- exception's text.
pub data Answer : Type 0 where
  answer : Bytes → Answer
  refused : Bytes → Answer
  raised : Bytes → Answer

-- Each call but `tokenize` takes long: it hands back the service as the other threads left it. An
-- item of a batch comes to something that depends on its index, its input and whether it has seen
-- the abort, and `schedule` is what happens while so many items run on so many threads.
pub record Engine : Type 0 where
  pub parse_job : Bytes → Option Job
  pub complete : Model → List ChatMessage → Bool → Service → Service × Answer
  pub embed_one : Model → Bytes → Service → Service × Answer
  pub embed_one_item : Model → ℕ → Bytes → Bool → Result Bytes Bytes
  pub complete_item : Model → ℕ → List ChatMessage → Bool → Result Bytes Bytes
  pub schedule : ℕ → ℕ → Service → List Move
  pub encode_batch : List Bytes → Bytes
  pub tokens : Model → Bytes → Answer

-- `min(n, max(1, pool_size))` threads for n items.
pub max_conc : ℕ → ℕ → ℕ
max_conc n pool = min n (max 1 pool)

-- `clear_job_cancel(job_id)`.
pub clear : Bytes → Service → Service
clear job_id s = record s { cancel_requested = clear_job_cancel job_id s.cancel_requested }

pub fail : Bytes → Bytes → Reply
fail job_id msg = frame (job_failed job_id msg)

-- The frame for an answer, behind the prefix of its kind of job.
reply_to : Bytes → Bytes → Answer → Reply
unfolding fail
reply_to job_id prefix (answer response) = frame (job_completed job_id response)
reply_to job_id prefix (refused msg) = fail job_id (prefix ++ msg)
reply_to job_id prefix (raised msg) = threw msg

-- Only an empty slot could be read amiss, and a batch without an error has none.
batch_reply : (List Bytes → Bytes) → Bytes → Bytes → Out Bytes Bytes → Reply
unfolding fail
batch_reply encode job_id prefix (items none) = threw (text "empty slot")
batch_reply encode job_id prefix (items (some vs)) = frame (job_completed job_id (encode vs))
batch_reply encode job_id prefix (item_error i msg) =
    fail job_id (prefix ++ (text " item " ++ (to_string i ++ (text ": " ++ msg))))

-- An exception leaves the mark: `clear_job_cancel` is skipped when the call throws.
unfoldable pub settle : Bytes → Bytes → Service × Answer → Service × Reply
unfolding reply_to clear
settle job_id prefix (s, raised msg) = (s, threw msg)
settle job_id prefix (s, answer response) =
    (clear job_id s, reply_to job_id prefix (answer response))
settle job_id prefix (s, refused msg) = (clear job_id s, reply_to job_id prefix (refused msg))

settle_batch : (List Bytes → Bytes) → Bytes → Bytes → Batch Bytes Bytes × Service → Service × Reply
unfolding batch_reply clear
settle_batch encode job_id prefix (b, s) =
    (clear job_id s, batch_reply encode job_id prefix (result b))

-- The job-scoped guard lives from here to the return, on every path.
unfoldable pub guarded : Bytes → (Service → Service × Reply) → Service → Service × Reply
guarded mid body s = let (s', r) = body (enter mid s) in (leave mid s', r)

module _ (engine : Engine) where
  unfoldable pub chat_job :
      Option Model → Bytes → List WireMessage → Bool → Service → Service × Reply
  unfolding fail settle
  chat_job none job_id msgs stream s = (s, fail job_id (text "Chat: not a chat model"))
  chat_job (some m) job_id msgs stream s = elim (to_chat_request msgs) [
    | none ↦ (s, fail job_id (text "Chat: " ++ text "unrecognized content part variant"))
    | some request ↦ settle job_id (text "Chat: ") (engine.complete m request stream s)
  ]

  embed_job : Option Model → Bytes → Bytes → Service → Service × Reply
  unfolding fail settle
  embed_job none job_id input s = (s, fail job_id (text "Embed: not an embedding model"))
  embed_job (some m) job_id input s = settle job_id (text "Embed: ") (engine.embed_one m input s)

  -- `run_batch_items` on the threads that the pool has contexts for.
  run_batch :
      Bytes
      → ℕ
      → ℕ
      → (ℕ → Bool)
      → (ℕ → Bool → Result Bytes Bytes)
      → Service
      → Batch Bytes Bytes × Service
  run_batch mid n threads opens item s =
      run_items mid n opens item (engine.schedule n threads s) threads s

  batch_embed_job : Option Model → Bytes → Bytes → List Bytes → Service → Service × Reply
  unfolding fail settle_batch run_batch
  batch_embed_job none mid job_id inputs s =
      (s, fail job_id (text "BatchEmbed: not an embedding model"))
  batch_embed_job (some m) mid job_id inputs s =
      settle_batch engine.encode_batch job_id (text "BatchEmbed") (
        run_batch mid (length inputs) (max_conc (length inputs) m.pool_size) (λ i. true)
          (embed_item (engine.embed_one_item m) inputs) s)

  batch_chat_job :
      Option Model → Bytes → Bytes → List (List WireMessage) → Service → Service × Reply
  unfolding fail settle_batch run_batch
  batch_chat_job none mid job_id chats s = (s, fail job_id (text "BatchChat: not a chat model"))
  batch_chat_job (some m) mid job_id [] s =
      (s, fail job_id (text "BatchChat: items must be non-empty"))
  batch_chat_job (some m) mid job_id (i ∷ chats) s =
      settle_batch engine.encode_batch job_id (text "BatchChat") (
        run_batch mid (length (i ∷ chats)) (max_conc (length (i ∷ chats)) m.pool_size)
          (opens_chat (i ∷ chats)) (chat_item (engine.complete_item m) (i ∷ chats)) s)

  tokenize_job : Option Model → Bytes → Bytes → Service → Service × Reply
  unfolding fail reply_to
  tokenize_job none job_id input s = (s, fail job_id (text "Tokenize: not a chat model"))
  tokenize_job (some m) job_id input s =
      (s, reply_to job_id (text "Tokenize: ") (engine.tokens m input))

  -- Batch jobs hold a guard for each item in flight, all others one for the job.
  unfoldable pub dispatch :
      Option Model → Option Model → Bytes → Bytes → Job → Service → Service × Reply
  unfolding chat_job embed_job batch_embed_job batch_chat_job tokenize_job guarded fail
  dispatch c e mid job_id (chat msgs stream) = guarded mid (chat_job c job_id msgs stream)
  dispatch c e mid job_id (embed input) = guarded mid (embed_job e job_id input)
  dispatch c e mid job_id (batch_embed inputs) = batch_embed_job e mid job_id inputs
  dispatch c e mid job_id (batch_chat chats) = batch_chat_job c mid job_id chats
  dispatch c e mid job_id (tokenize input) = guarded mid (tokenize_job c job_id input)
  dispatch c e mid job_id unknown_kind =
      guarded mid (λ s. (s, fail job_id (text "AssignJob: unknown job kind")))

  unfoldable pub run_job :
      Option Model → Option Model → Bytes → Bytes → Bytes → Service → Service × Reply
  unfolding dispatch
  run_job c e mid job_id payload s = elim (engine.parse_job payload) [
    | none ↦ (s, fail job_id (text "AssignJob: invalid payload encoding"))
    | some job ↦ dispatch c e mid job_id job s
  ]

  -- The chat table first, then the embedding table.
  unfoldable pub assign : Bytes → Bytes → Bytes → Service → Service × Reply
  assign job_id mid payload s = elim (lookup mid s.chat_models) [
    | some m ↦ run_job (some m) none mid job_id payload s
    | none ↦ elim (lookup mid s.embed_models) [
      | some m ↦ run_job none (some m) mid job_id payload s
      | none ↦ (s, fail job_id (text "AssignJob: model not loaded: " ++ mid))
    ]
  ]
