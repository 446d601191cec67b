-- ===== src/Service/Jobs/Replies.antt =====
-- How a job is answered, and what it leaves of the counts of live guards.
use mass_worker_llama_cpp.Prelude.{
  ℕ, Bool, List, [], ◌∷◌, Option, none, some, Bytes, text, ◌≡◌, refl, inl, inr, Option-cases,
}
use mass_worker_llama_cpp.Prelude.Map.{lookup}
use mass_worker_llama_cpp.Service.State.{Service, Model}
use mass_worker_llama_cpp.Service.Active.{enter, leave}
use mass_worker_llama_cpp.Service.Active.Guards.{Tracks, enter-Tracks}
use mass_worker_llama_cpp.Service.Messages.{
  job_completed, job_failed, Reply, frame, no_frame, threw,
}
use mass_worker_llama_cpp.Service.Jobs.Chat.{WireMessage, ChatMessage, to_chat_request}
use mass_worker_llama_cpp.BatchRunner.{Result, Batch, Out, items, item_error, result}
use mass_worker_llama_cpp.Service.Jobs.Batches.Guards.{
  AreBalanced, leave_last-Tracks, run_items-Tracks,
}
use mass_worker_llama_cpp.Service.Jobs.{
  Job, chat, embed, batch_embed, batch_chat, tokenize, unknown_kind, Answer, answer, refused,
  raised, run_batch, Engine, clear, fail, reply_to, batch_reply, settle, settle_batch, guarded,
  chat_job, embed_job, batch_embed_job, batch_chat_job, tokenize_job, dispatch, run_job, assign,
}

-- A terminal frame of the job, or an exception on its way to one.
abbrev pub IsAnswer : Bytes → Reply → Type 0
IsAnswer job_id (frame (job_completed id r)) = id ≡ job_id
IsAnswer job_id (frame (job_failed id msg)) = id ≡ job_id
IsAnswer job_id (threw msg) = Unit {0}
IsAnswer job_id no_frame = ⊥
IsAnswer job_id (frame f) = ⊥

reply_to-IsAnswer :
    (job_id prefix : Bytes) (a : Answer) → IsAnswer job_id (reply_to job_id prefix a)
unfolding reply_to
reply_to-IsAnswer job_id prefix (answer r) = refl
reply_to-IsAnswer job_id prefix (refused msg) = refl
reply_to-IsAnswer job_id prefix (raised msg) = tt

-- A property of the live guards and the service that every step of a job keeps.
record Kept (P : List Bytes → Service → Type 0) (engine : Engine) : Type 0 where
  cleared : (job_id : Bytes) (held : List Bytes) (s : Service) → P held s → P held (clear job_id s)
  taken : (mid : Bytes) (held : List Bytes) (s : Service) → P held s → P (mid ∷ held) (enter mid s)
  given : (mid : Bytes) (held : List Bytes) (s : Service) → P (mid ∷ held) s → P held (leave mid s)
  complete :
      (m : Model) (ms : List ChatMessage) (stream : Bool) (held : List Bytes) (s : Service)
      → P held s
      → P held (engine.complete m ms stream s).0
  embed_one :
      (m : Model) (input : Bytes) (held : List Bytes) (s : Service)
      → P held s
      → P held (engine.embed_one m input s).0
  ran :
      (mid : Bytes) (n threads : ℕ) (opens : ℕ → Bool) (item : ℕ → Bool → Result Bytes Bytes)
      (held : List Bytes) (s : Service)
      → P held s
      → P held (run_batch engine mid n threads opens item s).1

-- What a piece of a job must do: answer the job, and keep the property.
record Good (P : List Bytes → Service → Type 0) (job_id : Bytes) (held : List Bytes)
    (r : Service × Reply) : Type 0 where
  answers : IsAnswer job_id r.1
  keeps : P held r.0

module _ (P : List Bytes → Service → Type 0) (engine : Engine) (k : Kept P engine) where
  settle-Good :
      (job_id prefix : Bytes) (held : List Bytes) (r : Service × Answer)
      → P held r.0
      → Good P job_id held (settle job_id prefix r)
  unfolding settle
  settle-Good job_id prefix held (s, raised msg) t = record { answers = tt; keeps = t }
  settle-Good job_id prefix held (s, answer r) t = record {
    answers = refl;
    keeps = k.cleared job_id held s t;
  }
  settle-Good job_id prefix held (s, refused msg) t = record {
    answers = refl;
    keeps = k.cleared job_id held s t;
  }

  batch_reply-IsAnswer :
      (encode : List Bytes → Bytes) (job_id prefix : Bytes) (o : Out Bytes Bytes)
      → IsAnswer job_id (batch_reply encode job_id prefix o)
  unfolding batch_reply
  batch_reply-IsAnswer encode job_id prefix (items none) = tt
  batch_reply-IsAnswer encode job_id prefix (items (some vs)) = refl
  batch_reply-IsAnswer encode job_id prefix (item_error i msg) = refl

  settle_batch-Good :
      (job_id prefix : Bytes) (held : List Bytes) (r : Batch Bytes Bytes × Service)
      → P held r.1
      → Good P job_id held (settle_batch engine.encode_batch job_id prefix r)
  unfolding settle_batch
  settle_batch-Good job_id prefix held (b, s) t = record {
    answers = batch_reply-IsAnswer engine.encode_batch job_id prefix (result b);
    keeps = k.cleared job_id held s t;
  }

  fail-Good :
      (job_id msg : Bytes) (held : List Bytes) (s : Service)
      → P held s
      → Good P job_id held (s, fail job_id msg)
  unfolding fail
  fail-Good job_id msg held s t = record { answers = refl; keeps = t }

  guarded-Good :
      (job_id mid : Bytes) (body : Service → Service × Reply) (held : List Bytes) (s : Service)
      → ((t : Service) → P (mid ∷ held) t → Good P job_id (mid ∷ held) (body t))
      → P held s
      → Good P job_id held (guarded mid body s)
  unfolding guarded
  guarded-Good job_id mid body held s good t =
      let g = good (enter mid s) (k.taken mid held s t) in
      record { answers = g.answers; keeps = k.given mid held _ g.keeps }

  chat_job-Good :
      (m : Option Model) (job_id : Bytes) (msgs : List WireMessage) (stream : Bool)
      (held : List Bytes) (s : Service)
      → P held s
      → Good P job_id held (chat_job engine m job_id msgs stream s)
  unfolding chat_job
  chat_job-Good none job_id msgs stream held s t = fail-Good job_id _ held s t
  chat_job-Good (some m) job_id msgs stream held s t = elim (Option-cases (to_chat_request msgs)) [
    | inl e ↦ rw (e, chat_job) (fail-Good job_id _ held s t)
    | inr (r, e) ↦ rw (e, chat_job) (settle-Good job_id _ held _ (k.complete m r stream held s t))
  ]

  embed_job-Good :
      (m : Option Model) (job_id input : Bytes) (held : List Bytes) (s : Service)
      → P held s
      → Good P job_id held (embed_job engine m job_id input s)
  unfolding embed_job
  embed_job-Good none job_id input held s t = fail-Good job_id _ held s t
  embed_job-Good (some m) job_id input held s t =
      settle-Good job_id _ held _ (k.embed_one m input held s t)

  batch_embed_job-Good :
      (m : Option Model) (mid job_id : Bytes) (inputs : List Bytes) (held : List Bytes)
      (s : Service)
      → P held s
      → Good P job_id held (batch_embed_job engine m mid job_id inputs s)
  unfolding batch_embed_job
  batch_embed_job-Good none mid job_id inputs held s t = fail-Good job_id _ held s t
  batch_embed_job-Good (some m) mid job_id inputs held s t =
      settle_batch-Good job_id _ held _ (k.ran mid _ _ _ _ held s t)

  batch_chat_job-Good :
      (m : Option Model) (mid job_id : Bytes) (msgs : List (List WireMessage)) (held : List Bytes)
      (s : Service)
      → P held s
      → Good P job_id held (batch_chat_job engine m mid job_id msgs s)
  unfolding batch_chat_job
  batch_chat_job-Good none mid job_id msgs held s t = fail-Good job_id _ held s t
  batch_chat_job-Good (some m) mid job_id [] held s t = fail-Good job_id _ held s t
  batch_chat_job-Good (some m) mid job_id (i ∷ msgs) held s t =
      settle_batch-Good job_id _ held _ (k.ran mid _ _ _ _ held s t)

  tokenize_job-Good :
      (m : Option Model) (job_id input : Bytes) (held : List Bytes) (s : Service)
      → P held s
      → Good P job_id held (tokenize_job engine m job_id input s)
  unfolding tokenize_job
  tokenize_job-Good none job_id input held s t = fail-Good job_id _ held s t
  tokenize_job-Good (some m) job_id input held s t = record {
    answers = reply_to-IsAnswer job_id _ (engine.tokens m input);
    keeps = t;
  }

  dispatch-Good :
      (c e : Option Model) (mid job_id : Bytes) (j : Job) (held : List Bytes) (s : Service)
      → P held s
      → Good P job_id held (dispatch engine c e mid job_id j s)
  unfolding dispatch
  dispatch-Good c e mid job_id (chat msgs stream) held s t =
      guarded-Good job_id mid _ held s (λ u. chat_job-Good c job_id msgs stream (mid ∷ held) u) t
  dispatch-Good c e mid job_id (embed input) held s t =
      guarded-Good job_id mid _ held s (λ u. embed_job-Good e job_id input (mid ∷ held) u) t
  dispatch-Good c e mid job_id (batch_embed inputs) held s t =
      batch_embed_job-Good e mid job_id inputs held s t
  dispatch-Good c e mid job_id (batch_chat msgs) held s t =
      batch_chat_job-Good c mid job_id msgs held s t
  dispatch-Good c e mid job_id (tokenize input) held s t =
      guarded-Good job_id mid _ held s (λ u. tokenize_job-Good c job_id input (mid ∷ held) u) t
  dispatch-Good c e mid job_id unknown_kind held s t =
      guarded-Good job_id mid _ held s
        (λ u. fail-Good job_id (text "AssignJob: unknown job kind") (mid ∷ held) u) t

  run_job-Good :
      (c e : Option Model) (mid job_id payload : Bytes) (held : List Bytes) (s : Service)
      → P held s
      → Good P job_id held (run_job engine c e mid job_id payload s)
  unfolding run_job
  run_job-Good c e mid job_id payload held s t = elim (Option-cases (engine.parse_job payload)) [
    | inl n ↦ rw (n, run_job) (fail-Good job_id _ held s t)
    | inr (j, n) ↦ rw (n, run_job) (dispatch-Good c e mid job_id j held s t)
  ]

  assign-Good :
      (job_id mid payload : Bytes) (held : List Bytes) (s : Service)
      → P held s
      → Good P job_id held (assign engine job_id mid payload s)
  unfolding assign
  assign-Good job_id mid payload held s t = elim (Option-cases (lookup mid s.chat_models)) [
    | inr (m, n) ↦ rw (n, assign) (run_job-Good (some m) none mid job_id payload held s t)
    | inl n ↦
        rw (n, assign)
          (elim (Option-cases (lookup mid s.embed_models)) [
            | inr (m, k) ↦ rw k (run_job-Good none (some m) mid job_id payload held s t)
            | inl k ↦ rw k (fail-Good job_id _ held s t)
          ])
  ]

module _ (engine : Engine) where
  anything : Kept (λ held s. Unit {0}) engine
  anything = record {
    cleared = λ job_id held s t. tt;
    taken = λ mid held s t. tt;
    given = λ mid held s t. tt;
    complete = λ m ms stream held s t. tt;
    embed_one = λ m input held s t. tt;
    ran = λ mid n threads opens item held s t. tt;
  }

  pub assign-IsAnswer :
      (job_id mid payload : Bytes) (s : Service)
      → IsAnswer job_id (assign engine job_id mid payload s).1
  assign-IsAnswer job_id mid payload s =
      (assign-Good (λ held s. Unit {0}) engine anything job_id mid payload [] s tt).answers

clear-Tracks :
    (job_id : Bytes) (held : List Bytes) (s : Service)
    → Tracks held s
    → Tracks held (clear job_id s)
unfolding clear
clear-Tracks job_id held s t = record { each = t.each; total = t.total }

-- The other threads balance their own guards while an engine call or a batch runs.
pub record Balanced (engine : Engine) : Type 0 where
  pub complete :
      (m : Model) (ms : List ChatMessage) (stream : Bool) (held : List Bytes) (s : Service)
      → Tracks held s
      → Tracks held (engine.complete m ms stream s).0
  pub embed_one :
      (m : Model) (input : Bytes) (held : List Bytes) (s : Service)
      → Tracks held s
      → Tracks held (engine.embed_one m input s).0
  pub others : (n threads : ℕ) (s : Service) → AreBalanced (engine.schedule n threads s)

module _ (engine : Engine) (b : Balanced engine) where
  balanced-Kept : Kept Tracks engine
  balanced-Kept = record {
    cleared = clear-Tracks;
    taken = λ mid held s t. enter-Tracks held s mid t;
    given = leave_last-Tracks;
    complete = b.complete;
    embed_one = b.embed_one;
    ran = λ mid n threads opens item held s t.
        unfold run_batch in
        run_items-Tracks mid held n opens item (engine.schedule n threads s) threads s
          (b.others n threads s) t;
  }

  -- In a service whose counts are those of its live guards, a job of any kind, however it ends, is
  -- answered under its own id or throws, and the counts are again those of the guards that were
  -- live before it, those of a batch's items included, however its threads interleave with the
  -- others, provided that the other threads balance their own guards meanwhile.
  pub assign-Tracks :
      (job_id mid payload : Bytes) (held : List Bytes) (s : Service)
      → Tracks held s
      → IsAnswer job_id (assign engine job_id mid payload s).1
        × Tracks held (assign engine job_id mid payload s).0
  assign-Tracks job_id mid payload held s t =
      let g = assign-Good Tracks engine balanced-Kept job_id mid payload held s t in
      (g.answers, g.keeps)
