-- ===== src/Runner/Enroll/Identities.antt =====
-- Which identity a session serves with, and what is on disk then.
use mass_worker_llama_cpp.Prelude.{
  Bool, true, false, ◌⊎◌, inl, inr, [], some, Bytes, ◌≡◌, refl, ap, Bool-cases,
}
use mass_worker_llama_cpp.Service.Messages.{
  HubMessage, enrolled, assign_job, cancel_job, load_model, unload_model, delete_cache_files,
  set_devices, benchmark, model_benchmark, not_set,
}
use mass_worker_llama_cpp.Settings.Files.{Disk, DiskLaws}
use mass_worker_llama_cpp.Settings.Credentials.{load_credentials, empty}
use mass_worker_llama_cpp.Settings.Credentials.RoundTrip.{Keeps}
use mass_worker_llama_cpp.Settings.Credentials.Recorded.{load_credentials-persist_enrollment}
use mass_worker_llama_cpp.Runner.Enroll.{
  Identity, RunnerConfig, FirstRead, closed, got, Opening, ended, serving, enrolling,
  credentials_of, adopted, enroll, first_message, handshake, open_session,
}

module _ (d : Disk) (cfg : RunnerConfig) (i : Identity) (w : d.W) where
  -- The hub's identity, on disk and in the runner, with no join token left in either.
  pub record Enrolled (first : FirstRead) (j : Identity) (v : d.W) : Type 0 where
    pub has_id : empty j.worker_id ≡ false
    pub has_secret : empty j.worker_secret ≡ false
    pub from_hub : first ≡ got (enrolled j.worker_id j.worker_secret)
    pub token_spent : j.join_token ≡ []
    pub on_disk :
        load_credentials d cfg.data_dir v ≡ some (credentials_of cfg j.worker_id j.worker_secret)

  -- A session that ends early leaves the runner and the credentials on disk as they were; one that
  -- serves has the identity from before, or the one of a complete enrollment.
  abbrev pub Explained : FirstRead → Opening d.W → Type 0
  Explained first (ended retryable j v) =
      (j ≡ i) × (load_credentials d cfg.data_dir v ≡ load_credentials d cfg.data_dir w)
  Explained first (serving j v) =
      ((enrolling i ≡ false) × ((j ≡ i) × (v ≡ w))) ⊎ ((enrolling i ≡ true) × Enrolled first j v)

  module _ (worker_id secret : Bytes) (e : enrolling i ≡ true) (n : empty worker_id ≡ false)
      (m : empty secret ≡ false) where
    adopted-Explained :
        (r : Bool × d.W)
        → ((r.0 ≡ true)
            × (load_credentials d cfg.data_dir r.1 ≡ some (credentials_of cfg worker_id secret)))
          ⊎ ((r.0 ≡ false)
              × (load_credentials d cfg.data_dir r.1 ≡ load_credentials d cfg.data_dir w))
        → Explained (got (enrolled worker_id secret)) (adopted d cfg i worker_id secret r)
    unfolding adopted
    adopted-Explained (true, v) (inl h) = inr (
      e,
      record { has_id = n; has_secret = m; from_hub = refl; token_spent = refl; on_disk = h.1 },
    )
    adopted-Explained (true, v) (inr h) = cc
    adopted-Explained (false, v) (inl h) = cc
    adopted-Explained (false, v) (inr h) = (refl, h.1)

  module _ (law : DiskLaws d) (e : enrolling i ≡ true) where
    enroll-Explained :
        (worker_id secret : Bytes)
        → Keeps (credentials_of cfg worker_id secret)
        → Explained (got (enrolled worker_id secret)) (enroll d cfg i worker_id secret w)
    unfolding enroll credentials_of
    enroll-Explained worker_id secret keeps = elim (Bool-cases (empty worker_id)) [
      | inl n ↦ rw n (refl, refl)
      | inr n ↦ elim (Bool-cases (empty secret)) [
        | inl m ↦ rw n (rw m (refl, refl))
        | inr m ↦ rw n (
            rw m (
              adopted-Explained worker_id secret e n m _ (
                load_credentials-persist_enrollment d law cfg.data_dir
                  (credentials_of cfg worker_id secret) w keeps)))
      ]
    ]

    first_message-Explained :
        (m : HubMessage)
        → ((worker_id secret : Bytes)
            → m ≡ enrolled worker_id secret
            → Keeps (credentials_of cfg worker_id secret))
        → Explained (got m) (first_message d cfg i m w)
    unfolding first_message
    first_message-Explained (enrolled worker_id secret) k =
        enroll-Explained worker_id secret (k worker_id secret refl)
    first_message-Explained (assign_job a b c) k = (refl, refl)
    first_message-Explained (cancel_job a) k = (refl, refl)
    first_message-Explained (load_model r) k = (refl, refl)
    first_message-Explained (unload_model a b) k = (refl, refl)
    first_message-Explained (delete_cache_files a) k = (refl, refl)
    first_message-Explained (set_devices a b) k = (refl, refl)
    first_message-Explained (benchmark a b) k = (refl, refl)
    first_message-Explained (model_benchmark r) k = (refl, refl)
    first_message-Explained not_set k = (refl, refl)

    handshake-Explained :
        (first : FirstRead)
        → ((worker_id secret : Bytes)
            → first ≡ got (enrolled worker_id secret)
            → Keeps (credentials_of cfg worker_id secret))
        → Explained first (handshake d cfg i first w)
    unfolding handshake
    handshake-Explained (closed code) k = (refl, refl)
    handshake-Explained (got m) k = first_message-Explained m (λ a b h. k a b (ap got h))

-- On a disk that keeps the laws, if the identity that the hub may send can be stored (a URL is
-- configured, and no value has a newline or a carriage return at its end): a session that ends
-- before it serves leaves the identity of the runner and the credentials on disk as they were; a
-- session that serves has the identity that the runner had, if there was a secret, and otherwise
-- one that came complete as the first message of the hub and is on disk with no join token left.
pub open_session-Explained :
    (d : Disk) (law : DiskLaws d) (cfg : RunnerConfig) (i : Identity) (w : d.W) (registered : Bool)
    (first : FirstRead)
    → ((worker_id secret : Bytes)
        → first ≡ got (enrolled worker_id secret)
        → Keeps (credentials_of cfg worker_id secret))
    → Explained d cfg i w first (open_session d cfg registered first i w)
unfolding open_session
open_session-Explained d law cfg i w false first k = (refl, refl)
open_session-Explained d law cfg i w true first k = elim (Bool-cases (enrolling i)) [
  | inl e ↦ rw e (handshake-Explained d cfg i w law e first k)
  | inr e ↦ rw e (inl (e, (refl, refl)))
]
