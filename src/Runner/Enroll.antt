-- ===== src/Runner/Enroll.antt =====
-- The opening and the end of `run_one_session` of src/runner.cpp: the frame of the registration,
-- the enrollment handshake of a worker without an identity, and what the final status means. The
-- stream is what it comes back with; the heartbeat interval and the logs are left out.
pub mod Identities
mod Tests
use mass_worker_llama_cpp.Prelude.{
  ℕ, Bool, true, false, ◌||◌, not, [], ◌∷◌, Option, none, some, Bytes, ◌==◌, if◌then◌else◌,
}
use mass_worker_llama_cpp.MassClient.{StatusCode, unauthenticated, connect_error_is_fatal}
use mass_worker_llama_cpp.Service.Messages.{
  HubMessage, enrolled, assign_job, cancel_job, load_model, unload_model, delete_cache_files,
  set_devices, benchmark, model_benchmark, not_set,
}
use mass_worker_llama_cpp.Settings.Files.{Disk}
use mass_worker_llama_cpp.Settings.Credentials.{Credentials, persist_enrollment, empty}
use mass_worker_llama_cpp.Runner.Reconnect.{SessionResult}

-- The members of `Runner` that a session may change, and its configuration.
pub record Identity : Type 0 where
  pub worker_id : Bytes
  pub worker_secret : Bytes
  pub join_token : Bytes

pub record RunnerConfig : Type 0 where
  pub mass_url : Bytes
  pub ca_file : Bytes
  pub worker_name : Bytes
  pub data_dir : Bytes

-- What the first read comes back with: the status of a stream that closed, or a message.
pub data FirstRead : Type 0 where
  closed : StatusCode → FirstRead
  got : HubMessage → FirstRead

-- The session ended here, or serves from here on.
pub data Opening (W : Type 0) : Type 0 where
  ended : Bool → Identity → W → Opening W
  serving : Identity → W → Opening W

unfoldable pub enrolling : Identity → Bool
enrolling i = empty i.worker_secret

-- The bearer and the worker id that the client presents.
unfoldable pub presented : Identity → Bytes × Bytes
unfolding enrolling
presented i = if enrolling i then (i.join_token, []) else (i.worker_secret, i.worker_id)

pub credentials_of : RunnerConfig → Bytes → Bytes → Credentials
credentials_of cfg worker_id secret = record {
  mass_url = cfg.mass_url;
  worker_id = worker_id;
  worker_secret = secret;
  join_token = [];
  ca_file = cfg.ca_file;
  name = cfg.worker_name;
}

module _ (d : Disk) (cfg : RunnerConfig) where
  -- The identity is adopted only when it is on disk.
  adopted : Identity → Bytes → Bytes → Bool × d.W → Opening d.W
  adopted i worker_id secret (false, w) = ended false i w
  adopted i worker_id secret (true, w) =
      serving (record { worker_id = worker_id; worker_secret = secret; join_token = [] }) w

  enroll : Identity → Bytes → Bytes → d.W → Opening d.W
  unfolding adopted credentials_of
  enroll i worker_id secret w =
      let r =
        adopted i worker_id secret
          (persist_enrollment d cfg.data_dir (credentials_of cfg worker_id secret) w) in
      if empty worker_id || empty secret then ended false i w else r

  first_message : Identity → HubMessage → d.W → Opening d.W
  unfolding enroll
  first_message i (enrolled worker_id secret) w = enroll i worker_id secret w
  first_message i (assign_job a b c) w = ended false i w
  first_message i (cancel_job a) w = ended false i w
  first_message i (load_model r) w = ended false i w
  first_message i (unload_model a b) w = ended false i w
  first_message i (delete_cache_files a) w = ended false i w
  first_message i (set_devices a b) w = ended false i w
  first_message i (benchmark a b) w = ended false i w
  first_message i (model_benchmark r) w = ended false i w
  first_message i not_set w = ended false i w

  handshake : Identity → FirstRead → d.W → Opening d.W
  unfolding first_message
  handshake i (closed code) w = ended (not (connect_error_is_fatal code)) i w
  handshake i (got m) w = first_message i m w

  -- `registered`: whether the frame of the registration was written.
  pub open_session : Bool → FirstRead → Identity → d.W → Opening d.W
  unfolding handshake
  open_session registered first i w =
      let r = handshake i first w in
      if not registered then ended true i w else if enrolling i then r else serving i w

is_unauthenticated : StatusCode → Bool
is_unauthenticated unauthenticated = true
is_unauthenticated _ = false

-- The status that the stream finishes with; `none` is OK.
may_retry : Option StatusCode → Bool
unfolding is_unauthenticated
may_retry none = true
may_retry (some code) = if is_unauthenticated code then false else not (connect_error_is_fatal code)

pub served : Option StatusCode → ℕ → Bool → SessionResult
unfolding may_retry
served status lifetime saw_inbound = record {
  retryable = may_retry status;
  reached_working_state = true;
  lifetime = lifetime;
  saw_inbound_message = saw_inbound;
}

-- The result of a session that ended before it served.
pub unserved : Bool → SessionResult
unserved retryable = record {
  retryable = retryable;
  reached_working_state = false;
  lifetime = 0;
  saw_inbound_message = false;
}
