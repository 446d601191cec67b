-- ===== src/MassClient.antt =====
-- src/mass_client.cpp: the dial target of a URL, and which refusals of a connection are final. The
-- status codes are those of gRPC.
pub mod Target
mod Tests
use mass_worker_llama_cpp.Prelude.{
  ℕ, zero, suc, Bool, true, false, ◌||◌, List, [], ◌∷◌, ◌++◌, Option, none, some, Bytes, text, ◌==◌,
  if◌then◌else◌,
}
use mass_worker_llama_cpp.Prelude.Decimal.{to_string}

pub record ParsedUrl : Type 0 where
  pub target : Bytes
  pub use_tls : Bool

-- The rest behind a prefix, if the text starts with it: `starts_with` and `remove_prefix`.
pub drop_prefix : Bytes → Bytes → Option Bytes
drop_prefix [] s = some s
drop_prefix (p ∷ ps) [] = none
drop_prefix (p ∷ ps) (c ∷ s) = let rest = drop_prefix ps s in if p == c then rest else none

-- `find_first_of("/?#")`, and what stands before it.
abbrev pub is_cut : ℕ → Bool
is_cut c = c == b'/' || (c == b'?' || c == b'#')

pub before_cut : Bytes → Bytes
before_cut [] = []
before_cut (c ∷ s) = let rest = before_cut s in if is_cut c then [] else c ∷ rest

-- What stands behind the last '@', if there is one: `rfind('@')`.
last_at : ℕ → Bytes → Option Bytes → Option Bytes
last_at c s (some rest) = some rest
last_at c s none = if c == b'@' then some s else none

pub after_at : Bytes → Option Bytes
unfolding last_at
after_at [] = none
after_at (c ∷ s) = last_at c s (after_at s)

without_user : Bytes → Option Bytes → Bytes
without_user rest (some host) = host
without_user rest none = rest

host_of : Bytes → Bytes
unfolding before_cut after_at without_user
host_of rest = without_user (before_cut rest) (after_at (before_cut rest))

plain_url : Bytes → Option Bytes → ParsedUrl
unfolding host_of
plain_url url (some rest) = record { target = host_of rest; use_tls = false }
plain_url url none = record { target = host_of url; use_tls = false }

any_url : Bytes → Option Bytes → ParsedUrl
unfolding plain_url host_of drop_prefix
any_url url (some rest) = record { target = host_of rest; use_tls = true }
any_url url none = plain_url url (drop_prefix (text "http://") url)

-- With no scheme the channel is insecure.
pub parse_url : Bytes → ParsedUrl
unfolding any_url drop_prefix
parse_url url = any_url url (drop_prefix (text "https://") url)

-- `grpc::StatusCode`, as far as the code tells the codes apart; `other` is any of the rest.
pub data StatusCode : Type 0 where
  unauthenticated permission_denied invalid_argument failed_precondition : StatusCode
  other : ℕ → StatusCode

-- `number` is the cast of a code to an integer.
status_detail : (StatusCode → ℕ) → StatusCode → Bytes → Bytes
status_detail number code [] = text " (code " ++ (to_string (number code) ++ text ")")
status_detail number code (c ∷ msg) =
    text ": " ++ ((c ∷ msg) ++ (text " (code " ++ (to_string (number code) ++ text ")")))

token_message : Bool → Bytes
token_message true = text "enrollment failed: MASS rejected the join token (invalid or expired?)"
token_message false =
    text
      "enrollment failed: MASS requires a join token and none was provided (pass --token or MASS_JOIN_TOKEN)"

reason : Bool → StatusCode → Bytes → Bytes
unfolding token_message
reason had_token unauthenticated msg = token_message had_token
reason had_token permission_denied msg = token_message had_token
reason had_token failed_precondition msg = text "enrollment failed: MASS rejected the registration"
reason had_token code [] = text "enrollment failed: MASS closed the stream without replying"
reason had_token code (c ∷ msg) = text "enrollment failed: MASS rejected the enrollment"

pub enrollment_failure_message : (StatusCode → ℕ) → Bool → StatusCode → Bytes → Bytes
unfolding reason status_detail
enrollment_failure_message number had_token code msg =
    reason had_token code msg ++ status_detail number code msg

pub connect_error_is_fatal : StatusCode → Bool
connect_error_is_fatal (other n) = false
connect_error_is_fatal _ = true
