-- ===== src/Auth/CliLogin/Calls.antt =====
-- internal/services/cli_auth.go: sequences of calls, and what is counted in them.
use asdl_hub.Prelude.{ℕ, ◌+◌, Bool, true, false, ◌&&◌, Option, List, [], ◌∷◌, if◌then◌else◌}
use asdl_hub.Models.{Time, Text}
use asdl_hub.Auth.LoginLimiter.{text_eq}
use asdl_hub.Auth.Users.{User}
use asdl_hub.Auth.CliLogin.{
  CliTexts, CliAuth, RequestStatus, approved, text_key, start, StartAnswer, started, approve, deny,
  poll, PollAnswer, token_of, Reply, done, Signing, normalize_cli_code,
}
use asdl_hub.Auth.CliLogin.Requests.{Entry}

-- A call of one of the operations.
pub data Call : Type 0 where
  start_call : Time → Text → Text → Option (List ℕ) → Option Text → Call
  approve_call : Signing → Time → Text → User → Call
  deny_call : Time → Text → Call
  poll_call : Time → Text → Text → Call

unfoldable pub after : CliTexts → Call → CliAuth → CliAuth
after texts (start_call now machine ip raw secret) c = (start texts now machine ip raw secret c).1
after texts (approve_call s now code user) c = (approve texts s now code user c).1
after texts (deny_call now code) c = (deny texts now code c).1
after texts (poll_call now code secret) c = (poll texts now code secret c).1

abbrev pub one_if : Bool → ℕ
one_if b = if b then 1 else 0

abbrev pub gives_token : PollAnswer → Bool
gives_token (token_of t u) = true
gives_token _ = false

abbrev pub starts_code : Text → StartAnswer → Bool
starts_code k (started code secret) = text_eq code k
starts_code k _ = false

abbrev pub succeeded : Reply → Bool
succeeded done = true
succeeded _ = false

-- Whether the call hands a token over to the poller of a code, makes a request under it or approves it.
unfoldable pub hands_over : CliTexts → Text → Call → CliAuth → Bool
hands_over texts k (poll_call now code secret) c =
    text_eq (normalize_cli_code texts code) k && gives_token (poll texts now code secret c).0
hands_over texts k _ c = false

unfoldable pub begins : CliTexts → Text → Call → CliAuth → Bool
begins texts k (start_call now machine ip raw secret) c =
    starts_code k (start texts now machine ip raw secret c).0
begins texts k _ c = false

unfoldable pub approves : CliTexts → Text → Call → CliAuth → Bool
approves texts k (approve_call s now code user) c =
    succeeded (approve texts s now code user c).0 && text_eq (normalize_cli_code texts code) k
approves texts k _ c = false

-- How many calls of a run pass a test.
unfoldable pub times : (Call → CliAuth → Bool) → CliTexts → List Call → CliAuth → ℕ
times p texts [] c = 0
times p texts (e ∷ es) c = one_if (p e c) + times p texts es (after texts e c)

abbrev pub under : Text → Entry → Bool
under k (j, r) = text_eq j k

abbrev pub is_approved : RequestStatus → Bool
is_approved approved = true
is_approved _ = false

abbrev pub approved_under : Text → Entry → Bool
approved_under k (j, r) = text_eq j k && is_approved r.status
