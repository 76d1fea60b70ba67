-- ===== src/Auth/CliLogin/Examples.antt =====
-- A login of the command line: asked for, approved, handed over once.
use asdl_hub.Prelude.{◌+◌, ◌*◌, ◌≤◌, ◌≡◌, refl, true, some, List, [], ◌∷◌}
use asdl_hub.Prelude.GoMap.{find, put, remove}
use asdl_hub.Models.{Text, Time, second}
use asdl_hub.Deploy.Markers.{codes}
use asdl_hub.Auth.Tokens.Examples.{jwt, hash, accounts, alice}
use asdl_hub.Auth.Tokens.{issue_session}
use asdl_hub.Auth.CliLogin.{
  CliTexts, CliAuth, Signing, start, approve, poll, prune, place, code_of, normalize_cli_code,
  format_cli_code, get, token_for,
}
use asdl_hub.Auth.CliLogin.Requests.{tally}
use asdl_hub.Auth.CliLogin.Calls.{
  Call, start_call, approve_call, poll_call, times, hands_over, begins, approves, under,
  approved_under, after,
}
use asdl_hub.Auth.CliLogin.Handed.{token_handed_over_once, token_only_when_approved}

abbrev texts : CliTexts
texts = record { trim_space = λ s. s; to_upper = λ s. s; hash_secret = λ s. s }

abbrev empty : CliAuth
empty = record { requests = []; starts = []; accounts = accounts }

abbrev signing : Signing
signing = record { jwt = jwt; hash = hash; id = 9; token_id = 8; saved = true }

abbrev asked : Time
asked = 1000 * second

abbrev code : Text
code = codes "ABCDEFGH"

abbrev secret : Text
secret = codes "s3"

-- The poll is asked before the approval, twice after it, and once with another secret.
abbrev calls : List Call
calls =
    start_call asked (codes "laptop") (codes "10.0.0.2")
      (some (0 ∷ 1 ∷ 2 ∷ 3 ∷ 4 ∷ 5 ∷ 6 ∷ 39 ∷ [])) (some secret)
    ∷ poll_call (asked + second) code secret
    ∷ approve_call signing (asked + 2 * second) (codes "ABCD-EFGH") alice
    ∷ poll_call (asked + 3 * second) code (codes "guess")
    ∷ poll_call (asked + 3 * second) code secret
    ∷ poll_call (asked + 4 * second) code secret
    ∷ []

shown_code : format_cli_code code ≡ codes "ABCD-EFGH"
unfolding format_cli_code
shown_code = refl

handed_once_here : times (hands_over texts code) texts calls empty ≡ 1
unfolding times hands_over begins approves after start prune place code_of normalize_cli_code get
    approve poll token_for issue_session find put remove
handed_once_here = refl

token_handed_over_once_example :
    times (hands_over texts code) texts calls empty
    ≤ times (begins texts code) texts calls empty + tally (under code) empty.requests
token_handed_over_once_example = token_handed_over_once texts code calls empty

token_only_when_approved_example :
    times (hands_over texts code) texts calls empty
    ≤ times (approves texts code) texts calls empty + tally (approved_under code) empty.requests
token_only_when_approved_example = token_only_when_approved texts code calls empty
