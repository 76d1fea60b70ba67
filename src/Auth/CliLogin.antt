-- ===== src/Auth/CliLogin.antt =====
-- internal/services/cli_auth.go: signing the command line in through the browser. A text is the list of
-- its bytes; the functions on texts and the hash of the Go library are the interface CliTexts.
pub mod Requests
pub mod Calls
pub mod Steps
pub mod Handed
mod Examples
use asdl_hub.Prelude.{
  ℕ, zero, suc, ◌+◌, ◌-◌, ◌*◌, ◌/◌, ◌%◌, ◌≤◌, ◌<◌, min, max, String, ◌≡◌, refl, sym, ap, ◌∙◌, subst,
  fun_ext, ◌≢◌, ◌↔◌, ◌⊎◌, inl, inr, Bool, true, false, ◌&&◌, ◌||◌, not, Option, none, some, List,
  [], ◌∷◌, ◌++◌, map, append_assoc, append-nil, arith, ltb, leb, ◌==◌, if◌then◌else◌, ltb→lt,
  lt→ltb, leb→le, le→leb, ==_iff, tests, Bool-cases, Option-cases, is_some, length, take, drop,
  get_elem?, select, first, update, any, head, All, In, length-append, length-drop, length-take,
  All_of_In, first-In, first_passes, select-In, In-select, str_eq, str_eq_iff, stable_sort,
  IsSorted, insert_sorted, stable_sort-perm, In-of_stable_sort, In-stable_sort, length-stable_sort,
  stable_sort-IsSorted, In-of_update, In-update, DistinctKeys, row_unique, save_each,
  save_each-select, length-select-update, length-select-update_le, DistinctKeys-update,
  length-select_unique, length-select_In, All-select_not, select-select,
}
use asdl_hub.Prelude.GoMap.{GoMap, KeyEq, find, put, remove}
use asdl_hub.Models.{Ident, Time, Text, minute}
use asdl_hub.Deploy.Markers.{codes}
use asdl_hub.Auth.LoginLimiter.{text_eq, text_eq_iff}
use asdl_hub.Auth.Users.{User, Role, TokenScope, Accounts, same_role}
use asdl_hub.Auth.Sessions.{Client, SessionOptions}
use asdl_hub.Auth.Tokens.{Jwt, issue_session, generate_permanent_token}

abbrev cli_request_life : Time
cli_request_life = 5 * minute

abbrev cli_starts_per_min : ℕ
cli_starts_per_min = 10

abbrev cli_max_pending : ℕ
cli_max_pending = 500

abbrev cli_code_alphabet : Text
cli_code_alphabet = codes "ABCDEFGHJKLMNPQRSTUVWXYZ23456789"

abbrev cli_code_length : ℕ
cli_code_length = 8

abbrev cli_machine_name_max : ℕ
cli_machine_name_max = 64

pub record CliTexts : Type 0 where
  pub trim_space : Text → Text
  pub to_upper : Text → Text
  pub hash_secret : Text → Text

instance abbrev pub text_key : KeyEq Text
text_key = record { same = text_eq; same_iff = text_eq_iff }

pub data RequestStatus : Type 0 where
  pending approved denied : RequestStatus

pub record CliRequest : Type 0 where
  pub machine : Text
  pub ip : Text
  pub created : Time
  pub secret_hash : Text
  pub status : RequestStatus
  pub token : Text
  pub user : Option User

pub record CliAuth : Type 0 where
  pub requests : GoMap Text CliRequest
  pub starts : GoMap Text (List Time)
  pub accounts : Accounts

abbrev without_dashes : Text → Text
without_dashes [] = []
without_dashes (c ∷ s) =
    let rest = without_dashes s in if c == 45 || c == 32 then rest else c ∷ rest

unfoldable pub normalize_cli_code : CliTexts → Text → Text
normalize_cli_code texts code = texts.to_upper (without_dashes code)

unfoldable pub format_cli_code : Text → Text
format_cli_code code =
    if length code == cli_code_length then take 4 code ++ 45 ∷ drop 4 code else code

abbrev pub outlived : Time → Text × CliRequest → Bool
outlived now (k, r) = ltb (r.created + cli_request_life) now

unfoldable pub prune : Time → CliAuth → CliAuth
prune now c = record c { requests = select (λ e. not (outlived now e)) c.requests }

abbrev pub starts_of : Text → CliAuth → List Time
starts_of ip c = elim (find ip c.starts) [ none ↦ [] | some ts ↦ ts ]

-- raw[i] = cliCodeAlphabet[int(raw[i])%len(cliCodeAlphabet)]
unfoldable pub code_of : List ℕ → Text
code_of [] = []
code_of (b ∷ bs) = elim (get_elem? cli_code_alphabet (b % 32)) [
  | none ↦ code_of bs
  | some c ↦ c ∷ code_of bs
]

abbrev machine_name : CliTexts → Text → Text
machine_name texts machine =
    let name = texts.trim_space machine in
    take cli_machine_name_max (if text_eq name [] then codes "unknown machine" else name)

pub data StartAnswer : Type 0 where
  too_many_starts too_many_in_flight no_random taken : StartAnswer
  started : Text → Text → StartAnswer

abbrev pub new_request : CliTexts → Text → Text → Text → Time → CliRequest
new_request texts machine ip secret now = record {
  machine = machine_name texts machine;
  ip = ip;
  created = now;
  secret_hash = texts.hash_secret secret;
  status = pending;
  token = [];
  user = none;
}

-- The code that was drawn is given to the request, unless another request has it.
unfoldable pub place :
    CliTexts → Time → Text → Text → Text → Option Text → CliAuth → StartAnswer × CliAuth
place texts now machine ip code secret c =
    if is_some (find code c.requests) then (taken, c) else elim secret [
      | none ↦ (no_random, c)
      | some sec ↦ (
        started code sec,
        record c { requests = put code (new_request texts machine ip sec now) c.requests },
      )
    ]

-- `raw` are eight random bytes, `secret` is another random text.
-- The filter of the starts writes into the slice that it reads: where nothing is stored, the old length stays.
abbrev pub overwritten : Text → List Time → GoMap Text (List Time) → GoMap Text (List Time)
overwritten ip recent starts = elim (find ip starts) [
  | none ↦ starts
  | some old ↦ put ip (recent ++ drop (length recent) old) starts
]

unfoldable pub start :
    CliTexts → Time → Text → Text → Option (List ℕ) → Option Text → CliAuth → StartAnswer × CliAuth
start texts now machine ip raw secret c0 =
    let c = prune now c0 in
    let recent = select (λ t. ltb (now - t) minute) (starts_of ip c) in
    let counted : CliAuth = record c { starts = put ip (recent ++ now ∷ []) c.starts } in
    if leb cli_starts_per_min (length recent)
    then (too_many_starts, record c { starts = put ip recent c.starts })
    else if leb cli_max_pending (length c.requests)
    then (too_many_in_flight, record c { starts = overwritten ip recent c.starts })
    else elim raw [
      | none ↦ (no_random, counted)
      | some bytes ↦ place texts now machine ip (code_of bytes) secret counted
    ]

unfoldable pub get : CliTexts → Time → Text → CliAuth → Option CliRequest
get texts now code c = elim (find (normalize_cli_code texts code) c.requests) [
  | none ↦ none
  | some r ↦ if ltb cli_request_life (now - r.created) then none else some r
]

-- The machine, the address, the start, the end and the status.
unfoldable pub info :
    CliTexts → Time → Text → CliAuth → Option (Text × Text × Time × Time × RequestStatus)
info texts now code c = elim (get texts now code c) [
  | none ↦ none
  | some r ↦ some (r.machine, r.ip, r.created, r.created + cli_request_life, r.status)
]

abbrev pub is_pending : RequestStatus → Bool
is_pending pending = true
is_pending _ = false

-- What signs tokens, and the identifiers and database answers of one approval.
pub record Signing : Type 0 where
  pub jwt : Jwt
  pub hash : Text → Text
  pub id : Ident
  pub token_id : Ident
  pub saved : Bool

-- "asdl-hub CLI (%s@%s)"
abbrev token_name : User → CliRequest → Text
token_name user r = codes "asdl-hub CLI (" ++ user.username ++ codes "@" ++ r.machine ++ codes ")"

abbrev cli_options : CliRequest → SessionOptions
cli_options r = record {
  client = record { ip = r.ip; user_agent = codes "asdl-hub-cli" };
  remember = false;
  method = "cli";
}

unfoldable pub token_for : Signing → Time → User → CliRequest → Accounts → Option Text × Accounts
token_for s now user r a =
    if same_role user.role Role.admin
    then generate_permanent_token s.jwt s.hash s.token_id s.id s.saved (token_name user r) user.id
        TokenScope.admin now a
    else issue_session s.jwt s.hash s.id s.saved user (cli_options r) now a

pub data Reply : Type 0 where
  request_gone already_answered no_token done : Reply

abbrev pub answered : RequestStatus → Text → Option User → CliRequest → CliRequest
answered status token user r = record r { status = status; token = token; user = user }

abbrev pub set_request : Text → CliRequest → CliAuth → CliAuth
set_request key r c = record c { requests = put key r c.requests }

abbrev pub hand_over : Text → User → CliRequest → Option Text × Accounts → CliAuth → Reply × CliAuth
hand_over key user r (none, a) c = (no_token, record c { accounts = a })
hand_over key user r (some token, a) c =
    (done, set_request key (answered approved token (some user) r) (record c { accounts = a }))

abbrev pub approve_found :
    Signing → Time → Text → User → Option CliRequest → CliAuth → Reply × CliAuth
approve_found s now key user none c = (request_gone, c)
approve_found s now key user (some r) c =
    if not (is_pending r.status)
    then (already_answered, c)
    else hand_over key user r (token_for s now user r c.accounts) c

unfoldable pub approve : CliTexts → Signing → Time → Text → User → CliAuth → Reply × CliAuth
approve texts s now code user c =
    approve_found s now (normalize_cli_code texts code) user (get texts now code c) c

abbrev pub deny_found : Text → Option CliRequest → CliAuth → Reply × CliAuth
deny_found key none c = (request_gone, c)
deny_found key (some r) c =
    if not (is_pending r.status)
    then (request_gone, c)
    else (done, set_request key (answered denied r.token r.user r) c)

unfoldable pub deny : CliTexts → Time → Text → CliAuth → Reply × CliAuth
deny texts now code c = deny_found (normalize_cli_code texts code) (get texts now code c) c

pub data PollAnswer : Type 0 where
  unknown expired waiting turned_down : PollAnswer
  token_of : Text → Option User → PollAnswer

abbrev forget : Text → CliAuth → CliAuth
forget key c = record c { requests = remove key c.requests }

abbrev pub poll_status : Text → CliRequest → RequestStatus → CliAuth → PollAnswer × CliAuth
poll_status key r approved c = (token_of r.token r.user, forget key c)
poll_status key r denied c = (turned_down, forget key c)
poll_status key r pending c = (waiting, c)

abbrev pub poll_found :
    CliTexts → Time → Text → Text → Option CliRequest → CliAuth → PollAnswer × CliAuth
poll_found texts now key secret none c = (unknown, c)
poll_found texts now key secret (some r) c =
    if not (text_eq r.secret_hash (texts.hash_secret secret))
    then (unknown, c)
    else if ltb cli_request_life (now - r.created)
    then (expired, forget key c)
    else poll_status key r r.status c

unfoldable pub poll : CliTexts → Time → Text → Text → CliAuth → PollAnswer × CliAuth
poll texts now code secret c =
    let key = normalize_cli_code texts code in
    poll_found texts now key secret (find key c.requests) c
