-- ===== src/Auth/Tokens/Examples.antt =====
-- A sign-in, its end and a permanent token, with a token library that writes the claims out as numbers.
use asdl_hub.Prelude.{
  ℕ, zero, suc, ◌*◌, ◌≤◌, ◌<◌, ◌≡◌, refl, sym, ap, ◌∙◌, true, false, Option, none, some, [], ◌∷◌,
  arith, ◌==◌, if◌then◌else◌, first,
}
use asdl_hub.Models.{Time, Text, second}
use asdl_hub.Deploy.Markers.{codes, strip_prefix}
use asdl_hub.Auth.Users.{
  User, Role, TokenScope, PermanentToken, Accounts, user_by_id, cap_role, role_rank, scope_role,
}
use asdl_hub.Auth.Sessions.{
  Client, SessionOptions, signed_out, token_expired, revoke_session, device_name, first_named,
  contains,
}
use asdl_hub.Auth.Sessions.Ended.{here, next, revoked, signed_out_one}
use asdl_hub.Auth.Tokens.{
  Jwt, Claims, TokenKind, Parsed, refused, granted, untyped, mfa, permanent, local, valid, expired,
  malformed, validate_token, validate_parsed, validate_claims, validate_permanent, stored_as,
  issue_session, session_claims, has_expired,
}
use asdl_hub.Auth.Tokens.Validate.{ended_session_refused, issued_session_lasts}
use asdl_hub.Auth.Tokens.Refused.{permanent_token_capped}

abbrev pack_number : Option ℕ → ℕ
pack_number none = 0
pack_number (some n) = suc n

abbrev unpack_number : ℕ → Option ℕ
unpack_number zero = none
unpack_number (suc n) = some n

unpack-pack_number : (o : Option ℕ) → unpack_number (pack_number o) ≡ o
unpack-pack_number none = refl
unpack-pack_number (some n) = refl

abbrev pack_role : Option Role → Option ℕ
pack_role none = some 0
pack_role (some Role.viewer) = some 1
pack_role (some Role.operator) = some 2
pack_role (some Role.admin) = some 3
pack_role (some (Role.other s)) = none

abbrev unpack_role : ℕ → Option Role
unpack_role n =
    if n == 1
    then some Role.viewer
    else if n == 2
    then some Role.operator
    else if n == 3
    then some Role.admin
    else none

unpack-pack_role : (o : Option Role) (n : ℕ) → pack_role o ≡ some n → unpack_role n ≡ o
unpack-pack_role none n e = ground arith
unpack-pack_role (some Role.viewer) n e = ground arith
unpack-pack_role (some Role.operator) n e = ground arith
unpack-pack_role (some Role.admin) n e = ground arith
unpack-pack_role (some (Role.other s)) n e = ground arith

abbrev pack_kind : TokenKind → Option ℕ
pack_kind untyped = some 0
pack_kind mfa = some 1
pack_kind permanent = some 2
pack_kind local = some 3
pack_kind (TokenKind.other s) = none

abbrev unpack_kind : ℕ → TokenKind
unpack_kind n =
    if n == 1 then mfa else if n == 2 then permanent else if n == 3 then local else untyped

unpack-pack_kind : (k : TokenKind) (n : ℕ) → pack_kind k ≡ some n → unpack_kind n ≡ k
unpack-pack_kind untyped n e = ground arith
unpack-pack_kind mfa n e = ground arith
unpack-pack_kind permanent n e = ground arith
unpack-pack_kind local n e = ground arith
unpack-pack_kind (TokenKind.other s) n e = ground arith

abbrev written : Claims → Option ℕ → Option ℕ → Option Text
written c none k = none
written c (some r) none = none
written c (some r) (some k) =
    some (pack_number c.user_id ∷ r ∷ k ∷ c.sid ∷ c.token_id ∷ pack_number c.exp ∷ [])

abbrev read_claims : Text → Option Claims
read_claims (u ∷ r ∷ k ∷ s ∷ i ∷ e ∷ []) = some (record {
  user_id = unpack_number u;
  role = unpack_role r;
  kind = unpack_kind k;
  sid = s;
  token_id = i;
  exp = unpack_number e;
})
read_claims _ = none

abbrev judge : Time → Option Claims → Parsed
judge now none = malformed
judge now (some c) = if has_expired now c then expired else valid c

pub read-written :
    (c : Claims) (r k : Option ℕ) (t : Text)
    → pack_role c.role ≡ r
    → pack_kind c.kind ≡ k
    → written c r k ≡ some t
    → read_claims t ≡ some c
read-written c none k t p q e = absurd (ground (arith, e))
read-written c (some r) none t p q e = absurd (ground (arith, e))
read-written c (some r) (some k) t p q e =
    let same : pack_number c.user_id ∷ r ∷ k ∷ c.sid ∷ c.token_id ∷ pack_number c.exp ∷ [] ≡ t =
      cc (e) in
    ap read_claims (sym same) ∙ λ d. some (record {
      user_id = unpack-pack_number c.user_id d;
      role = unpack-pack_role c.role r p d;
      kind = unpack-pack_kind c.kind k q d;
      sid = c.sid;
      token_id = c.token_id;
      exp = unpack-pack_number c.exp d;
    })

abbrev pub jwt : Jwt
jwt = record {
  sign = λ c. written c (pack_role c.role) (pack_kind c.kind);
  parse = λ now t. judge now (read_claims t);
  parse-sign = λ now c t e. ap (judge now) (read-written c _ _ t refl refl e);
}

abbrev pub hash : Text → Text
hash t = 0 ∷ t

abbrev firefox : Client
firefox = record {
  ip = codes "10.0.0.2";
  user_agent = codes "Mozilla/5.0 (X11; Linux x86_64) Firefox/140.0";
}

abbrev newer_firefox : Client
newer_firefox = record {
  ip = codes "10.0.0.9";
  user_agent = codes "Mozilla/5.0 (X11; Linux x86_64) Firefox/141.0";
}

abbrev phone : Client
phone = record { ip = codes "10.0.0.2"; user_agent = codes "Mozilla/5.0 (iPhone) CriOS/1 Safari/6" }

device_name-firefox : device_name firefox.user_agent ≡ codes "Firefox on Linux"
unfolding device_name strip_prefix first_named contains
device_name-firefox = refl

device_name-phone : device_name phone.user_agent ≡ codes "Chrome on iOS"
unfolding device_name strip_prefix first_named contains
device_name-phone = refl

abbrev pub alice : User
alice = record {
  id = 1;
  username = codes "alice";
  email = codes "a@x.org";
  password = codes "h";
  role = Role.operator;
  totp_enabled = false;
  totp_secret = [];
  totp_last_step = 0;
  recovery_codes = [];
  created_at = 0;
  updated_at = 0;
  deleted_at = none;
}

abbrev options : SessionOptions
options = record { client = firefox; remember = false; method = "password" }

abbrev start : Time
start = 1000 * second

abbrev permanent_claims_of : Claims
permanent_claims_of = record {
  user_id = none;
  role = none;
  kind = permanent;
  sid = 0;
  token_id = 3;
  exp = some 9000;
}

abbrev permanent_text : Text
permanent_text = 0 ∷ 0 ∷ 2 ∷ 0 ∷ 3 ∷ 9001 ∷ []

abbrev pub accounts : Accounts
accounts = record {
  users = alice ∷ [];
  sessions = [];
  permanent_tokens =
      record {
        id = 4;
        name = codes "ci";
        token = hash permanent_text;
        token_hint = [];
        scope = TokenScope.read;
        created_by = 1;
        created_at = 0;
        deleted_at = none;
      }
      ∷ [];
  passkeys = [];
}

abbrev session_text : Text
session_text = 2 ∷ 2 ∷ 0 ∷ 7 ∷ 0 ∷ 87401 ∷ []

issued_session_lasts_example :
    let issued = issue_session jwt hash 7 true alice options start accounts in
    (issued.0 ≡ some session_text)
    × ((t : Time) (client : Client)
        → t < 87400 * second
        → device_name client.user_agent ≡ device_name firefox.user_agent
        → (validate_token jwt hash t session_text client issued.1).0 ≡ granted alice)
    × ((t : Time) (client : Client) (b : Accounts)
        → 87400 * second ≤ t
        → validate_token jwt hash t session_text client b ≡ (refused token_expired, b))
issued_session_lasts_example =
    issued_session_lasts jwt hash 7 alice options start accounts session_text (omega arith) refl
      refl refl

newer_browser_taken :
    (validate_token jwt hash
      (2000 * second)
      session_text
      newer_firefox
      (issue_session jwt hash 7 true alice options start accounts).1).0
    ≡ granted alice
unfolding device_name strip_prefix first_named contains
newer_browser_taken =
    (issued_session_lasts jwt hash 7 alice options start accounts session_text (omega arith) refl
        refl refl).1
      (2000 * second) newer_firefox (omega arith) refl

abbrev signed_in : Accounts
signed_in = (issue_session jwt hash 7 true alice options start accounts).1

abbrev left : Accounts
left = (revoke_session 1 7 signed_in).1

abbrev later_on : Accounts
later_on = (revoke_session 1 8 left).1

ended_session_refused_example :
    validate_token jwt hash (2000 * second) session_text firefox later_on
    ≡ (refused signed_out, later_on)
ended_session_refused_example =
    ended_session_refused jwt hash 7 1 signed_in left later_on (revoked refl)
      (next here (signed_out_one 1 8 refl)) (omega arith) (2000 * second) session_text firefox
      (session_claims 7 alice options start) refl refl refl refl

permanent_token_capped_example :
    (t : PermanentToken) × (owner : User) × (first
        (stored_as (hash permanent_text))
        accounts.permanent_tokens
      ≡ some t)
    × (t.deleted_at ≡ none)
    × (user_by_id t.created_by accounts.users ≡ some owner)
    × (record alice { role = Role.viewer } ≡ record owner { role = Role.viewer })
    × (role_rank Role.viewer ≤ role_rank owner.role)
    × ((limit : Role) → scope_role t.scope ≡ some limit → role_rank Role.viewer ≤ role_rank limit)
unfolding validate_token validate_parsed validate_claims validate_permanent cap_role
permanent_token_capped_example =
    permanent_token_capped jwt hash start permanent_text firefox accounts permanent_claims_of
      (record alice { role = Role.viewer }) refl refl refl
