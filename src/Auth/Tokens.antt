-- ===== src/Auth/Tokens.antt =====
-- internal/services/auth_service.go and session_service.go: the tokens. The library that signs and reads
-- tokens is the interface Jwt, the hash that the database keeps of a token is the parameter `hash`.
pub mod Validate
pub mod Refused
pub mod Examples
use asdl_hub.Prelude.{
  ℕ, zero, suc, ◌+◌, ◌-◌, ◌*◌, ◌/◌, ◌%◌, ◌≤◌, ◌<◌, min, max, String, ◌≡◌, refl, sym, ap, ◌∙◌, subst,
  fun_ext, ◌≢◌, ◌↔◌, ◌⊎◌, inl, inr, Bool, true, false, ◌&&◌, ◌||◌, not, Option, none, some, List,
  [], ◌∷◌, ◌++◌, map, append_assoc, append-nil, arith, ltb, leb, ◌==◌, if◌then◌else◌, ltb→lt,
  lt→ltb, leb→le, le→leb, ==_iff, tests, Bool-cases, Option-cases, is_some, length, take, drop,
  get_elem?, select, first, update, any, head, All, In, length-append, length-drop, length-take,
  All_of_In, first-In, first_passes, select-In, In-select, str_eq, str_eq_iff, stable_sort,
  IsSorted, insert_sorted, stable_sort-perm, In-of_stable_sort, In-stable_sort, length-stable_sort,
  stable_sort-IsSorted, In-of_update, In-update, DistinctKeys, row_unique, save_each,
  save_each-select, length-select-update, length-select-update_le,
}
use asdl_hub.Models.{Ident, Time, Text, second, hour}
use asdl_hub.Deploy.Markers.{codes}
use asdl_hub.Auth.LoginLimiter.{text_eq}
use asdl_hub.Auth.Users.{
  Role, TokenScope, User, PermanentToken, Accounts, user_by_id, cap_role, valid_scope, same_role,
}
use asdl_hub.Auth.Sessions.{
  Client, SessionOptions, TokenError, token_invalid, token_expired, token_revoked, token_too_old,
  unknown_user, life_of, new_session, store_session, check_session, contains,
}

-- The claim "type"; a session's token has none.
pub data TokenKind : Type 0 where
  untyped mfa permanent local : TokenKind
  other : String → TokenKind

-- The claims of a token: an absent text is 0, `exp` counts seconds since 1970.
pub record Claims : Type 0 where
  pub user_id : Option Ident
  pub role : Option Role
  pub kind : TokenKind
  pub sid : Ident
  pub token_id : Ident
  pub exp : Option ℕ

-- What the library finds in a text.
pub data Parsed : Type 0 where
  malformed expired : Parsed
  valid : Claims → Parsed

-- A token stops being valid at the second that it names.
abbrev pub has_expired : Time → Claims → Bool
has_expired now c = elim c.exp [ none ↦ false | some e ↦ leb (e * second) now ]

-- The library under one secret: what it signs it reads back until it expires.
pub record Jwt : Type 0 where
  pub sign : Claims → Option Text
  pub parse : Time → Text → Parsed
  pub parse-sign :
      (now : Time) (c : Claims) (t : Text)
      → sign c ≡ some t
      → parse now t ≡ (if has_expired now c then expired else valid c)

pub data Validated : Type 0 where
  refused : TokenError → Validated
  granted : User → Validated

abbrev pub unix : Time → ℕ
unix t = t / second

abbrev pub session_claims : Ident → User → SessionOptions → Time → Claims
session_claims sid user opts now = record {
  user_id = some user.id;
  role = some user.role;
  kind = untyped;
  sid = sid;
  token_id = 0;
  exp = some (unix (now + life_of opts.remember));
}

abbrev mfa_token_life : Time
mfa_token_life = 300 * second

-- The last step of ValidateToken: the user of the token.
abbrev pub user_of_token : Ident → Accounts → Validated × Accounts
user_of_token user_id a = elim (user_by_id user_id a.users) [
  | none ↦ (refused unknown_user, a)
  | some u ↦ (granted u, a)
]

abbrev pub stored_as : Text → PermanentToken → Bool
stored_as h t = text_eq t.token h && not (is_some t.deleted_at)

unfoldable pub validate_permanent : Text → Accounts → Validated × Accounts
validate_permanent h a = elim (first (stored_as h) a.permanent_tokens) [
  | none ↦ (refused token_revoked, a)
  | some t ↦ elim (user_by_id t.created_by a.users) [
    | none ↦ (refused unknown_user, a)
    | some u ↦ (granted (record u { role = cap_role u.role t.scope }), a)
  ]
]

abbrev pub then_user : Ident → Option TokenError × Accounts → Validated × Accounts
then_user user_id (some e, a) = (refused e, a)
then_user user_id (none, a) = user_of_token user_id a

-- A token from before sessions were recorded, which lasted a day.
unfoldable pub validate_old : Time → Ident → Option ℕ → Accounts → Validated × Accounts
validate_old now user_id none a = (refused token_too_old, a)
validate_old now user_id (some e) a =
    if ltb (now + 25 * hour) (e * second)
    then (refused token_too_old, a)
    else user_of_token user_id a

abbrev pub is_local : TokenKind → Bool
is_local local = true
is_local _ = false

-- The switch on "sid" and "type".
unfoldable pub validate_user : Time → Claims → Client → Ident → Accounts → Validated × Accounts
validate_user now c client user_id a =
    if not (c.sid == 0)
    then then_user user_id (check_session now c.sid user_id client a)
    else if is_local c.kind
    then user_of_token user_id a
    else validate_old now user_id c.exp a

unfoldable pub validate_named : Time → Claims → Client → Accounts → Validated × Accounts
validate_named now c client a = elim c.user_id [
  | none ↦ (refused token_invalid, a)
  | some user_id ↦ validate_user now c client user_id a
]

abbrev pub by_kind : Time → Text → Client → Claims → TokenKind → Accounts → Validated × Accounts
by_kind now h client c mfa a = (refused token_invalid, a)
by_kind now h client c permanent a = validate_permanent h a
by_kind now h client c _ a = validate_named now c client a

unfoldable pub validate_claims : Time → Text → Client → Claims → Accounts → Validated × Accounts
validate_claims now h client c a = by_kind now h client c c.kind a

-- `h` is the hash of the token.
unfoldable pub validate_parsed : Time → Text → Client → Parsed → Accounts → Validated × Accounts
validate_parsed now h client malformed a = (refused token_invalid, a)
validate_parsed now h client expired a = (refused token_expired, a)
validate_parsed now h client (valid c) a = validate_claims now h client c a

pub data LoginError : Type 0 where
  invalid_credentials two_factor_required not_issued : LoginError

pub data LoginAnswer : Type 0 where
  denied : LoginError → LoginAnswer
  signed_in : User → Text → LoginAnswer

module _ (jwt : Jwt) (hash : Text → Text) where
  unfoldable pub validate_token : Time → Text → Client → Accounts → Validated × Accounts
  validate_token now token client a =
      validate_parsed now (hash token) client (jwt.parse now token) a

  -- `sid` is a new identifier, `saved` says whether the database took the row.
  unfoldable pub issue_session :
      Ident → Bool → User → SessionOptions → Time → Accounts → Option Text × Accounts
  issue_session sid saved user opts now a = elim (jwt.sign (session_claims sid user opts now)) [
    | none ↦ (none, a)
    | some token ↦
        if saved
        then (some token, store_session (new_session sid (hash token) user opts now) now a)
        else (none, a)
  ]

  -- `matches` is what bcrypt says to a stored hash and a password.
  unfoldable pub login :
      (Text → Text → Bool)
      → Ident
      → Bool
      → Text
      → Text
      → SessionOptions
      → Time
      → Accounts
      → LoginAnswer × Accounts
  login matches sid saved username password opts now a =
      elim (first (λ u. text_eq u.username username && not (is_some u.deleted_at)) a.users) [
        | none ↦ (denied invalid_credentials, a)
        | some u ↦
            if not (matches u.password password)
            then (denied invalid_credentials, a)
            else if u.totp_enabled
            then (denied two_factor_required, a)
            else let issued =
                issue_session sid saved u (record opts { method = "password" }) now a in
              elim issued.0 [
                | none ↦ (denied not_issued, issued.1)
                | some token ↦ (signed_in u token, issued.1)
              ]
      ]

  unfoldable pub mfa_token : User → Time → Option Text
  mfa_token user now = jwt.sign (record {
    user_id = some user.id;
    role = none;
    kind = mfa;
    sid = 0;
    token_id = 0;
    exp = some (unix (now + mfa_token_life));
  })

  permanent_claims : Ident → Time → Claims
  permanent_claims token_id now = record {
    user_id = none;
    role = none;
    kind = permanent;
    sid = 0;
    token_id = token_id;
    exp = some (unix (now + 10 * (365 * (24 * hour))));
  }

  abbrev last_eight : Text → Text
  last_eight t = drop (length t - 8) t

  permanent_row : Ident → Text → Text → Ident → TokenScope → Time → PermanentToken
  permanent_row id token name created_by scope now = record {
    id = id;
    name = name;
    token = hash token;
    token_hint = codes "..." ++ last_eight token;
    scope = scope;
    created_by = created_by;
    created_at = now;
    deleted_at = none;
  }

  -- GeneratePermanentToken; `token_id` and `id` are new identifiers.
  unfoldable pub generate_permanent_token :
      Ident → Ident → Bool → Text → Ident → TokenScope → Time → Accounts → Option Text × Accounts
  unfolding permanent_claims permanent_row
  generate_permanent_token token_id id saved name created_by scope now a =
      if not (valid_scope scope)
      then (none, a)
      else elim (jwt.sign (permanent_claims token_id now)) [
        | none ↦ (none, a)
        | some token ↦
            if saved
            then (
              some token,
              record a {
                permanent_tokens =
                    a.permanent_tokens ++ permanent_row id token name created_by scope now ∷ [];
              },
            )
            else (none, a)
      ]

  -- Tokens that an older version stored as they are, the deleted ones too: a hash has no dot.
  unfoldable pub hash_stored_tokens : Accounts → Accounts
  hash_stored_tokens a = record a {
    permanent_tokens =
        update (λ t. contains t.token (codes ".")) (λ t. record t { token = hash t.token })
          a.permanent_tokens;
  }

unfoldable pub revoke_permanent_token : Ident → Time → Accounts → Accounts
revoke_permanent_token id now a = record a {
  permanent_tokens =
      update (λ t. t.id == id && not (is_some t.deleted_at))
        (λ t. record t { deleted_at = some now }) a.permanent_tokens;
}
