-- ===== src/Auth/TwoFactor/Setup.antt =====
-- internal/services/twofactor_service.go: turning two-factor sign-in on and off, and the second step of a
-- sign-in.
use asdl_hub.Prelude.{
  ℕ, zero, suc, ◌⊎◌, inl, inr, Bool, true, false, not, Option, none, some, List, [], ◌∷◌, ◌++◌,
  if◌then◌else◌, take, drop, update,
}
use asdl_hub.Models.{Ident, Time, Text}
use asdl_hub.Deploy.Markers.{◌>>=◌}
use asdl_hub.Auth.LoginLimiter.{text_eq}
use asdl_hub.Auth.Users.{User, Accounts, is_user, user_by_id}
use asdl_hub.Auth.Sessions.{SessionOptions}
use asdl_hub.Auth.Tokens.{Jwt, Claims, Parsed, valid, mfa, TokenKind, issue_session}
use asdl_hub.Auth.TwoFactor.{Crypto, SecondFactor, bad_code, check_totp, check_second_factor}

pub data SetupError : Type 0 where
  user_not_found already_on not_on not_started start_again wrong_code incorrect_password no_codes :
      SetupError

abbrev pub set_user : Ident → (User → User) → Accounts → Accounts
set_user id f a = record a { users = update (is_user id) f a.users }

-- `key` is 20 random bytes; the key is what the caller shows.
unfoldable pub begin_two_factor :
    Crypto → Option Text → Ident → Accounts → (SetupError ⊎ Text) × Accounts
begin_two_factor crypto key user_id a = elim (user_by_id user_id a.users) [
  | none ↦ (inl user_not_found, a)
  | some u ↦ if u.totp_enabled then (inl already_on, a) else elim key [
    | none ↦ (inl start_again, a)
    | some k ↦ elim (crypto.seal_secret k) [
      | none ↦ (inl start_again, a)
      | some sealed ↦
          (inr k, set_user user_id (λ w. record w { totp_secret = sealed; totp_last_step = 0 }) a)
    ]
  ]
]

-- plain[:5] + "-" + plain[5:]
abbrev shown : Text → Text
shown plain = take 5 plain ++ 45 ∷ drop 5 plain

-- `n` codes and their hashes; `draw` gives each code's ten random letters.
unfoldable pub new_recovery_codes : Crypto → (ℕ → Option Text) → ℕ → Option (List Text × List Text)
new_recovery_codes crypto draw zero = some ([], [])
new_recovery_codes crypto draw (suc n) = do
  earlier ← new_recovery_codes crypto draw n
  plain ← draw n
  h ← crypto.generate plain
  some (earlier.0 ++ shown plain ∷ [], earlier.1 ++ h ∷ [])

abbrev confirmed : Text → ℕ → User → User
confirmed stored step u = record u {
  totp_enabled = true;
  totp_last_step = step;
  recovery_codes = stored;
}

abbrev enable_with :
    Crypto
    → Option (List Text × List Text)
    → Ident
    → Option ℕ
    → Accounts
    → (SetupError ⊎ List Text) × Accounts
enable_with crypto made user_id none a = (inl wrong_code, a)
enable_with crypto none user_id (some step) a = (inl no_codes, a)
enable_with crypto (some (codes, hashes)) user_id (some step) a =
    (inr codes, set_user user_id (confirmed (crypto.marshal hashes) step) a)

unfoldable pub enable_two_factor :
    Crypto
    → (ℕ → Option Text)
    → Ident
    → Text
    → Time
    → Accounts
    → (SetupError ⊎ List Text) × Accounts
enable_two_factor crypto draw user_id code now a = elim (user_by_id user_id a.users) [
  | none ↦ (inl user_not_found, a)
  | some u ↦
      if u.totp_enabled
      then (inl already_on, a)
      else if text_eq u.totp_secret []
      then (inl not_started, a)
      else elim (crypto.open_secret u.totp_secret) [
        | none ↦ (inl start_again, a)
        | some key ↦
            enable_with crypto (new_recovery_codes crypto draw 10) user_id
              (check_totp crypto key code now 0) a
      ]
]

abbrev cleared : User → User
cleared u = record u {
  totp_enabled = false;
  totp_secret = [];
  totp_last_step = 0;
  recovery_codes = [];
}

unfoldable pub reset_two_factor : Ident → Accounts → Accounts
reset_two_factor user_id a = set_user user_id cleared a

abbrev factor_passed : SecondFactor → Bool
factor_passed bad_code = false
factor_passed _ = true

unfoldable pub disable_two_factor :
    Crypto → Ident → Text → Text → Time → Accounts → Option SetupError × Accounts
disable_two_factor crypto user_id password code now a = elim (user_by_id user_id a.users) [
  | none ↦ (some user_not_found, a)
  | some u ↦
      if not u.totp_enabled
      then (some not_on, a)
      else if not (crypto.matches u.password password)
      then (some incorrect_password, a)
      else let (factor, us) = check_second_factor crypto u code now a.users in
        let checked : Accounts = record a { users = us } in
        if factor_passed factor
        then (none, reset_two_factor user_id checked)
        else (some wrong_code, checked)
]

abbrev mfa_claims : Claims → Accounts → Option User
mfa_claims c a = elim c.user_id [
  | none ↦ none
  | some id ↦ elim (user_by_id id a.users) [
    | none ↦ none
    | some u ↦ if u.totp_enabled then some u else none
  ]
]

abbrev mfa_kind : TokenKind → Claims → Accounts → Option User
mfa_kind mfa c a = mfa_claims c a
mfa_kind _ c a = none

-- Nothing where the source says to sign in again; `parsed` is what the token library finds.
unfoldable pub mfa_user : Parsed → Accounts → Option User
mfa_user (valid c) a = mfa_kind c.kind c a
mfa_user _ a = none

unfoldable pub complete_two_factor_login :
    Crypto
    → Jwt
    → (Text → Text)
    → Ident
    → Bool
    → User
    → Text
    → SessionOptions
    → Time
    → Accounts
    → Option Text × Accounts
complete_two_factor_login crypto jwt hash sid saved user code opts now a =
    let (factor, us) = check_second_factor crypto user code now a.users in
    let checked : Accounts = record a { users = us } in
    let issued =
      issue_session jwt hash sid saved user (record opts { method = "password" }) now checked in
    if factor_passed factor then issued else (none, checked)
