-- ===== src/Auth/Users.antt =====
-- internal/models/user.go and the users of internal/services/settings_service.go. A text is the list of
-- its bytes. What bcrypt answers is a parameter of the operations that call it.
use asdl_hub.Prelude.{
  ℕ, ◌≤◌, String, ◌≡◌, inl, inr, Bool, true, false, ◌&&◌, ◌||◌, not, Option, none, some, List, [],
  ◌∷◌, ◌++◌, arith, leb, ◌==◌, if◌then◌else◌, Option-cases, is_some, select, first, update, any,
  str_eq, ℕ, ◌≤◌, String, ◌≡◌, inl, inr, Bool, true, false, ◌&&◌, ◌||◌, not, Option, none, some,
  List, [], ◌∷◌, ◌++◌, arith, leb, ◌==◌, if◌then◌else◌, Option-cases, is_some, select, first,
  update, any, str_eq,
}
use asdl_hub.Models.{Ident, Time, Text}
use asdl_hub.Auth.LoginLimiter.{text_eq}

-- Role*; `other` is any other text.
pub data Role : Type 0 where
  viewer operator admin : Role
  other : String → Role

-- The scope of a token; `other` is any text that is none of these, the empty one included.
pub data TokenScope : Type 0 where
  read operate admin : TokenScope
  other : String → TokenScope

pub record User : Type 0 where
  pub id : Ident
  pub username : Text
  pub email : Text
  pub password : Text  -- a bcrypt hash
  pub role : Role
  pub totp_enabled : Bool
  pub totp_secret : Text  -- sealed
  pub totp_last_step : ℕ
  pub recovery_codes : Text  -- a JSON list of bcrypt hashes
  pub created_at : Time
  pub updated_at : Time
  pub deleted_at : Option Time

pub record Session : Type 0 where
  pub id : Ident
  pub user_id : Ident
  pub token : Text  -- its hash
  pub ip : Text
  pub user_agent : Text
  pub device : Text
  pub method : String
  pub remember : Bool
  pub last_ip : Text
  pub last_used_at : Time
  pub expires_at : Time
  pub created_at : Time

pub record Passkey : Type 0 where
  pub id : Ident
  pub user_id : Ident

pub record PermanentToken : Type 0 where
  pub id : Ident
  pub name : Text
  pub token : Text  -- its hash
  pub token_hint : Text
  pub scope : TokenScope
  pub created_by : Ident
  pub created_at : Time
  pub deleted_at : Option Time

-- The tables of the accounts.
pub record Accounts : Type 0 where
  pub users : List User
  pub sessions : List Session
  pub permanent_tokens : List PermanentToken
  pub passkeys : List Passkey

-- roleRank; a text that is not in the map has the rank 0.
abbrev pub role_rank : Role → ℕ
role_rank Role.viewer = 1
role_rank Role.operator = 2
role_rank Role.admin = 3
role_rank (Role.other s) = 0

abbrev pub scope_role : TokenScope → Option Role
scope_role TokenScope.read = some Role.viewer
scope_role TokenScope.operate = some Role.operator
scope_role TokenScope.admin = some Role.admin
scope_role (TokenScope.other s) = none

abbrev pub valid_scope : TokenScope → Bool
valid_scope scope = is_some (scope_role scope)

unfoldable pub cap_role : Role → TokenScope → Role
cap_role role scope = elim (scope_role scope) [
  | none ↦ role
  | some limit ↦ if leb (role_rank role) (role_rank limit) then role else limit
]

abbrev pub same_role : Role → Role → Bool
same_role Role.viewer Role.viewer = true
same_role Role.operator Role.operator = true
same_role Role.admin Role.admin = true
same_role (Role.other s) (Role.other t) = str_eq s t
same_role _ _ = false

-- RequireRole: whether a request of the user goes on.
unfoldable pub require_role : List Role → Option User → Bool
require_role roles none = false
require_role roles (some u) = any (same_role u.role) roles

-- A row that was deleted softly is not seen.
abbrev pub is_user : Ident → User → Bool
is_user id u = u.id == id && not (is_some u.deleted_at)

abbrev pub user_by_id : Ident → List User → Option User
user_by_id id us = first (is_user id) us

abbrev pub not_owned_by : Ident → Session → Bool
not_owned_by user_id s = not (s.user_id == user_id)

pub data AccountError : Type 0 where
  user_not_found admin_required incorrect_password invalid_role own_account hash_failed not_stored :
      AccountError

-- `matches` is what bcrypt says to the stored hash and the password.
unfoldable pub verify_admin_password :
    (Text → Text → Bool) → Ident → Text → Accounts → Option AccountError
verify_admin_password matches user_id password a = elim (user_by_id user_id a.users) [
  | none ↦ some user_not_found
  | some u ↦
      if not (same_role u.role Role.admin)
      then some admin_required
      else if not (matches u.password password)
      then some incorrect_password
      else none
]

-- models.RoleAdmin, RoleOperator or RoleViewer.
abbrev pub known_role : Role → Bool
known_role (Role.other s) = false
known_role _ = true

-- Rows that were deleted softly and hold the name or the address.
abbrev leftover : Text → Text → User → Bool
leftover username email u =
    is_some u.deleted_at && (text_eq u.username username || text_eq u.email email)

-- `hash` is bcrypt's hash of the password, `id` a new identifier; `saved` says whether the row was made.
unfoldable pub create_user :
    Option Text
    → Ident
    → Bool
    → Text
    → Text
    → Role
    → Time
    → Accounts
    → Option AccountError × Accounts
create_user hash id saved username email role now a =
    if not (known_role role) then (some invalid_role, a) else elim hash [
      | none ↦ (some hash_failed, a)
      | some password ↦
          let kept = select (λ u. not (leftover username email u)) a.users in
          let user : User = record {
            id = id;
            username = username;
            email = email;
            password = password;
            role = role;
            totp_enabled = false;
            totp_secret = [];
            totp_last_step = 0;
            recovery_codes = [];
            created_at = now;
            updated_at = now;
            deleted_at = none;
          } in
          if saved
          then (none, record a { users = kept ++ user ∷ [] })
          else (some not_stored, record a { users = kept })
    ]

abbrev pub other_sessions : Ident → Ident → Session → Bool
other_sessions user_id keep s = s.user_id == user_id && not (s.id == keep)

abbrev pub delete_sessions : (Session → Bool) → Accounts → Accounts
delete_sessions p a = record a { sessions = select (λ s. not (p s)) a.sessions }

unfoldable pub change_password :
    Option Text → Ident → Ident → Time → Accounts → Option AccountError × Accounts
change_password none user_id keep now a = (some hash_failed, a)
change_password (some hash) user_id keep now a = (
  none,
  delete_sessions (other_sessions user_id keep) (record a {
    users = update (is_user user_id) (λ u. record u { password = hash; updated_at = now }) a.users;
  }),
)

unfoldable pub change_role : Ident → Role → Time → Accounts → Option AccountError × Accounts
change_role user_id role now a = if not (known_role role) then (some invalid_role, a) else (
  none,
  record a {
    users = update (is_user user_id) (λ u. record u { role = role; updated_at = now }) a.users;
  },
)

unfoldable pub delete_user : Ident → Ident → Accounts → Option AccountError × Accounts
delete_user user_id requester_id a = if user_id == requester_id then (some own_account, a) else (
  none,
  record a {
    users = select (λ u. not (u.id == user_id)) a.users;
    passkeys = select (λ k. not (k.user_id == user_id)) a.passkeys;
    sessions = select (not_owned_by user_id) a.sessions;
  },
)

-- A token's role ranks at most as high as its scope, and never higher than its owner's role.
pub cap_role-rank :
    (role : Role) (scope : TokenScope) (limit : Role)
    → scope_role scope ≡ some limit
    → (role_rank (cap_role role scope) ≤ role_rank limit)
      × (role_rank (cap_role role scope) ≤ role_rank role)
unfolding cap_role
cap_role-rank role scope limit h = ground (arith, h)

pub cap_role-owner :
    (role : Role) (scope : TokenScope) → role_rank (cap_role role scope) ≤ role_rank role
unfolding cap_role
cap_role-owner role scope = elim (Option-cases (scope_role scope)) [
  | inl free ↦ rw (cap_role, free) (omega arith)
  | inr (limit, e) ↦ (cap_role-rank role scope limit e).1
]
