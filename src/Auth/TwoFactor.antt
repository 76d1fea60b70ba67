-- ===== src/Auth/TwoFactor.antt =====
-- internal/services/twofactor_service.go: codes of an authenticator app and recovery codes. A typed code
-- is the list of its code points. The hash functions, the cipher, bcrypt, JSON and the random numbers
-- are the interface Crypto.
pub mod Setup
pub mod Spent
pub mod Used
mod Examples
use asdl_hub.Prelude.{
  ℕ, zero, suc, ◌+◌, ◌-◌, ◌*◌, ◌/◌, ◌%◌, ◌≤◌, ◌<◌, min, max, String, ◌≡◌, refl, sym, ap, ◌∙◌, subst,
  fun_ext, ◌≢◌, ◌↔◌, ◌⊎◌, inl, inr, Bool, true, false, ◌&&◌, ◌||◌, not, Option, none, some, List,
  [], ◌∷◌, ◌++◌, map, append_assoc, append-nil, arith, ltb, leb, ◌==◌, if◌then◌else◌, ltb→lt,
  lt→ltb, leb→le, le→leb, ==_iff, tests, Bool-cases, Option-cases, is_some, length, take, drop,
  get_elem?, select, first, update, any, head, All, In, length-append, length-drop, length-take,
  All_of_In, first-In, first_passes, select-In, In-select, str_eq, str_eq_iff, stable_sort,
  IsSorted, insert_sorted, stable_sort-perm, In-of_stable_sort, In-stable_sort, length-stable_sort,
  stable_sort-IsSorted, In-of_update, In-update, DistinctKeys, row_unique, save_each,
  save_each-select, length-select-update, length-select-update_le,
}
use Prim.Native.Nat.{◌^◌}
use asdl_hub.Models.{Ident, Time, Text, second}
use asdl_hub.Deploy.Markers.{codes, is_digit}
use asdl_hub.Auth.LoginLimiter.{text_eq, trim_space}
use asdl_hub.Auth.Users.{User, Accounts, is_user, user_by_id}
use asdl_hub.Auth.Sessions.{SessionOptions}
use asdl_hub.Auth.Tokens.{Jwt, Claims, Parsed, valid, mfa, TokenKind, issue_session, unix}

abbrev totp_period : ℕ
totp_period = 30

abbrev pub totp_digits : ℕ
totp_digits = 6

abbrev recovery_count : ℕ
recovery_count = 10

pub record Crypto : Type 0 where
  pub mac : Text → List ℕ → List ℕ  -- HMAC-SHA-1 of a message
  pub open_secret : Text → Option Text
  pub seal_secret : Text → Option Text
  pub matches : Text → Text → Bool  -- bcrypt: a hash and a password
  pub generate : Text → Option Text
  pub marshal : List Text → Text
  pub unmarshal : Text → Option (List Text)
  pub to_lower : ℕ → ℕ
  pub unmarshal-marshal : (hs : List Text) → unmarshal (marshal hs) ≡ some hs

-- The `n` lowest bytes of a number, the highest first.
abbrev big_endian : ℕ → ℕ → List ℕ
big_endian zero x = []
big_endian (suc n) x = big_endian n (x / 256) ++ x % 256 ∷ []

-- The digits of a number below 10 ^ n, with zeros in front.
abbrev padded : ℕ → ℕ → Text
padded zero x = []
padded (suc n) x = padded n (x / 10) ++ (48 + x % 10) ∷ []

abbrev byte_at : List ℕ → ℕ → ℕ
byte_at bs i = elim (get_elem? bs i) [ none ↦ 0 | some b ↦ b ]

abbrev dynamic_truncation : List ℕ → ℕ
dynamic_truncation sum =
    let offset = byte_at sum (length sum - 1) % 16 in
    let word =
      byte_at sum offset * 256 ^ 3
      + byte_at sum (offset + 1) * 256 ^ 2
      + byte_at sum (offset + 2) * 256
      + byte_at sum (offset + 3) in
    word % 2 ^ 31 % 1000000

unfoldable pub hotp : Crypto → Text → ℕ → Text
hotp crypto key counter =
    padded totp_digits (dynamic_truncation (crypto.mac key (big_endian 8 (counter % 2 ^ 64))))

abbrev pub totp_step : Time → ℕ
totp_step t = unix t / totp_period

-- `n` steps from `step` on; the first one after the last used that has the code.
unfoldable pub try_steps : Crypto → Text → Text → ℕ → ℕ → ℕ → Option ℕ
try_steps crypto key code last zero step = none
try_steps crypto key code last (suc n) step =
    let later = try_steps crypto key code last n (suc step) in
    if leb step last
    then later
    else if text_eq code (hotp crypto key step)
    then some step
    else later

-- In the first half minute of 1970 the source also tries the step -1, which no last step allows.
unfoldable pub check_totp : Crypto → Text → Text → Time → ℕ → Option ℕ
check_totp crypto key typed now last =
    let code = trim_space typed in
    let cur = totp_step now in
    if not (length code == totp_digits)
    then none
    else try_steps crypto key code last (suc cur + 1 - (cur - 1)) (cur - 1)

-- nil, or an error; of what was accepted, the step or the hash that it used up.
pub data SecondFactor : Type 0 where
  bad_code : SecondFactor
  app_code : ℕ → SecondFactor
  recovery_code : Text → SecondFactor

abbrev pub all_digits : Text → Bool
all_digits [] = true
all_digits (c ∷ s) = is_digit c && all_digits s

-- UPDATE users … WHERE id = … AND …: the change counts when exactly one row fits.
unfoldable pub update_one :
    Ident → (User → Bool) → (User → User) → SecondFactor → List User → SecondFactor × List User
update_one id p f done us =
    let fits : User → Bool = λ u. is_user id u && p u in
    (if length (select fits us) == 1 then done else bad_code, update fits f us)

abbrev pub behind : ℕ → User → Bool
behind step u = ltb u.totp_last_step step

abbrev pub at_step : ℕ → User → User
at_step step u = record u { totp_last_step = step }

abbrev pub spend_step : Ident → Option ℕ → List User → SecondFactor × List User
spend_step id none us = (bad_code, us)
spend_step id (some step) us = update_one id (behind step) (at_step step) (app_code step) us

unfoldable pub check_app_code : Crypto → User → Text → Time → List User → SecondFactor × List User
check_app_code crypto user code now us = elim (crypto.open_secret user.totp_secret) [
  | none ↦ (bad_code, us)
  | some key ↦ spend_step user.id (check_totp crypto key code now user.totp_last_step) us
]

abbrev drop_dashes : Text → Text
drop_dashes [] = []
drop_dashes (c ∷ s) = let rest = drop_dashes s in if c == 45 || c == 32 then rest else c ∷ rest

unfoldable pub normalize_recovery : (ℕ → ℕ) → Text → Text
normalize_recovery lower code = map lower (drop_dashes code)

-- The hashes before the first that fits, that one, and those after it.
unfoldable pub split_at : (Text → Bool) → List Text → Option (List Text × Text × List Text)
split_at p [] = none
split_at p (h ∷ hs) =
    let later = split_at p hs in
    if p h
    then some ([], h, hs)
    else elim later [ none ↦ none | some (front, g, back) ↦ some (h ∷ front, g, back) ]

abbrev pub still : Text → User → Bool
still stored u = text_eq u.recovery_codes stored

abbrev pub keeping : Text → User → User
keeping stored u = record u { recovery_codes = stored }

abbrev pub spend_hash :
    Crypto → User → Option (List Text × Text × List Text) → List User → SecondFactor × List User
spend_hash crypto user none us = (bad_code, us)
spend_hash crypto user (some (front, h, back)) us =
    update_one user.id (still user.recovery_codes) (keeping (crypto.marshal (front ++ back)))
      (recovery_code h) us

abbrev pub among_hashes :
    Crypto → User → Text → Option (List Text) → List User → SecondFactor × List User
among_hashes crypto user norm none us = (bad_code, us)
among_hashes crypto user norm (some hashes) us =
    spend_hash crypto user (split_at (λ h. crypto.matches h norm) hashes) us

unfoldable pub check_recovery_code : Crypto → User → Text → List User → SecondFactor × List User
check_recovery_code crypto user code us =
    among_hashes crypto user (normalize_recovery crypto.to_lower code)
      (crypto.unmarshal user.recovery_codes) us

-- `user` is the row as it was read before; the table may have changed since.
unfoldable pub check_second_factor :
    Crypto → User → Text → Time → List User → SecondFactor × List User
check_second_factor crypto user typed now us =
    let code = trim_space typed in
    if length code == totp_digits && all_digits code
    then check_app_code crypto user code now us
    else check_recovery_code crypto user code us
