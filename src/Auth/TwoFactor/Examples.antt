-- ===== src/Auth/TwoFactor/Examples.antt =====
-- Codes that are tried twice, with a cipher and hash functions that leave their input readable.
use asdl_hub.Prelude.{ℕ, zero, suc, ◌*◌, ◌≡◌, refl, ap, true, Option, none, some, List, [], ◌∷◌}
use asdl_hub.Models.{Time, Text, second}
use asdl_hub.Deploy.Markers.{codes}
use asdl_hub.Auth.LoginLimiter.{text_eq, trim_space}
use asdl_hub.Auth.Users.{User, Role}
use asdl_hub.Auth.TwoFactor.{
  Crypto, bad_code, app_code, recovery_code, check_second_factor, check_app_code, check_totp,
  try_steps, hotp, update_one, check_recovery_code, normalize_recovery, split_at,
}
use asdl_hub.Auth.TwoFactor.Used.{
  Attempt, try_all, steps_used, Increasing, Left, app_codes_used_once, recovery_codes_used_once,
}

abbrev join : Text → Text → Text
join [] rest = zero ∷ rest
join (c ∷ h) rest = suc c ∷ join h rest

abbrev marshal : List Text → Text
marshal [] = []
marshal (h ∷ hs) = join h (marshal hs)

abbrev push : ℕ → Option (List Text) → Option (List Text)
push c none = none
push c (some []) = none
push c (some (h ∷ hs)) = some ((c ∷ h) ∷ hs)

abbrev open_list : Option (List Text) → Option (List Text)
open_list none = none
open_list (some hs) = some ([] ∷ hs)

abbrev unmarshal : Text → Option (List Text)
unmarshal [] = some []
unmarshal (zero ∷ s) = open_list (unmarshal s)
unmarshal (suc c ∷ s) = push c (unmarshal s)

unmarshal-join :
    (h rest : Text) (hs : List Text)
    → unmarshal rest ≡ some hs
    → unmarshal (join h rest) ≡ some (h ∷ hs)
unmarshal-join [] rest hs e = ap open_list e
unmarshal-join (c ∷ h) rest hs e = ap (push c) (unmarshal-join h rest hs e)

unmarshal-marshal : (hs : List Text) → unmarshal (marshal hs) ≡ some hs
unmarshal-marshal [] = refl
unmarshal-marshal (h ∷ hs) = unmarshal-join h (marshal hs) hs (unmarshal-marshal hs)

abbrev crypto : Crypto
crypto = record {
  mac = λ key message. 1 ∷ 2 ∷ 3 ∷ message;
  open_secret = λ sealed. some sealed;
  seal_secret = λ key. some key;
  matches = text_eq;
  generate = λ plain. some plain;
  marshal = marshal;
  unmarshal = unmarshal;
  to_lower = λ c. c;
  unmarshal-marshal = unmarshal-marshal;
}

abbrev two_codes : List Text
two_codes = codes "abcdefghij" ∷ codes "klmnopqrst" ∷ []

abbrev bob : User
bob = record {
  id = 2;
  username = codes "bob";
  email = codes "b@x.org";
  password = codes "h";
  role = Role.viewer;
  totp_enabled = true;
  totp_secret = codes "k";
  totp_last_step = 40;
  recovery_codes = marshal two_codes;
  created_at = 0;
  updated_at = 0;
  deleted_at = none;
}

abbrev at_50 : Time
at_50 = 1500 * second

abbrev tries : Text → Attempt
tries code = record { snapshot = bob; typed = code; now = at_50 }

-- Each code twice, the second time by what was read before the first.
abbrev attempts : List Attempt
attempts =
    tries (codes " 331648")
    ∷ tries (codes "331648")
    ∷ tries (codes "abcde-fghij")
    ∷ tries (codes "abcde-fghij")
    ∷ []

attempts_found :
    (try_all crypto attempts (bob ∷ [])).0
    ≡ app_code 50 ∷ bad_code ∷ recovery_code (codes "abcdefghij") ∷ bad_code ∷ []
unfolding try_all check_second_factor check_app_code check_totp try_steps hotp update_one
    check_recovery_code normalize_recovery split_at trim_space
attempts_found = refl

app_codes_used_once_example : Increasing 40 (steps_used (try_all crypto attempts (bob ∷ [])).0)
app_codes_used_once_example =
    app_codes_used_once crypto 2 attempts (bob ∷ []) bob (tt, tt) refl
      (refl, (refl, (refl, (refl, tt))))

recovery_codes_used_once_example : Left crypto 2 two_codes (try_all crypto attempts (bob ∷ []))
recovery_codes_used_once_example =
    recovery_codes_used_once crypto 2 attempts (bob ∷ []) bob two_codes (tt, tt) refl
      (refl, (refl, (refl, (refl, tt)))) refl
