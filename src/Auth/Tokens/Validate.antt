-- ===== src/Auth/Tokens/Validate.antt =====
-- internal/services/auth_service.go: which tokens are taken.
use asdl_hub.Prelude.{
  ◌+◌, ◌*◌, ◌≤◌, ◌<◌, ◌≡◌, refl, ap, ◌∙◌, ◌≢◌, inl, inr, true, false, not, Option, none, some, List,
  [], ◌∷◌, ◌++◌, arith, ltb, leb, ◌==◌, Bool-cases, select, first,
}
use asdl_hub.Models.{Ident, Time, Text, second}
use asdl_hub.Auth.LoginLimiter.{text_eq, text_eq_iff}
use asdl_hub.Auth.Users.{User, Session, Accounts, user_by_id}
use asdl_hub.Auth.Sessions.{
  Client, SessionOptions, TokenError, signed_out, token_expired, life_of, new_session,
  store_session, check_session, check_found, device_name, has_sid, due_touch,
}
use asdl_hub.Auth.Sessions.Ended.{Ending, Run, ended_stays, ended-check_session}
use asdl_hub.Auth.Tokens.{
  Jwt, Claims, refused, granted, untyped, valid, validate_token, validate_parsed, validate_claims,
  validate_named, validate_user, user_of_token, issue_session, then_user, session_claims, unix,
}

-- A session that was signed out, signed out from another device or by a new password, ended with its
-- account or ended because another device used it stays ended: whatever sign-ins under other names,
-- requests, sign-outs and changes of the accounts follow, its token is refused as signed out.
pub ended_session_refused :
    (jwt : Jwt) (hash : Text → Text) (sid user : Ident) (a b c : Accounts)
    → Ending sid user a b
    → Run sid b c
    → sid ≢ 0
    → (now : Time) (token : Text) (client : Client) (claims : Claims)
    → jwt.parse now token ≡ valid claims
    → claims.kind ≡ untyped
    → claims.user_id ≡ some user
    → claims.sid ≡ sid
    → validate_token jwt hash now token client c ≡ (refused signed_out, c)
unfolding validate_token validate_parsed validate_claims validate_named validate_user
ended_session_refused jwt hash sid user a b c e r named now token client claims p k u s =
    let other : (sid == 0) ≡ false = ground (arith, named) in
    rw (p, k, u, s, other)
      (ap (then_user user)
        (ended-check_session sid user now client c (ended_stays sid user a b c e r)))

first-stored :
    (sid : Ident) (now : Time) (s : Session) (xs : List Session)
    → first (has_sid sid) xs ≡ none
    → s.id ≡ sid
    → now ≤ s.expires_at
    → first (has_sid sid) (select (λ r. not (ltb r.expires_at now)) (xs ++ s ∷ [])) ≡ some s
first-stored sid now s [] h e k = ground arith
first-stored sid now s (x ∷ xs) h e k =
    let other : (x.id == sid) ≡ false = ground arith in
    elim (Bool-cases (ltb x.expires_at now)) [
      | inl gone ↦ rw gone (first-stored sid now s xs (ground (arith, h, other)) e k)
      | inr stays ↦ rw (stays, other) (first-stored sid now s xs (ground (arith, h, other)) e k)
    ]

-- The session as it was stored is taken from the device that it was given to, while it lasts.
same_device-check_found :
    (now t : Time) (sid : Ident) (hash : Text) (user : User) (opts : SessionOptions)
    (client : Client) (a : Accounts)
    → t ≤ now + life_of opts.remember
    → device_name client.user_agent ≡ device_name opts.client.user_agent
    → let r = check_found t sid user.id client a (some (new_session sid hash user opts now)) in
      (r.0 ≡ none) × (r.1.users ≡ a.users)
unfolding check_found
same_device-check_found now t sid hash user opts client a k d =
    let own : (user.id == user.id) ≡ true = ground arith in
    let lasts : ltb (now + life_of opts.remember) t ≡ false = ground arith in
    let same : text_eq (device_name client.user_agent) (device_name opts.client.user_agent) ≡ true =
      (text_eq_iff _ _).1 d in
    rw (own, lasts, same)
      (elim (Bool-cases (due_touch t client (new_session sid hash user opts now))) [
        | inl due ↦ rw due (refl, refl)
        | inr recent ↦ rw recent (refl, refl)
      ])

user_found :
    (user : User) (a : Accounts)
    → user_by_id user.id a.users ≡ some user
    → user_of_token user.id a ≡ (granted user, a)
user_found user a f = rw (user_of_token, f) refl

issued :
    (jwt : Jwt) (hash : Text → Text) (sid : Ident) (user : User) (opts : SessionOptions)
    (now : Time) (a : Accounts) (token : Text)
    → jwt.sign (session_claims sid user opts now) ≡ some token
    → issue_session jwt hash sid true user opts now a
      ≡ (some token, store_session (new_session sid (hash token) user opts now) now a)
unfolding issue_session
issued jwt hash sid user opts now a token signed = rw (issue_session, signed) refl

user-lookup :
    (user : User) (r : Option TokenError × Accounts) (us : List User)
    → r.0 ≡ none
    → r.1.users ≡ us
    → user_by_id user.id us ≡ some user
    → (then_user user.id r).0 ≡ granted user
user-lookup user (some e, a) us n k f = absurd (ground (arith, n))
user-lookup user (none, a) us n k f =
    ap (λ r. r.0) (user_found user a (ap (user_by_id user.id) k ∙ f))

-- A sign-in under a new name hands out a token that is taken, for the user who signed in, from a client
-- on the same browser and system at every moment until the second at which it runs out, and is refused
-- as expired from then on, whatever the tables hold.
pub issued_session_lasts :
    (jwt : Jwt) (hash : Text → Text) (sid : Ident) (user : User) (opts : SessionOptions)
    (now : Time) (a : Accounts) (token : Text)
    → sid ≢ 0
    → first (has_sid sid) a.sessions ≡ none
    → user_by_id user.id a.users ≡ some user
    → jwt.sign (session_claims sid user opts now) ≡ some token
    → let issued = issue_session jwt hash sid true user opts now a in
      let over = unix (now + life_of opts.remember) * second in
      (issued.0 ≡ some token)
      × ((t : Time) (client : Client)
          → t < over
          → device_name client.user_agent ≡ device_name opts.client.user_agent
          → (validate_token jwt hash t token client issued.1).0 ≡ granted user)
      × ((t : Time) (client : Client) (b : Accounts)
          → over ≤ t
          → validate_token jwt hash t token client b ≡ (refused token_expired, b))
unfolding validate_token validate_parsed validate_claims validate_named validate_user store_session
    check_session
issued_session_lasts jwt hash sid user opts now a token named new known signed =
    let made = issued jwt hash sid user opts now a token signed in
    (
      ap (λ r. r.0) made,
      (λ t client before same.
          let lasts : leb (unix (now + life_of opts.remember) * second) t ≡ false = ground arith in
          let other : (sid == 0) ≡ false = ground (arith, named) in
          let stored =
            first-stored sid now (new_session sid (hash token) user opts now) a.sessions new refl
              (omega arith) in
          let checked =
            same_device-check_found now t sid (hash token) user opts client _ (omega arith) same in
          rw
            (
              made,
              jwt.parse-sign t (session_claims sid user opts now) token signed,
              lasts,
              other,
              stored,
            )
            (user-lookup user _ _ checked.0 checked.1 known)),
      λ t client b after.
          let over : leb (unix (now + life_of opts.remember) * second) t ≡ true = ground arith in
          rw (jwt.parse-sign t (session_claims sid user opts now) token signed, over) refl,
    )
