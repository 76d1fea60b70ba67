-- ===== src/Auth/Sessions/Ended.antt =====
-- internal/services/session_service.go, settings_service.go: the ways in which a session ends, and what
-- the accounts go through afterwards.
use asdl_hub.Prelude.{
  All-select_not, ◌≡◌, refl, sym, ◌∙◌, subst, ◌≢◌, inl, inr, Bool, true, false, ◌||◌, not, Option,
  none, some, List, [], ◌∷◌, ◌++◌, arith, ltb, ◌==◌, if◌then◌else◌, Bool-cases, select, first,
  update, any, All, All_of_In, first-In, first_passes,
}
use asdl_hub.Models.{Ident, Time, Text}
use asdl_hub.Auth.Users.{
  Session, Accounts, not_owned_by, change_password, delete_user, change_role, known_role, Role,
}
use asdl_hub.Auth.Sessions.{
  Client, signed_out, other_device, has_sid, owned, store_session, check_session, revoke_session,
  revoke_other_sessions, due_touch, touched, check_found, device_name,
}
use asdl_hub.Auth.LoginLimiter.{text_eq}

-- The user has no session of this name.
abbrev pub HasEnded : Ident → Ident → Accounts → Type 0
HasEnded sid user a = All (λ s. owned sid user s ≡ false) a.sessions

-- Signing out, signing the other devices out, a new password, the end of the account, and a use of the
-- session from another device.
pub data Ending (sid user : Ident) (a b : Accounts) : Type 0 where
  revoked : b ≡ (revoke_session user sid a).1 → Ending sid user a b
  others_revoked :
      (keep : Ident) → keep ≢ sid → b ≡ (revoke_other_sessions user keep a).1 → Ending sid user a b
  password_changed :
      (hash : Text) (keep : Ident) (now : Time)
      → keep ≢ sid
      → b ≡ (change_password (some hash) user keep now a).1
      → Ending sid user a b
  user_deleted :
      (requester : Ident)
      → (delete_user user requester a).0 ≡ none
      → b ≡ (delete_user user requester a).1
      → Ending sid user a b
  used_elsewhere :
      (now : Time) (client : Client)
      → (check_session now sid user client a).0 ≡ some other_device
      → b ≡ (check_session now sid user client a).1
      → Ending sid user a b

-- What happens to the accounts later; a new session has another name.
pub data Step (sid : Ident) (a b : Accounts) : Type 0 where
  stored : (s : Session) (now : Time) → s.id ≢ sid → b ≡ store_session s now a → Step sid a b
  checked :
      (now : Time) (other user : Ident) (client : Client)
      → b ≡ (check_session now other user client a).1
      → Step sid a b
  signed_out_one : (user other : Ident) → b ≡ (revoke_session user other a).1 → Step sid a b
  signed_out_others : (user keep : Ident) → b ≡ (revoke_other_sessions user keep a).1 → Step sid a b
  new_password :
      (hash : Option Text) (user keep : Ident) (now : Time)
      → b ≡ (change_password hash user keep now a).1
      → Step sid a b
  new_role :
      (user : Ident) (role : Role) (now : Time) → b ≡ (change_role user role now a).1 → Step sid a b
  user_removed : (user requester : Ident) → b ≡ (delete_user user requester a).1 → Step sid a b

pub data Run (sid : Ident) (a : Accounts) : Accounts → Type 0 where
  here : Run sid a a
  next : {b c : Accounts} → Run sid a b → Step sid b c → Run sid a c

keeps-select :
    {A : Type 0} (q p : A → Bool) (xs : List A)
    → All (λ s. q s ≡ false) xs
    → All (λ s. q s ≡ false) (select p xs)
keeps-select q p [] h = h
keeps-select q p (x ∷ xs) h =
    elim (p x) as (λ b. All (λ s. q s ≡ false) (if b then x ∷ select p xs else select p xs)) [
      | true ↦ (h.0, keeps-select q p xs h.1)
      | false ↦ keeps-select q p xs h.1
    ]

keeps-append :
    {A : Type 0} (q : A → Bool) (x : A) (xs : List A)
    → All (λ s. q s ≡ false) xs
    → q x ≡ false
    → All (λ s. q s ≡ false) (xs ++ x ∷ [])
keeps-append q x [] h e = (e, tt)
keeps-append q x (y ∷ ys) h e = (h.0, keeps-append q x ys h.1 e)

keeps-update :
    {A : Type 0} (q p : A → Bool) (f : A → A) (xs : List A)
    → ((x : A) → q (f x) ≡ q x)
    → All (λ s. q s ≡ false) xs
    → All (λ s. q s ≡ false) (update p f xs)
keeps-update q p f [] e h = h
keeps-update q p f (x ∷ xs) e h = (
  elim (p x) as (λ b. q (if b then f x else x) ≡ false) [ true ↦ e x ∙ h.0 | false ↦ h.0 ],
  keeps-update q p f xs e h.1,
)

check_found-HasEnded :
    (sid user other u : Ident) (now : Time) (client : Client) (a : Accounts) (o : Option Session)
    → HasEnded sid user a
    → HasEnded sid user (check_found now other u client a o).1
unfolding check_found
check_found-HasEnded sid user other u now client a none h = h
check_found-HasEnded sid user other u now client a (some s) h =
    elim (Bool-cases (not (s.user_id == u) || ltb s.expires_at now)) [
      | inl gone ↦ rw gone h
      | inr current ↦
          rw current (elim (Bool-cases (not (text_eq (device_name client.user_agent) s.device))) [
            | inl elsewhere ↦ rw elsewhere (keeps-select (owned sid user) _ a.sessions h)
            | inr same ↦ rw same (elim (Bool-cases (due_touch now client s)) [
              | inl due ↦ rw due (
                  keeps-update (owned sid user) (has_sid other) (touched now client) a.sessions
                    (λ x. refl) h)
              | inr recent ↦ rw recent h
            ])
          ])
    ]

check_session-HasEnded :
    (sid user other u : Ident) (now : Time) (client : Client) (a : Accounts)
    → HasEnded sid user a
    → HasEnded sid user (check_session now other u client a).1
unfolding check_session
check_session-HasEnded sid user other u now client a h =
    check_found-HasEnded sid user other u now client a _ h

-- Whatever happens later, the session stays ended.
Step-HasEnded :
    (sid user : Ident) (a b : Accounts) → Step sid a b → HasEnded sid user a → HasEnded sid user b
unfolding store_session revoke_session revoke_other_sessions change_password change_role delete_user
Step-HasEnded sid user a b (stored s now fresh e) h = subst (HasEnded sid user) (sym e) (
    keeps-select (owned sid user) _ _
      (keeps-append (owned sid user) s a.sessions h (ground (arith, fresh))))
Step-HasEnded sid user a b (checked now other u client e) h =
    subst (HasEnded sid user) (sym e) (check_session-HasEnded sid user other u now client a h)
Step-HasEnded sid user a b (signed_out_one u other e) h =
    subst (HasEnded sid user) (sym e) (elim (Bool-cases (any (owned other u) a.sessions)) [
      | inl found ↦ rw found (keeps-select (owned sid user) _ a.sessions h)
      | inr missing ↦ rw missing h
    ])
Step-HasEnded sid user a b (signed_out_others u keep e) h =
    subst (HasEnded sid user) (sym e) (keeps-select (owned sid user) _ a.sessions h)
Step-HasEnded sid user a b (new_password none u keep now e) h = subst (HasEnded sid user) (sym e) h
Step-HasEnded sid user a b (new_password (some hash) u keep now e) h =
    subst (HasEnded sid user) (sym e) (keeps-select (owned sid user) _ a.sessions h)
Step-HasEnded sid user a b (new_role u role now e) h =
    subst (HasEnded sid user) (sym e)
      (elim (Bool-cases (not (known_role role))) [ inl bad ↦ rw bad h | inr known ↦ rw known h ])
Step-HasEnded sid user a b (user_removed u requester e) h =
    subst (HasEnded sid user) (sym e) (elim (Bool-cases (u == requester)) [
      | inl own ↦ rw own h
      | inr foreign ↦ rw foreign (keeps-select (owned sid user) (not_owned_by u) a.sessions h)
    ])

Run-HasEnded :
    (sid user : Ident) (a b : Accounts) → Run sid a b → HasEnded sid user a → HasEnded sid user b
Run-HasEnded sid user _ _ here h = h
Run-HasEnded sid user a c (next {b = b} r s) h =
    Step-HasEnded sid user b c s (Run-HasEnded sid user a b r h)

absent-first :
    (sid user : Ident) (xs : List Session)
    → All (λ s. owned sid user s ≡ false) xs
    → (s : Session) → first (has_sid sid) xs ≡ some s
    → (s.user_id == user) ≡ false
absent-first sid user xs h s e =
    let found = All_of_In (λ s. owned sid user s ≡ false) s xs (first-In (has_sid sid) xs s e) h in
    let named = first_passes (has_sid sid) xs s e in ground (arith, found, named)

pub ended-check_session :
    (sid user : Ident) (now : Time) (client : Client) (a : Accounts)
    → HasEnded sid user a
    → check_session now sid user client a ≡ (some signed_out, a)
unfolding check_session check_found
ended-check_session sid user now client a h =
    go (first (has_sid sid) a.sessions) (absent-first sid user a.sessions h)
  where
    go :
        (o : Option Session)
        → ((s : Session) → o ≡ some s → (s.user_id == user) ≡ false)
        → check_found now sid user client a o ≡ (some signed_out, a)
    go none f = refl
    go (some s) f = rw (f s refl) refl

-- A use from another device ends the session of whoever owns it.
used_elsewhere-HasEnded :
    (sid user : Ident) (now : Time) (client : Client) (a : Accounts) (o : Option Session)
    → (check_found now sid user client a o).0 ≡ some other_device
    → HasEnded sid user (check_found now sid user client a o).1
unfolding check_found
used_elsewhere-HasEnded sid user now client a none e = absurd (ground (arith, e))
used_elsewhere-HasEnded sid user now client a (some s) e =
    elim (Bool-cases (not (s.user_id == user) || ltb s.expires_at now)) [
      | inl gone ↦ absurd (ground (arith, e, gone))
      | inr current ↦ elim (Bool-cases (not (text_eq (device_name client.user_agent) s.device))) [
        | inl elsewhere ↦
            rw (current, elsewhere)
              (All-select_not (owned sid user) _ a.sessions (λ x m. ground (arith, m)))
        | inr same ↦ absurd (elim (Bool-cases (due_touch now client s)) [
          | inl due ↦ ground (arith, e, current, same, due)
          | inr recent ↦ ground (arith, e, current, same, recent)
        ])
      ]
    ]

drops-any : {A : Type 0} (q : A → Bool) (xs : List A) → any q xs ≡ false → All (λ s. q s ≡ false) xs
drops-any q [] e = tt
drops-any q (x ∷ xs) e = (ground (arith, e), drops-any q xs (ground (arith, e)))

Ending-HasEnded : (sid user : Ident) (a b : Accounts) → Ending sid user a b → HasEnded sid user b
unfolding revoke_session revoke_other_sessions change_password delete_user check_session
Ending-HasEnded sid user a b (revoked e) =
    subst (HasEnded sid user) (sym e) (elim (Bool-cases (any (owned sid user) a.sessions)) [
      | inl found ↦
          rw found (All-select_not (owned sid user) _ a.sessions (λ x m. ground (arith, m)))
      | inr missing ↦ rw missing (drops-any (owned sid user) a.sessions missing)
    ])
Ending-HasEnded sid user a b (others_revoked keep other e) =
    subst (HasEnded sid user) (sym e)
      (All-select_not (owned sid user) _ a.sessions (λ x m. ground (arith, m, other)))
Ending-HasEnded sid user a b (password_changed hash keep now other e) =
    subst (HasEnded sid user) (sym e)
      (All-select_not (owned sid user) _ a.sessions (λ x m. ground (arith, m, other)))
Ending-HasEnded sid user a b (user_deleted requester ok e) = elim (Bool-cases (user == requester)) [
  | inl own ↦ absurd (ground (arith, ok, own))
  | inr foreign ↦
      subst (HasEnded sid user) (sym e)
        (rw foreign (All-select_not (owned sid user) _ a.sessions (λ x m. ground (arith, m))))
]
Ending-HasEnded sid user a b (used_elsewhere now client ok e) =
    subst (HasEnded sid user) (sym e) (used_elsewhere-HasEnded sid user now client a _ ok)

pub ended_stays :
    (sid user : Ident) (a b c : Accounts) → Ending sid user a b → Run sid b c → HasEnded sid user c
ended_stays sid user a b c e r = Run-HasEnded sid user b c r (Ending-HasEnded sid user a b e)
