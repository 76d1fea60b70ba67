-- ===== src/Auth/Tokens/Refused.antt =====
-- internal/services/auth_service.go: what a refused token leaves behind, and what a permanent token's
-- scope allows.
use asdl_hub.Prelude.{
  ◌≤◌, ◌≡◌, refl, sym, ap, ◌∙◌, subst, ◌≢◌, ◌⊎◌, inl, inr, true, false, not, none, some, arith,
  ◌==◌, Option-cases, is_some, select, first, update, In, first_passes,
}
use asdl_hub.Models.{Time, Text}
use asdl_hub.Auth.Users.{
  User, Role, Session, PermanentToken, Accounts, user_by_id, cap_role, cap_role-rank,
  cap_role-owner, role_rank, scope_role,
}
use asdl_hub.Auth.Sessions.{
  Client, TokenError, other_device, token_revoked, unknown_user, device_name,
}
use asdl_hub.Auth.LoginLimiter.{text_eq}
use asdl_hub.Auth.Tokens.{
  Jwt, Claims, Validated, refused, granted, valid, permanent, validate_token, validate_parsed,
  validate_claims, validate_permanent, stored_as, by_kind,
}

-- The error of a refusal.
abbrev error_in : TokenError → Validated → TokenError
error_in other (refused e) = e
error_in other (granted u) = other

-- What a refusal has done to the accounts: nothing; or the session was used from another device and is ended;
-- or the user is gone, and the session's last use was recorded.
abbrev pub RefusalEffect : Time → Client → Accounts → TokenError → Accounts → Type 0
RefusalEffect now client a e b =
    ((b ≡ a) × (e ≢ other_device))
    ⊎ ((e ≡ other_device)
        × (s : Session) × In s a.sessions
        × (text_eq (device_name client.user_agent) s.device ≡ false)
        × (b ≡ record a { sessions = select (λ x. not (x.id == s.id)) a.sessions }))
    ⊎ ((e ≡ unknown_user)
        × (s : Session) × In s a.sessions
        × (b ≡ record a {
          sessions =
              update (λ x. x.id == s.id) (λ x. record x { last_used_at = now; last_ip = client.ip })
                a.sessions;
        }))

module _ (now : Time) (client : Client) where
  abbrev Answers : Accounts → Validated × Accounts → Type 0
  Answers a r = (e : TokenError) → r.0 ≡ refused e → RefusalEffect now client a e r.1

abbrev user_in : User → Validated → User
user_in other (refused e) = other
user_in other (granted w) = w

-- What is granted to a permanent token, by its row and its owner.
granted_permanent :
    (h : Text) (a : Accounts) (u : User)
    → (validate_permanent h a).0 ≡ granted u
    → (t : PermanentToken) × (owner : User) × (first (stored_as h) a.permanent_tokens ≡ some t)
      × (user_by_id t.created_by a.users ≡ some owner)
      × (u ≡ record owner { role = cap_role owner.role t.scope })
unfolding validate_permanent
granted_permanent h a u g = elim (Option-cases (first (stored_as h) a.permanent_tokens)) [
  | inl revoked ↦ absurd (
      let e : (validate_permanent h a).0 ≡ refused token_revoked =
        rw (validate_permanent, revoked) refl in
      ground (arith, g, e))
  | inr (t, found) ↦ elim (Option-cases (user_by_id t.created_by a.users)) [
    | inl gone ↦ absurd (
        let e : (validate_permanent h a).0 ≡ refused unknown_user =
          rw (validate_permanent, found, gone) refl in
        ground (arith, g, e))
    | inr (w, known) ↦
        let e : (validate_permanent h a).0 ≡ granted (record w { role = cap_role w.role t.scope }) =
          rw (validate_permanent, found, known) refl in
        (t, w, found, known, ap (user_in w) (sym g ∙ e))
  ]
]

stored-live : (h : Text) (t : PermanentToken) → stored_as h t ≡ true → t.deleted_at ≡ none
stored-live h t e = elim (Option-cases t.deleted_at) [
  | inl live ↦ live
  | inr (x, gone) ↦ absurd (ground (arith, e, ap is_some gone))
]

-- A permanent token that is taken has a row that was not revoked, and acts for the row's owner in a role
-- that ranks at most as high as the owner's and as the role that its scope names.
pub permanent_token_capped :
    (jwt : Jwt) (hash : Text → Text) (now : Time) (token : Text) (client : Client) (a : Accounts)
    (c : Claims) (u : User)
    → jwt.parse now token ≡ valid c
    → c.kind ≡ permanent
    → (validate_token jwt hash now token client a).0 ≡ granted u
    → (t : PermanentToken) × (owner : User) × (first (stored_as (hash token)) a.permanent_tokens
        ≡ some t)
      × (t.deleted_at ≡ none)
      × (user_by_id t.created_by a.users ≡ some owner)
      × (u ≡ record owner { role = u.role })
      × (role_rank u.role ≤ role_rank owner.role)
      × ((limit : Role) → scope_role t.scope ≡ some limit → role_rank u.role ≤ role_rank limit)
unfolding validate_token validate_parsed validate_claims validate_permanent
permanent_token_capped jwt hash now token client a c u p k g =
    let taken =
      subst (λ q. (by_kind now (hash token) client c q a).0 ≡ granted u) k
        (subst (λ q. (validate_parsed now (hash token) client q a).0 ≡ granted u) p g) in
    let (t, owner, found, known, whole) = granted_permanent (hash token) a u taken in
    let role : u.role ≡ cap_role owner.role t.scope = ap (λ (x : User). x.role) whole in
    (
      t,
      owner,
      found,
      stored-live (hash token) t (first_passes (stored_as (hash token)) a.permanent_tokens t found),
      known,
      whole ∙ ap (λ r. record owner { role = r }) (sym role),
      subst (λ r. role_rank r ≤ role_rank owner.role) (sym role)
          (cap_role-owner owner.role t.scope),
      λ limit l.
          subst (λ r. role_rank r ≤ role_rank limit) (sym role)
            (cap_role-rank owner.role t.scope limit l).0,
    )
