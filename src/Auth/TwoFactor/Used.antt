-- ===== src/Auth/TwoFactor/Used.antt =====
-- internal/services/twofactor_service.go: runs of attempts to use a second factor.
use asdl_hub.Prelude.{
  ℕ, ◌<◌, ◌≡◌, sym, ap, ◌∙◌, subst, none, some, List, [], ◌∷◌, ◌++◌, All, DistinctKeys,
}
use mathlib.Core.List.Perm
use mathlib.Core.List.{Perm, perm_middle}
use asdl_hub.Models.{Ident, Time, Text}
use asdl_hub.Auth.Users.{User, user_by_id}
use asdl_hub.Auth.TwoFactor.{
  Crypto, SecondFactor, bad_code, app_code, recovery_code, check_second_factor,
}
use asdl_hub.Auth.TwoFactor.Spent.{Checked, check_second_factor-Checked}

-- A code that is tried against the row as it was read at some moment.
pub record Attempt : Type 0 where
  pub snapshot : User
  pub typed : Text
  pub now : Time

-- One attempt after another: what each was found to be, and the rows that are left.
unfoldable pub try_all : Crypto → List Attempt → List User → List SecondFactor × List User
try_all crypto [] us = ([], us)
try_all crypto (t ∷ ts) us =
    let (f, vs) = check_second_factor crypto t.snapshot t.typed t.now us in
    let (fs, ws) = try_all crypto ts vs in (f ∷ fs, ws)

abbrev pub steps_used : List SecondFactor → List ℕ
steps_used [] = []
steps_used (app_code s ∷ fs) = s ∷ steps_used fs
steps_used (bad_code ∷ fs) = steps_used fs
steps_used (recovery_code h ∷ fs) = steps_used fs

abbrev pub hashes_used : List SecondFactor → List Text
hashes_used [] = []
hashes_used (recovery_code h ∷ fs) = h ∷ hashes_used fs
hashes_used (bad_code ∷ fs) = hashes_used fs
hashes_used (app_code s ∷ fs) = hashes_used fs

abbrev pub Increasing : ℕ → List ℕ → Type 0
Increasing m [] = Unit
Increasing m (x ∷ xs) = (m < x) × Increasing x xs

-- However often codes are tried for a user, and whatever older state of the row each attempt goes by, the
-- time steps of the app codes that are accepted rise strictly, from above the last step of the row: a
-- step that was used is never accepted again.
pub app_codes_used_once :
    (crypto : Crypto) (id : Ident) (ts : List Attempt) (us : List User) (r : User)
    → DistinctKeys (λ (u : User). u.id) us
    → user_by_id id us ≡ some r
    → All (λ t. t.snapshot.id ≡ id) ts
    → Increasing r.totp_last_step (steps_used (try_all crypto ts us).0)
unfolding try_all
app_codes_used_once crypto id [] us r d e own = tt
app_codes_used_once crypto id (t ∷ ts) us r d e own =
    let same = ap (λ k. user_by_id k us) own.0 in
    after (check_second_factor crypto t.snapshot t.typed t.now us)
      (subst (λ k. Checked crypto k us r (check_second_factor crypto t.snapshot t.typed t.now us))
        own.0 (check_second_factor-Checked crypto t.snapshot t.typed t.now us r d (same ∙ e)))
      (λ vs s keys row. app_codes_used_once crypto id ts vs s keys row own.1)
  where
    after :
        (c : SecondFactor × List User)
        → Checked crypto id us r c
        → ((vs : List User) (s : User)
            → DistinctKeys (λ (u : User). u.id) vs
            → user_by_id id vs ≡ some s
            → Increasing s.totp_last_step (steps_used (try_all crypto ts vs).0))
        → Increasing r.totp_last_step (steps_used (c.0 ∷ (try_all crypto ts c.1).0))
    after (bad_code, vs) (keys, s, row, kept) ih =
        subst (λ (u : User). Increasing u.totp_last_step (steps_used (try_all crypto ts vs).0)) kept
          (ih vs s keys row)
    after (app_code step, vs) (keys, s, row, (later, kept)) ih = (
      later,
      subst (λ (u : User). Increasing u.totp_last_step (steps_used (try_all crypto ts vs).0)) kept
          (ih vs s keys row),
    )
    after (recovery_code h, vs) (keys, s, row, (front, back, stored, before, made, kept)) ih =
        subst (λ (u : User). Increasing u.totp_last_step (steps_used (try_all crypto ts vs).0)) kept
          (ih vs s keys row)

-- What a run of attempts leaves of the hashes that a row had.
abbrev pub Left : Crypto → Ident → List Text → List SecondFactor × List User → Type 0
Left crypto id hs (fs, us) =
    (s : User) × (rest : List Text) × (user_by_id id us ≡ some s)
    × (crypto.unmarshal s.recovery_codes ≡ some rest)
    × Perm (hashes_used fs ++ rest) hs

some_injective : {A : Type 0} {x y : A} → some x ≡ some y → x ≡ y
some_injective {x = x} e = ap (λ o. elim o [ none ↦ x | some z ↦ z ]) e

-- However often codes are tried for a user, and whatever older state of the row each attempt goes by, the
-- hashes of the recovery codes that are accepted, together with those that the row keeps, are the
-- hashes that it had: each code is accepted at most as often as it was handed out.
pub recovery_codes_used_once :
    (crypto : Crypto) (id : Ident) (ts : List Attempt) (us : List User) (r : User) (hs : List Text)
    → DistinctKeys (λ (u : User). u.id) us
    → user_by_id id us ≡ some r
    → All (λ t. t.snapshot.id ≡ id) ts
    → crypto.unmarshal r.recovery_codes ≡ some hs
    → Left crypto id hs (try_all crypto ts us)
unfolding try_all
recovery_codes_used_once crypto id [] us r hs d e own u = (r, hs, e, u, Perm.refl hs)
recovery_codes_used_once crypto id (t ∷ ts) us r hs d e own u =
    let same = ap (λ k. user_by_id k us) own.0 in
    after (check_second_factor crypto t.snapshot t.typed t.now us)
      (subst (λ k. Checked crypto k us r (check_second_factor crypto t.snapshot t.typed t.now us))
        own.0 (check_second_factor-Checked crypto t.snapshot t.typed t.now us r d (same ∙ e)))
      (λ vs s gs keys row v. recovery_codes_used_once crypto id ts vs s gs keys row own.1 v)
  where
    after :
        (c : SecondFactor × List User)
        → Checked crypto id us r c
        → ((vs : List User) (s : User) (gs : List Text)
            → DistinctKeys (λ (u : User). u.id) vs
            → user_by_id id vs ≡ some s
            → crypto.unmarshal s.recovery_codes ≡ some gs
            → Left crypto id gs (try_all crypto ts vs))
        → Left crypto id hs (c.0 ∷ (try_all crypto ts c.1).0, (try_all crypto ts c.1).1)
    after (bad_code, vs) (keys, s, row, kept) ih =
        ih vs s hs keys row (ap (λ (w : User). crypto.unmarshal w.recovery_codes) kept ∙ u)
    after (app_code step, vs) (keys, s, row, (later, kept)) ih =
        ih vs s hs keys row (ap (λ (w : User). crypto.unmarshal w.recovery_codes) kept ∙ u)
    after (recovery_code h, vs) (keys, s, row, (front, back, stored, before, made, kept)) ih =
        let now_stored =
          ap (λ (w : User). crypto.unmarshal w.recovery_codes) kept
          ∙ ap crypto.unmarshal made
          ∙ crypto.unmarshal-marshal (front ++ back) in
        let (w, rest, found, left, perm) = ih vs s (front ++ back) keys row now_stored in
        let all : front ++ h ∷ back ≡ hs = some_injective (sym before ∙ u) in
        (
          w,
          rest,
          found,
          left,
          subst (λ gs. Perm (h ∷ hashes_used (try_all crypto ts vs).0 ++ rest) gs) all
              (Perm.trans (Perm.cons h perm) (Perm.symm (perm_middle front back))),
        )
