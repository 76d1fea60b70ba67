-- ===== src/Auth/TwoFactor/Spent.antt =====
-- internal/services/twofactor_service.go: codes that were used up.
use asdl_hub.Prelude.{
  ℕ, ◌<◌, ◌≡◌, refl, ap, ◌∙◌, subst, inl, inr, Bool, true, false, ◌&&◌, Option, none, some, List,
  [], ◌∷◌, ◌++◌, arith, ◌==◌, if◌then◌else◌, ltb→lt, Bool-cases, Option-cases, length, select,
  update, In, first-In, first_passes, DistinctKeys, row_unique, DistinctKeys-update,
  length-select_unique, length-select_In,
}
use asdl_hub.Models.{Ident, Time, Text}
use asdl_hub.Auth.LoginLimiter.{text_eq_iff, trim_space}
use asdl_hub.Auth.Users.{User, is_user, user_by_id}
use asdl_hub.Auth.TwoFactor.{
  Crypto, SecondFactor, bad_code, app_code, recovery_code, check_totp, check_second_factor,
  check_app_code, check_recovery_code, all_digits, totp_digits, update_one, behind, at_step, still,
  keeping, split_at, spend_step, spend_hash, among_hashes, normalize_recovery,
}

abbrev pub key_of : User → ℕ
key_of u = u.id

-- What a check of a code does to the row of a user.
abbrev pub Effect : Crypto → User → SecondFactor → User → Type 0
Effect crypto r bad_code s = s ≡ r
Effect crypto r (app_code step) s =
    (r.totp_last_step < step) × (s ≡ record r { totp_last_step = step })
Effect crypto r (recovery_code h) s =
    (front : List Text) × (back : List Text) × (stored : Text) × (crypto.unmarshal r.recovery_codes
      ≡ some (front ++ h ∷ back))
    × (stored ≡ crypto.marshal (front ++ back))
    × (s ≡ record r { recovery_codes = stored })

-- The row of a user after an update that keeps the keys.
user_by_id-update :
    (id : Ident) (p : User → Bool) (f : User → User) (us : List User) (r : User)
    → ((u : User) → is_user id (f u) ≡ is_user id u)
    → user_by_id id us ≡ some r
    → user_by_id id (update p f us) ≡ some (if p r then f r else r)
user_by_id-update id p f [] r same e = absurd (ground (arith, e))
user_by_id-update id p f (u ∷ us) r same e = elim (Bool-cases (is_user id u)) [
  | inl hit ↦
      let found : some u ≡ some r = ground (arith, e, hit) in
      rw (unmoved, hit)
        (ap (λ (o : Option User). elim o [ none ↦ none | some x ↦ some (if p x then f x else x) ])
          found)
  | inr miss ↦ rw (unmoved, miss) (user_by_id-update id p f us r same (ground (arith, e, miss)))
]
  where
    unmoved : is_user id (if p u then f u else u) ≡ is_user id u
    unmoved = elim (p u) as (λ b. is_user id (if b then f u else u) ≡ is_user id u) [
      | true ↦ same u
      | false ↦ refl
    ]

one_of-select :
    {A : Type 0} (q : A → Bool) (xs : List A)
    → (length (select q xs) == 1) ≡ true
    → (x : A) × In x xs × (q x ≡ true)
one_of-select q [] e = absurd (ground (arith, e))
one_of-select q (x ∷ xs) e = elim (Bool-cases (q x)) [
  | inl hit ↦ (x, inl refl, hit)
  | inr miss ↦ let (y, m, h) = one_of-select q xs (ground (arith, e, miss)) in (y, inr m, h)
]

-- When exactly one row fits, it is the user's row.
fits-row :
    (id : Ident) (p : User → Bool) (us : List User) (r : User)
    → DistinctKeys key_of us
    → user_by_id id us ≡ some r
    → (length (select (λ u. is_user id u && p u) us) == 1) ≡ true
    → p r ≡ true
fits-row id p us r d e one =
    let (w, m, h) = one_of-select (λ u. is_user id u && p u) us one in
    let own = first_passes (is_user id) us r e in
    let same : w ≡ r =
      row_unique key_of w r us d m (first-In (is_user id) us r e) (ground (arith, h, own)) in
    subst (λ x. p x ≡ true) same (ground (arith, h))

-- The rows after a check: the keys are as distinct as before, and the user's row is as the effect says.
abbrev pub Checked : Crypto → Ident → List User → User → SecondFactor × List User → Type 0
Checked crypto id us r (f, vs) =
    DistinctKeys key_of vs × (s : User) × (user_by_id id vs ≡ some s) × Effect crypto r f s

refused-Checked :
    (crypto : Crypto) (id : Ident) (us : List User) (r : User)
    → DistinctKeys key_of us
    → user_by_id id us ≡ some r
    → Checked crypto id us r (bad_code, us)
refused-Checked crypto id us r d e = (d, r, e, refl)

update_one-Checked :
    (crypto : Crypto) (id : Ident) (p : User → Bool) (f : User → User) (done : SecondFactor)
    (us : List User) (r : User)
    → DistinctKeys key_of us
    → user_by_id id us ≡ some r
    → ((u : User) → (key_of (f u) ≡ key_of u) × (is_user id (f u) ≡ is_user id u))
    → (p r ≡ true → Effect crypto r done (f r))
    → Checked crypto id us r (update_one id p f done us)
unfolding update_one
update_one-Checked crypto id p f done us r d e same effect =
    let fits : User → Bool = λ u. is_user id u && p u in
    let keys = DistinctKeys-update key_of fits f us (λ u. (same u).0) d in
    let row = user_by_id-update id fits f us r (λ u. (same u).1) e in
    let own = first_passes (is_user id) us r e in
    elim (Bool-cases (length (select fits us) == 1)) [
      | inl one ↦
          let hit = fits-row id p us r d e one in
          let both : (is_user id r && p r) ≡ true = ground (arith, own, hit) in
          rw one (
            keys,
            f r,
            subst (λ b. user_by_id id (update fits f us) ≡ some (if b then f r else r)) both row,
            effect hit,
          )
      | inr other ↦
          let miss : (is_user id r && p r) ≡ false = elim (Bool-cases (is_user id r && p r)) [
            | inr m ↦ m
            | inl h ↦
                let some_fit = length-select_In fits us r (first-In (is_user id) us r e) h in
                let one_fits =
                  length-select_unique key_of id fits us (λ u q. ground (arith, q)) d in
                absurd (ground (arith, other, some_fit, one_fits))
          ] in
          rw other (
            keys,
            r,
            subst (λ b. user_by_id id (update fits f us) ≡ some (if b then f r else r)) miss row,
            refl,
          )
    ]

check_app_code-Checked :
    (crypto : Crypto) (user : User) (code : Text) (now : Time) (us : List User) (r : User)
    → DistinctKeys key_of us
    → user_by_id user.id us ≡ some r
    → Checked crypto user.id us r (check_app_code crypto user code now us)
unfolding check_app_code
check_app_code-Checked crypto user code now us r d e =
    elim (Option-cases (crypto.open_secret user.totp_secret)) [
      | inl sealed ↦ rw (check_app_code, sealed) (refused-Checked crypto user.id us r d e)
      | inr (key, opened) ↦
          rw (check_app_code, opened) (at (check_totp crypto key code now user.totp_last_step))
    ]
  where
    at : (o : Option ℕ) → Checked crypto user.id us r (spend_step user.id o us)
    at none = refused-Checked crypto user.id us r d e
    at (some step) =
        update_one-Checked crypto user.id (behind step) (at_step step) (app_code step) us r d e
          (λ u. (refl, refl)) (λ h. (ltb→lt _ _ h, refl))

abbrev IsSplit : List Text → Option (List Text × Text × List Text) → Type 0
IsSplit hs none = Unit
IsSplit hs (some (front, h, back)) = hs ≡ front ++ h ∷ back

split_at-IsSplit : (p : Text → Bool) (hs : List Text) → IsSplit hs (split_at p hs)
unfolding split_at
split_at-IsSplit p [] = tt
split_at-IsSplit p (g ∷ hs) = elim (Bool-cases (p g)) [
  | inl hit ↦ rw hit refl
  | inr miss ↦ rw miss (longer (split_at p hs) (split_at-IsSplit p hs))
]
  where
    longer :
        (o : Option (List Text × Text × List Text))
        → IsSplit hs o
        → IsSplit
            (g ∷ hs)
            (elim o [ none ↦ none | some (front, h, back) ↦ some (g ∷ front, h, back) ])
    longer none w = tt
    longer (some (front, h, back)) w = ap (λ l. g ∷ l) w

check_recovery_code-Checked :
    (crypto : Crypto) (user : User) (code : Text) (us : List User) (r : User)
    → DistinctKeys key_of us
    → user_by_id user.id us ≡ some r
    → Checked crypto user.id us r (check_recovery_code crypto user code us)
unfolding check_recovery_code
check_recovery_code-Checked crypto user code us r d e =
    stored (crypto.unmarshal user.recovery_codes) refl
  where
    norm : Text
    norm = normalize_recovery crypto.to_lower code

    found :
        (hs : List Text) (o : Option (List Text × Text × List Text))
        → crypto.unmarshal user.recovery_codes ≡ some hs
        → split_at (λ h. crypto.matches h norm) hs ≡ o
        → Checked crypto user.id us r (spend_hash crypto user o us)
    found hs none u o = refused-Checked crypto user.id us r d e
    found hs (some (front, h, back)) u o =
        update_one-Checked crypto user.id (still user.recovery_codes)
          (keeping (crypto.marshal (front ++ back))) (recovery_code h) us r d e (λ w. (refl, refl))
          (λ same. (
            front,
            back,
            crypto.marshal (front ++ back),
            ap crypto.unmarshal ((text_eq_iff _ _).0 same)
                ∙ u
                ∙ ap some (subst (IsSplit hs) o (split_at-IsSplit _ hs)),
            refl,
            refl,
          ))

    stored :
        (o : Option (List Text))
        → crypto.unmarshal user.recovery_codes ≡ o
        → Checked crypto user.id us r (among_hashes crypto user norm o us)
    stored none u = refused-Checked crypto user.id us r d e
    stored (some hs) u = found hs _ u refl

pub check_second_factor-Checked :
    (crypto : Crypto) (user : User) (typed : Text) (now : Time) (us : List User) (r : User)
    → DistinctKeys key_of us
    → user_by_id user.id us ≡ some r
    → Checked crypto user.id us r (check_second_factor crypto user typed now us)
unfolding check_second_factor
check_second_factor-Checked crypto user typed now us r d e =
    let code = trim_space typed in
    elim (Bool-cases (length code == totp_digits && all_digits code)) [
      | inl app ↦ rw app (check_app_code-Checked crypto user code now us r d e)
      | inr recovery ↦ rw recovery (check_recovery_code-Checked crypto user code us r d e)
    ]
