-- ===== src/Auth/CliLogin/Requests.antt =====
-- internal/services/cli_auth.go: how often the requests under one code are counted, through the
-- operations that change them.
use asdl_hub.Prelude.{
  ℕ, ◌≤◌, ◌≡◌, refl, sym, ap, subst, inl, inr, Bool, true, false, none, some, [], ◌∷◌, arith,
  Bool-cases, length, select,
}
use asdl_hub.Prelude.GoMap.{GoMap, find, put, remove}
use asdl_hub.Models.{Text}
use asdl_hub.Auth.LoginLimiter.{text_eq, text_eq_iff}
use asdl_hub.Auth.CliLogin.{CliRequest, text_key}

abbrev pub Entry : Type 0
Entry = Text × CliRequest

abbrev pub tally : (Entry → Bool) → GoMap Text CliRequest → ℕ
tally q m = length (select q m)

pub tally-select :
    (q p : Entry → Bool) (m : GoMap Text CliRequest) → tally q (select p m) ≤ tally q m
tally-select q p [] = omega arith
tally-select q p (e ∷ m) = ground (arith, tally-select q p m)

pub tally-remove :
    (q : Entry → Bool) (j : Text) (m : GoMap Text CliRequest) → tally q (remove j m) ≤ tally q m
unfolding remove
tally-remove q j [] = omega arith
tally-remove q j ((i, r) ∷ m) = ground (arith, tally-remove q j m)

pub tally-put :
    (q : Entry → Bool) (j : Text) (r : CliRequest) (m : GoMap Text CliRequest)
    → q (j, r) ≡ false
    → tally q (put j r m) ≤ tally q m
unfolding put
tally-put q j r m h = ground (arith, h, tally-remove q j m)

pub find-tally :
    (q : Entry → Bool) (k : Text) (r : CliRequest) (m : GoMap Text CliRequest)
    → find k m ≡ some r
    → q (k, r) ≡ true
    → 1 ≤ tally q m
unfolding find
find-tally q k r [] e h = absurd (ground (arith, e))
find-tally q k r ((j, s) ∷ m) e h = elim (Bool-cases (text_eq j k)) [
  | inl same ↦
      let key = (text_eq_iff j k).0 same in
      let value : some s ≡ some r = ground (arith, e, same) in
      let here : q (j, s) ≡ true =
        subst (λ i. q (i, s) ≡ true) (sym key)
          (subst (λ z. q (k, z) ≡ true) (sym (ap (λ o. elim o [ none ↦ s | some z ↦ z ]) value))
            h) in
      ground (arith, here)
  | inr other ↦ ground (arith, find-tally q k r m (ground (arith, e, other)) h)
]

-- A test that only entries under one key pass.
abbrev pub OnlyFor : Text → (Entry → Bool) → Type 0
OnlyFor k q = (j : Text) (r : CliRequest) → q (j, r) ≡ true → text_eq j k ≡ true

pub tally-remove_own :
    (q : Entry → Bool) (k : Text) (m : GoMap Text CliRequest)
    → OnlyFor k q
    → tally q (remove k m) ≡ 0
unfolding remove
tally-remove_own q k [] own = refl
tally-remove_own q k ((j, r) ∷ m) own = ground (arith, own j r, tally-remove_own q k m own)

pub tally-put_own :
    (q : Entry → Bool) (k : Text) (r : CliRequest) (m : GoMap Text CliRequest)
    → OnlyFor k q
    → tally q (put k r m) ≤ 1
unfolding put
tally-put_own q k r m own = ground (arith, tally-remove_own q k m own)
