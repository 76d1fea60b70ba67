-- ===== src/Auth/CliLogin/Handed.antt =====
-- internal/services/cli_auth.go: how often a token is handed over, through any sequence of calls.
use asdl_hub.Prelude.{
  ◌+◌, ◌≤◌, ◌≡◌, refl, sym, ap, subst, inl, inr, Bool, false, ◌&&◌, some, List, [], ◌∷◌, arith,
  Bool-cases,
}
use asdl_hub.Prelude.GoMap.{GoMap, find, put}
use asdl_hub.Models.{Text}
use asdl_hub.Auth.LoginLimiter.{text_eq, text_eq_iff}
use asdl_hub.Auth.CliLogin.{
  CliTexts, CliRequest, CliAuth, normalize_cli_code, text_key, new_request,
}
use asdl_hub.Auth.CliLogin.Requests.{Entry, tally, tally-put, find-tally, OnlyFor, tally-put_own}
use asdl_hub.Auth.CliLogin.Calls.{
  Call, start_call, approve_call, deny_call, poll_call, after, one_if, times, hands_over, begins,
  approves, under, approved_under, is_approved, starts_code, succeeded,
}
use asdl_hub.Auth.CliLogin.Steps.{start-Gains, approve-Gains, deny-Gains, poll-Loses}

under-OnlyFor : (k : Text) → OnlyFor k (under k)
under-OnlyFor k j r h = h

approved_under-OnlyFor : (k : Text) → OnlyFor k (approved_under k)
approved_under-OnlyFor k j r h = ground (arith, h)

-- A request that replaces one under its code is counted as that one was.
put-under :
    (k key : Text) (r t : CliRequest) (c : CliAuth)
    → find key c.requests ≡ some r
    → tally (under k) (put key t c.requests) ≤ tally (under k) c.requests
put-under k key r t c f = elim (Bool-cases (text_eq key k)) [
  | inl same ↦
      let is = (text_eq_iff key k).0 same in
      let before = find-tally (under k) key r c.requests f same in
      let now =
        subst (λ j. tally (under k) (put j t c.requests) ≤ 1) (sym is)
          (tally-put_own (under k) k t c.requests (under-OnlyFor k)) in
      omega (arith, before, now)
  | inr other ↦ tally-put (under k) key t c.requests other
]

put-own :
    (q : Entry → Bool) (k key : Text) (t : CliRequest) (m : GoMap Text CliRequest)
    → OnlyFor k q
    → tally q (put key t m) ≤ one_if (text_eq key k) + tally q m
put-own q k key t m own = elim (Bool-cases (text_eq key k)) [
  | inl same ↦
      let is = (text_eq_iff key k).0 same in
      let now = subst (λ j. tally q (put j t m) ≤ 1) (sym is) (tally-put_own q k t m own) in
      rw same (omega (arith, now))
  | inr other ↦
      let not_own : q (key, t) ≡ false = elim (Bool-cases (q (key, t))) [
        | inr n ↦ n
        | inl y ↦ absurd (ground (arith, own key t y, other))
      ] in
      rw other (omega (arith, tally-put q key t m not_own))
]

once_step :
    (texts : CliTexts) (k : Text) (e : Call) (c : CliAuth)
    → one_if (hands_over texts k e c) + tally (under k) (after texts e c).requests
      ≤ one_if (begins texts k e c) + tally (under k) c.requests
unfolding hands_over begins after
once_step texts k (start_call now machine ip raw secret) c = omega (
  arith,
  start-Gains (under k) texts c (λ a. one_if (starts_code k a)) now machine ip raw secret
      (λ code sec m. put-own (under k) k code _ m (under-OnlyFor k)),
)
once_step texts k (approve_call s now code user) c = omega (
  arith,
  approve-Gains (under k) texts now code c (λ a. 0) s user
      (λ r t f a. omega (arith, put-under k _ r t c f)),
)
once_step texts k (deny_call now code) c =
    omega (arith, deny-Gains (under k) texts now code c (λ r t f d. put-under k _ r t c f))
once_step texts k (poll_call now code secret) c = omega (
  arith,
  poll-Loses (under k) k (under-OnlyFor k) (λ r a. (text_eq_iff k k).1 refl) texts now code secret
      c,
)

approved_step :
    (texts : CliTexts) (k : Text) (e : Call) (c : CliAuth)
    → one_if (hands_over texts k e c) + tally (approved_under k) (after texts e c).requests
      ≤ one_if (approves texts k e c) + tally (approved_under k) c.requests
unfolding hands_over approves after
approved_step texts k (start_call now machine ip raw secret) c = omega (
  arith,
  start-Gains (approved_under k) texts c (λ a. 0) now machine ip raw secret
      (λ code sec m. omega (
        arith,
        tally-put (approved_under k) code (new_request texts machine ip sec now) m (ground arith),
      )),
)
approved_step texts k (approve_call s now code user) c = omega (
  arith,
  approve-Gains (approved_under k) texts now code c
      (λ a. one_if (succeeded a && text_eq (normalize_cli_code texts code) k)) s user
      (λ r t f a. omega (
        arith,
        put-own (approved_under k) k (normalize_cli_code texts code) t c.requests
            (approved_under-OnlyFor k),
      )),
)
approved_step texts k (deny_call now code) c = omega (
  arith,
  deny-Gains (approved_under k) texts now code c
      (λ r t f d. tally-put (approved_under k) _ t c.requests (ground (arith, ap is_approved d))),
)
approved_step texts k (poll_call now code secret) c = omega (
  arith,
  poll-Loses (approved_under k) k (approved_under-OnlyFor k)
      (λ r a. ground (arith, a, (text_eq_iff k k).1 refl)) texts now code secret c,
)

-- In any sequence of calls, a token is handed over under a code at most as often as requests were made
-- under that code, those at the beginning included.
pub token_handed_over_once :
    (texts : CliTexts) (k : Text) (es : List Call) (c : CliAuth)
    → times (hands_over texts k) texts es c
      ≤ times (begins texts k) texts es c + tally (under k) c.requests
unfolding times
token_handed_over_once texts k [] c = omega arith
token_handed_over_once texts k (e ∷ es) c =
    omega (arith, once_step texts k e c, token_handed_over_once texts k es (after texts e c))

-- In any sequence of calls, a token is handed over under a code at most as often as a user approved
-- that code, the approvals at the beginning included.
pub token_only_when_approved :
    (texts : CliTexts) (k : Text) (es : List Call) (c : CliAuth)
    → times (hands_over texts k) texts es c
      ≤ times (approves texts k) texts es c + tally (approved_under k) c.requests
unfolding times
token_only_when_approved texts k [] c = omega arith
token_only_when_approved texts k (e ∷ es) c =
    omega (arith, approved_step texts k e c, token_only_when_approved texts k es (after texts e c))
