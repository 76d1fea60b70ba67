-- ===== src/Auth/CliLogin/Steps.antt =====
-- internal/services/cli_auth.go: how each call changes the number of requests that are counted.
use asdl_hub.Prelude.{
  ℕ, ◌+◌, ◌-◌, ◌≤◌, ◌≡◌, refl, sym, ◌∙◌, subst, inl, inr, Bool, true, ◌&&◌, not, Option, none, some,
  List, [], ◌∷◌, ◌++◌, arith, ltb, leb, Bool-cases, Option-cases, is_some, length, select,
}
use asdl_hub.Prelude.GoMap.{GoMap, find, put, remove}
use asdl_hub.Models.{Time, Text, minute}
use asdl_hub.Auth.LoginLimiter.{text_eq, text_eq_iff}
use asdl_hub.Auth.Users.{User, Accounts}
use asdl_hub.Auth.CliLogin.{
  CliTexts, CliRequest, CliAuth, RequestStatus, pending, approved, denied, text_key, prune, start,
  place, StartAnswer, started, approve, approve_found, hand_over, token_for, get, deny, deny_found,
  poll, poll_found, poll_status, PollAnswer, Reply, done, Signing, normalize_cli_code, is_pending,
  answered, outlived, starts_of, new_request, code_of, no_random,
}
use asdl_hub.Auth.CliLogin.Requests.{
  Entry, tally, tally-select, find-tally, OnlyFor, tally-remove_own, tally-remove,
}
use asdl_hub.Auth.CliLogin.Calls.{one_if, gives_token, is_approved}

-- The requests counted after an operation are at most those before and what its answer adds.
abbrev pub Gains : {A : Type 0} → (Entry → Bool) → (A → ℕ) → CliAuth → A × CliAuth → Type 0
Gains q gain c (a, d) = tally q d.requests ≤ gain a + tally q c.requests

module _ (q : Entry → Bool) (texts : CliTexts) (c0 : CliAuth) where
  place-Gains :
      (gain : StartAnswer → ℕ) (now : Time) (machine ip code : Text) (secret : Option Text)
      (c : CliAuth)
      → ((sec : Text)
          → tally q (put code (new_request texts machine ip sec now) c.requests)
            ≤ gain (started code sec) + tally q c.requests)
      → tally q c.requests ≤ tally q c0.requests
      → Gains q gain c0 (place texts now machine ip code secret c)
  unfolding place
  place-Gains gain now machine ip code secret c new less =
      elim (Bool-cases (is_some (find code c.requests))) [
        | inl hit ↦ rw hit (omega (arith, less))
        | inr free ↦ rw free (made secret)
      ]
    where
      made :
          (o : Option Text)
          → Gains q gain c0 (elim o [
            | none ↦ (no_random, c)
            | some sec ↦ (
              started code sec,
              record c { requests = put code (new_request texts machine ip sec now) c.requests },
            )
          ])
      made none = omega (arith, less)
      made (some sec) = omega (arith, new sec, less)

  pub start-Gains :
      (gain : StartAnswer → ℕ) (now : Time) (machine ip : Text) (raw : Option (List ℕ))
      (secret : Option Text)
      → ((code sec : Text) (m : GoMap Text CliRequest)
          → tally q (put code (new_request texts machine ip sec now) m)
            ≤ gain (started code sec) + tally q m)
      → Gains q gain c0 (start texts now machine ip raw secret c0)
  unfolding start prune
  start-Gains gain now machine ip raw secret new =
      let fewer = tally-select q (λ e. not (outlived now e)) c0.requests in
      let recent = select (λ t. ltb (now - t) minute) (starts_of ip (prune now c0)) in
      elim (Bool-cases (leb 10 (length recent))) [
        | inl many ↦ rw many (omega (arith, fewer))
        | inr few ↦ rw few (elim (Bool-cases (leb 500 (length (prune now c0).requests))) [
          | inl full ↦ rw full (omega (arith, fewer))
          | inr room ↦ rw room (drawn raw)
        ])
      ]
    where
      counted : CliAuth
      counted = record (prune now c0) {
        starts =
            put ip (select (λ t. ltb (now - t) minute) (starts_of ip (prune now c0)) ++ now ∷ [])
              (prune now c0).starts;
      }

      drawn :
          (o : Option (List ℕ))
          → Gains q gain c0 (elim o [
            | none ↦ (no_random, counted)
            | some bytes ↦ place texts now machine ip (code_of bytes) secret counted
          ])
      drawn none = omega (arith, tally-select q (λ e. not (outlived now e)) c0.requests)
      drawn (some bytes) =
          place-Gains gain now machine ip (code_of bytes) secret counted
            (λ sec. new (code_of bytes) sec counted.requests)
            (tally-select q (λ e. not (outlived now e)) c0.requests)

pub get-find :
    (texts : CliTexts) (now : Time) (code : Text) (c : CliAuth) (r : CliRequest)
    → get texts now code c ≡ some r
    → find (normalize_cli_code texts code) c.requests ≡ some r
unfolding get
get-find texts now code c r e =
    elim (Option-cases (find (normalize_cli_code texts code) c.requests)) [
      | inl gone ↦
          let nothing : get texts now code c ≡ none = rw (get, gone) refl in
          absurd (ground (arith, e, nothing))
      | inr (s, found) ↦ elim (Bool-cases (ltb 300000000000 (now - s.created))) [
        | inl late ↦
            let nothing : get texts now code c ≡ none = rw (get, found, late) refl in
            absurd (ground (arith, e, nothing))
        | inr early ↦
            let it : get texts now code c ≡ some s = rw (get, found, early) refl in
            found ∙ sym it ∙ e
      ]
    ]

module _ (q : Entry → Bool) (texts : CliTexts) (now : Time) (code : Text) (c : CliAuth) where
  pub approve-Gains :
      (gain : Reply → ℕ) (s : Signing) (user : User)
      → ((r t : CliRequest)
          → find (normalize_cli_code texts code) c.requests ≡ some r
          → t.status ≡ approved
          → tally q (put (normalize_cli_code texts code) t c.requests)
            ≤ gain done + tally q c.requests)
      → Gains q gain c (approve texts s now code user c)
  unfolding approve
  approve-Gains gain s user new =
      at (get texts now code c) (λ r e t a. new r t (get-find texts now code c r e) a) refl
    where
      key : Text
      key = normalize_cli_code texts code

      handed :
          (r : CliRequest) (o : Option Text × Accounts)
          → ((t : CliRequest)
              → t.status ≡ approved
              → tally q (put key t c.requests) ≤ gain done + tally q c.requests)
          → Gains q gain c (hand_over key user r o c)
      handed r (none, a) h = omega arith
      handed r (some token, a) h = h (answered approved token (some user) r) refl

      at :
          (o : Option CliRequest)
          → ((r : CliRequest)
              → get texts now code c ≡ some r
              → (t : CliRequest) → t.status ≡ approved
              → tally q (put key t c.requests) ≤ gain done + tally q c.requests)
          → get texts now code c ≡ o
          → Gains q gain c (approve_found s now key user o c)
      at none h e = omega arith
      at (some r) h e = elim (Bool-cases (not (is_pending r.status))) [
        | inl old ↦ rw old (omega arith)
        | inr new ↦ rw new (handed r (token_for s now user r c.accounts) (h r e))
      ]

  pub deny-Gains :
      ((r t : CliRequest)
        → find (normalize_cli_code texts code) c.requests ≡ some r
        → t.status ≡ denied
        → tally q (put (normalize_cli_code texts code) t c.requests) ≤ tally q c.requests)
      → tally q (deny texts now code c).1.requests ≤ tally q c.requests
  unfolding deny
  deny-Gains new = at (get texts now code c) refl
    where
      key : Text
      key = normalize_cli_code texts code

      at :
          (o : Option CliRequest)
          → get texts now code c ≡ o
          → tally q (deny_found key o c).1.requests ≤ tally q c.requests
      at none e = omega arith
      at (some r) e = elim (Bool-cases (not (is_pending r.status))) [
        | inl old ↦ rw old (omega arith)
        | inr fresh ↦
            rw fresh (new r (answered denied r.token r.user r) (get-find texts now code c r e) refl)
      ]

-- What a poll finds approved is counted before, and gone afterwards.
module _ (q : Entry → Bool) (k : Text) (own : OnlyFor k q)
    (counts : (r : CliRequest) → is_approved r.status ≡ true → q (k, r) ≡ true) where
  abbrev Loses : Text → CliAuth → PollAnswer × CliAuth → Type 0
  Loses key c (a, d) =
      one_if (text_eq key k && gives_token a) + tally q d.requests ≤ tally q c.requests

  forget-tally : (key : Text) (m : GoMap Text CliRequest) → tally q (remove key m) ≤ tally q m
  forget-tally key m = tally-remove q key m

  status-Loses :
      (key : Text) (r : CliRequest) (s : RequestStatus) (c : CliAuth)
      → find key c.requests ≡ some r
      → r.status ≡ s
      → Loses key c (poll_status key r s c)
  status-Loses key r pending c f e = ground (arith)
  status-Loses key r denied c f e = ground (arith, forget-tally key c.requests)
  status-Loses key r approved c f e = elim (Bool-cases (text_eq key k)) [
    | inr other ↦ rw other (omega (arith, forget-tally key c.requests))
    | inl same ↦
        let is = (text_eq_iff key k).0 same in
        let before =
          find-tally q k r c.requests (subst (λ j. find j c.requests ≡ some r) is f)
            (counts r (rw e refl)) in
        let gone : tally q (remove key c.requests) ≡ 0 =
          subst (λ j. tally q (remove j c.requests) ≡ 0) (sym is)
            (tally-remove_own q k c.requests own) in
        rw same (omega (arith, before, gone))
  ]

  pub poll-Loses :
      (texts : CliTexts) (now : Time) (code secret : Text) (c : CliAuth)
      → Loses (normalize_cli_code texts code) c (poll texts now code secret c)
  unfolding poll
  poll-Loses texts now code secret c = at (find (normalize_cli_code texts code) c.requests) refl
    where
      key : Text
      key = normalize_cli_code texts code

      at :
          (o : Option CliRequest)
          → find key c.requests ≡ o
          → Loses key c (poll_found texts now key secret o c)
      at none e = ground arith
      at (some r) e = elim (Bool-cases (not (text_eq r.secret_hash (texts.hash_secret secret)))) [
        | inl wrong ↦ rw wrong (ground arith)
        | inr right ↦ rw right (elim (Bool-cases (ltb 300000000000 (now - r.created))) [
          | inl late ↦ rw late (ground (arith, forget-tally key c.requests))
          | inr early ↦ rw early (status-Loses key r r.status c e refl)
        ])
      ]
