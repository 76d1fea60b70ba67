-- ===== src/Migrations/Stuck.antt =====
-- internal/services/migration_service.go: what the sweep gives up on.
use asdl_hub.Prelude.{
  ◌≡◌, refl, ◌∙◌, subst, ◌≢◌, inl, inr, true, false, ◌&&◌, List, [], ◌∷◌, arith, ◌==◌,
  if◌then◌else◌, Bool-cases, select, update, All, In, In-select, DistinctKeys, save_each,
  save_each-select,
}
use asdl_hub.Models.{Ident, Time, Job, JobStatus, Migration, is_pending}
use asdl_hub.Hub.{Hub}
use asdl_hub.Migrations.{
  gives_up, failed_migration, cancel_unclaimed, fail_migration, fail_each, cleanup_stuck_migrations,
}

-- No job of this identifier waits for a node.
abbrev pub Unclaimable : Ident → List Job → Type 0
Unclaimable i js = All (λ j. j.id ≡ i → is_pending j.status ≡ false) js

fail_each-migrations :
    (ms : List Migration) (h : Hub)
    → (fail_each ms h).migrations
      ≡ save_each (λ (m : Migration). m.id) (λ m x. failed_migration m) ms h.migrations
unfolding fail_each
fail_each-migrations [] h = refl
fail_each-migrations (m ∷ ms) h = fail_each-migrations ms (fail_migration m h)

cancelled-Unclaimable : (i : Ident) (js : List Job) → i ≢ 0 → Unclaimable i (cancel_unclaimed i js)
cancelled-Unclaimable i js named =
    let other : (i == 0) ≡ false = ground (arith, named) in rw other (go js)
  where
    go :
        (js : List Job)
        → Unclaimable i (
            update
              (λ j. j.id == i && is_pending j.status)
              (λ j. record j { status = JobStatus.cancelled })
              js)
    go [] = tt
    go (j ∷ js) = (
      elim (Bool-cases (j.id == i && is_pending j.status)) [
        | inl waits ↦ rw waits (λ e. refl)
        | inr does_not ↦ rw does_not (λ e. ground (arith, e, does_not))
      ],
      go js,
    )

keeps-Unclaimable :
    (i k : Ident) (js : List Job) → Unclaimable i js → Unclaimable i (cancel_unclaimed k js)
keeps-Unclaimable i k js u =
    elim (k == 0)
      as (λ b. Unclaimable i (
        if b
        then js
        else update (λ j. j.id == k && is_pending j.status)
            (λ j. record j { status = JobStatus.cancelled }) js)) [ true ↦ u | false ↦ go js u ]
  where
    go :
        (js : List Job)
        → Unclaimable i js
        → Unclaimable i (
            update
              (λ j. j.id == k && is_pending j.status)
              (λ j. record j { status = JobStatus.cancelled })
              js)
    go [] u = tt
    go (j ∷ js) u = (
      elim (Bool-cases (j.id == k && is_pending j.status)) [
        | inl waits ↦ rw waits (λ e. refl)
        | inr does_not ↦ rw does_not u.0
      ],
      go js u.1,
    )

fail_each-keeps :
    (i : Ident) (ms : List Migration) (h : Hub)
    → Unclaimable i h.jobs
    → Unclaimable i (fail_each ms h).jobs
unfolding fail_each
fail_each-keeps i [] h u = u
fail_each-keeps i (m ∷ ms) h u =
    fail_each-keeps i ms (fail_migration m h) (keeps-Unclaimable i m.job_id h.jobs u)

fail_each-Unclaimable :
    (m : Migration) (ms : List Migration) (h : Hub)
    → In m ms
    → m.job_id ≢ 0
    → Unclaimable m.job_id (fail_each ms h).jobs
unfolding fail_each
fail_each-Unclaimable m [] h i named = absurd i
fail_each-Unclaimable m (x ∷ ms) h (inl e) named =
    fail_each-keeps m.job_id ms (fail_migration x h) (
      subst (λ (y : Migration). Unclaimable m.job_id (cancel_unclaimed y.job_id h.jobs)) e
        (cancelled-Unclaimable m.job_id h.jobs named))
fail_each-Unclaimable m (x ∷ ms) h (inr i) named =
    fail_each-Unclaimable m ms (fail_migration x h) i named

-- In a table whose migrations have identifiers of their own, the sweep fails the migrations that are given up
-- on and changes no other one, and no job of a failed one is left that a node could still start.
pub cleanup_exact :
    (now : Time) (h : Hub)
    → DistinctKeys (λ (m : Migration). m.id) h.migrations
    → ((cleanup_stuck_migrations now h).migrations
        ≡ update (gives_up now h) failed_migration h.migrations)
      × ((m : Migration)
          → In m h.migrations
          → gives_up now h m ≡ true
          → m.job_id ≢ 0
          → Unclaimable m.job_id (cleanup_stuck_migrations now h).jobs)
unfolding cleanup_stuck_migrations
cleanup_exact now h keys = (
  fail_each-migrations (select (gives_up now h) h.migrations) h
      ∙ save_each-select (λ (m : Migration). m.id) (λ m x. failed_migration m) (gives_up now h)
          h.migrations keys (λ x. refl),
  (λ m i given named.
      fail_each-Unclaimable m (select (gives_up now h) h.migrations) h
        (In-select (gives_up now h) h.migrations m i given) named),
)
