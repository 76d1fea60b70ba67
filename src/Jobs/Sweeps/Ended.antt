-- ===== src/Jobs/Sweeps/Ended.antt =====
-- The sweeps, row by row, are one update of the table: who is ended, and who is left alone.
use asdl_hub.Prelude.{
  ℕ, ◌≡◌, refl, ap, ◌∙◌, subst, inl, inr, Bool, true, false, ◌&&◌, some, List, [], ◌∷◌, ◌++◌, arith,
  ◌==◌, Bool-cases, Option-cases, select, first, update, In, In-of_update, DistinctKeys, save_each,
  save_each-select,
}
use asdl_hub.Models.{Ident, Time, Text, Job, JobStatus, Deployment, Project, is_completed}
use asdl_hub.Hub.{Hub, job_by_id}
use asdl_hub.Jobs.Complete.{
  World, Report, Response, complete, reported, complete_deploy, record_deployment, project_of,
  settle,
}
use asdl_hub.Jobs.Complete.Reports.{reported_row}
use asdl_hub.Jobs.Complete.Frame.{deploy_failed_frame, record_deployment_frame}
use asdl_hub.Jobs.Sweeps.{
  interactive_job, waits_too_long, cancelled, save_job, cancel_each, cancel_stale_interactive_jobs,
  runs_too_long, timed_out, failed_without_result, fail_job, fail_each, fail_stuck_jobs,
  RetryAnswer, retry, retry_found, retry_of, redact_environment,
}

abbrev job_key : Job → ℕ
job_key j = j.id

select-select :
    (p q : Job → Bool) (xs : List Job) → select q (select p xs) ≡ select (λ x. p x && q x) xs
select-select p q [] = refl
select-select p q (x ∷ xs) = elim (Bool-cases (p x)) [
  | inl hit ↦ rw hit (ground (arith, select-select p q xs))
  | inr miss ↦ rw miss (select-select p q xs)
]

jobs-cancel_each :
    (now : Time) (js : List Job) (h : Hub)
    → (cancel_each now js h).jobs
      ≡ save_each job_key (λ j x. cancelled now j) (select interactive_job js) h.jobs
unfolding cancel_each
jobs-cancel_each now [] h = refl
jobs-cancel_each now (j ∷ js) h = elim (Bool-cases (interactive_job j)) [
  | inl one ↦ rw (one, cancel_each) (jobs-cancel_each now js (save_job (cancelled now j) h))
  | inr other ↦ rw (other, cancel_each) (jobs-cancel_each now js h)
]

-- In a table whose jobs have identifiers of their own, the sweep cancels the interactive jobs that have
-- waited for more than 15 minutes, and changes no other job.
pub cancel_stale_exact :
    (now : Time) (h : Hub)
    → DistinctKeys (λ (j : Job). j.id) h.jobs
    → (cancel_stale_interactive_jobs now h).jobs
      ≡ update (λ j. waits_too_long now j && interactive_job j) (cancelled now) h.jobs
unfolding cancel_stale_interactive_jobs
cancel_stale_exact now h keys =
    jobs-cancel_each now (select (waits_too_long now) h.jobs) h
    ∙ ap (λ rs. save_each job_key (λ j x. cancelled now j) rs h.jobs)
        (select-select (waits_too_long now) interactive_job h.jobs)
    ∙ save_each-select job_key (λ j x. cancelled now j)
        (λ j. waits_too_long now j && interactive_job j) h.jobs keys (λ j. refl)

jobs-settle_failed :
    (w : World) (j : Job) (dep : Deployment) (p : Project) (h : Hub)
    → is_completed j.status ≡ false
    → (settle w j dep p h).jobs ≡ h.jobs
unfolding settle
jobs-settle_failed w j dep p h bad = ground (arith, deploy_failed_frame j p h)

-- A deploy that failed queues nothing.
jobs-complete_deploy_failed :
    (w : World) (j : Job) (h : Hub)
    → is_completed j.status ≡ false
    → (complete_deploy w j h).jobs ≡ h.jobs
unfolding complete_deploy
jobs-complete_deploy_failed w j h bad =
    elim (Option-cases (first (λ d. d.job_id == j.id) h.deployments)) [
      | inl nothing ↦ rw (nothing, complete_deploy) refl
      | inr (dep, found) ↦
          let recorded = record_deployment w j dep h in
          let (_, same, _) = record_deployment_frame w j dep h in
          elim (Option-cases (project_of dep recorded)) [
            | inl nothing ↦ rw (found, complete_deploy, nothing) same
            | inr (p, at) ↦
                rw (found, complete_deploy, at) (jobs-settle_failed w j dep p recorded bad ∙ same)
          ]
    ]

module _ (minutes_text : ℕ → Text) (w : World) where
  abbrev ended : Job → Job
  ended = failed_without_result minutes_text w.now

  abbrev overdue : Job → Bool
  overdue j = runs_too_long w.now j && timed_out w.now j

  jobs-fail_job :
      (j : Job) (h : Hub) → (fail_job minutes_text w j h).jobs ≡ (save_job (ended j) h).jobs
  unfolding fail_job
  jobs-fail_job j h =
      ground (arith, jobs-complete_deploy_failed w (ended j) (save_job (ended j) h) refl)

  jobs-fail_each :
      (js : List Job) (h : Hub)
      → (fail_each minutes_text w js h).jobs
        ≡ save_each job_key (λ j x. ended j) (select (timed_out w.now) js) h.jobs
  unfolding fail_each
  jobs-fail_each [] h = refl
  jobs-fail_each (j ∷ js) h = elim (Bool-cases (timed_out w.now j)) [
    | inl one ↦
        rw (one, fail_each)
          (jobs-fail_each js (fail_job minutes_text w j h)
            ∙ ap (save_each job_key (λ j x. ended j) (select (timed_out w.now) js))
                (jobs-fail_job j h))
    | inr other ↦ rw (other, fail_each) (jobs-fail_each js h)
  ]

  ended_not_overdue : (j : Job) → overdue (ended j) ≡ false
  unfolding runs_too_long
  ended_not_overdue j = refl

  -- In a table whose jobs have identifiers of their own, the sweep fails the jobs that have run for more
  -- than an hour and past their own timeout, and changes no other job; none that is overdue is left.
  pub fail_stuck_exact :
      (h : Hub)
      → DistinctKeys (λ (j : Job). j.id) h.jobs
      → ((fail_stuck_jobs minutes_text w h).jobs ≡ update overdue ended h.jobs)
        × ((j : Job) → In j (fail_stuck_jobs minutes_text w h).jobs → overdue j ≡ false)
  unfolding fail_stuck_jobs
  fail_stuck_exact h keys =
      let rows =
        jobs-fail_each (select (runs_too_long w.now) h.jobs) h
        ∙ ap (λ rs. save_each job_key (λ j x. ended j) rs h.jobs)
            (select-select (runs_too_long w.now) (timed_out w.now) h.jobs)
        ∙ save_each-select job_key (λ j x. ended j) overdue h.jobs keys (λ j. refl) in
      (
        rows,
        λ j m.
            let (b, _, e) = In-of_update overdue ended j h.jobs (subst (In j) rows m) in
            ground (arith, ended_not_overdue b),
      )

-- A failed job whose report the Hub acted on is run again, where the new job can be stored, without its
-- environment: the report has cleared it.
pub retry_without_environment :
    (w w' : World) (addr job_id : Ident) (r : Report) (h : Hub)
    → (complete w addr job_id (some r) h).0 ≡ Response.accepted
    → r.status ≡ JobStatus.failed
    → w'.saved ≡ true
    → (j : Job) × (job_by_id job_id h ≡ some j)
      × (retry w' job_id (complete w addr job_id (some r) h).1 ≡ (
        RetryAnswer.created (redact_environment (retry_of w' (reported w r j))),
        record (complete w addr job_id (some r) h).1 {
          jobs =
              (complete w addr job_id (some r) h).1.jobs
              ++ record (retry_of w' j) { environment = [] } ∷ [];
        },
      ))
unfolding retry retry_found
retry_without_environment w w' addr job_id r h taken bad saved =
    let (j, found, row) = reported_row w addr job_id r h taken in
    (j, found, rw (row, retry_found, bad, saved) refl)
