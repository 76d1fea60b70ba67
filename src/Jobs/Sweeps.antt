-- ===== src/Jobs/Sweeps.antt =====
-- internal/services/job_service.go: the sweeps that end jobs nobody will end (cancelStaleInteractiveJobs,
-- failStuckJobs), the count of jobs that a restart of the Hub would disturb (JobsInFlight), a failed job
-- run again (Retry) and what of a job's environment is shown (redactEnvironment).
pub mod Ended
mod Examples
use asdl_hub.Prelude.{
  ℕ, zero, suc, ◌+◌, ◌-◌, ◌*◌, ◌/◌, ◌%◌, ◌≤◌, ◌<◌, min, max, String, ◌≡◌, refl, sym, ap, ◌∙◌, subst,
  fun_ext, ◌≢◌, ◌↔◌, ◌⊎◌, inl, inr, Bool, true, false, ◌&&◌, ◌||◌, not, Option, none, some, List,
  [], ◌∷◌, ◌++◌, map, append_assoc, append-nil, arith, ltb, leb, ◌==◌, if◌then◌else◌, ltb→lt,
  lt→ltb, leb→le, le→leb, ==_iff, tests, Bool-cases, Option-cases, is_some, length, take, drop,
  get_elem?, select, first, update, any, head, All, In, length-append, length-drop, length-take,
  All_of_In, first-In, first_passes, select-In, In-select, str_eq, str_eq_iff, stable_sort,
  IsSorted, insert_sorted, stable_sort-perm, In-of_stable_sort, In-stable_sort, length-stable_sort,
  stable_sort-IsSorted, In-of_update, In-update, DistinctKeys, row_unique, save_each,
  save_each-select, length-select-update, length-select-update_le,
}
use asdl_hub.Models.{
  Ident, Time, Text, Node, Job, JobStatus, Command, second, minute, hour, is_pending, is_running,
  is_failed, is_logs_follow, is_command, is_deploy,
}
use asdl_hub.Hub.{Hub, job_by_id, node_by_id, create_job}
use asdl_hub.Deploy.Markers.{codes, span, strip_prefix}
use asdl_hub.Jobs.Complete.{World, complete_deploy}

abbrev pub stuck_job_after : ℕ
stuck_job_after = hour

abbrev pub stale_interactive_after : ℕ
stale_interactive_after = 15 * minute

abbrev pub masked_value : Text
masked_value = codes "********"

-- A job that the Hub makes for a person who waits.
unfoldable pub interactive_job : Job → Bool
interactive_job j =
    if is_logs_follow j.kind
    then true
    else is_command j.kind && (elim j.command [
      | Command.shell text ↦
          is_some (strip_prefix (codes "docker logs ") text)
          || is_some (strip_prefix (codes "docker restart ") text)
      | Command.run_project p image port ↦ false
      | Command.remove_project p name ↦ false
    ])

-- The WHERE of the query: pending, of either type, and made more than 15 minutes ago.
unfoldable pub waits_too_long : Time → Job → Bool
waits_too_long now j =
    is_pending j.status
    && (is_command j.kind || is_logs_follow j.kind)
    && ltb (j.created_at + stale_interactive_after) now

abbrev pub cancelled : Time → Job → Job
cancelled now j = record j {
  status = JobStatus.cancelled;
  logs =
      j.logs
      ++ (10
          ∷ 10
          ∷ codes
              "The node did not pick this job up within 15m0s, so it was cancelled: nobody is waiting for it any more.");
  completed_at = some now;
  environment = [];
}

-- s.db.Save(j): the row with the job's identifier becomes the job.
abbrev pub save_job : Job → Hub → Hub
save_job j h = record h { jobs = update (λ x. x.id == j.id) (λ x. j) h.jobs }

unfoldable pub cancel_each : Time → List Job → Hub → Hub
cancel_each now [] h = h
cancel_each now (j ∷ js) h =
    cancel_each now js (if interactive_job j then save_job (cancelled now j) h else h)

unfoldable pub cancel_stale_interactive_jobs : Time → Hub → Hub
cancel_stale_interactive_jobs now h = cancel_each now (select (waits_too_long now) h.jobs) h

-- started_at < now - an hour; NULL passes no comparison.
abbrev pub started_before : Option Time → ℕ → Time → Bool
started_before none age now = false
started_before (some t) age now = ltb (t + age) now

unfoldable pub runs_too_long : Time → Job → Bool
runs_too_long now j = is_running j.status && started_before j.started_at stuck_job_after now

-- Its own timeout, in seconds, has passed too.
unfoldable pub timed_out : Time → Job → Bool
timed_out now j = elim j.started_at [
  | none ↦ false
  | some t ↦ not (ltb (now - t) (j.timeout * second))
]

-- How a duration reads once it is rounded to minutes is the parameter `minutes_text`.
module _ (minutes_text : ℕ → Text) where
  abbrev pub run_time : Time → Job → ℕ
  run_time now j = elim j.started_at [ none ↦ 0 | some t ↦ now - t ]

  abbrev pub failed_without_result : Time → Job → Job
  failed_without_result now j = record j {
    status = JobStatus.failed;
    logs =
        j.logs
        ++ ((10 ∷ 10 ∷ codes "The node never reported how this job ended (it started ")
            ++ (minutes_text (run_time now j) ++ codes " ago); marked failed."));
    completed_at = some now;
    environment = [];
  }

  unfoldable pub fail_job : World → Job → Hub → Hub
  fail_job w j h =
      let done = failed_without_result w.now j in
      let saved = save_job done h in
      if is_deploy j.kind then complete_deploy w done saved else saved

  unfoldable pub fail_each : World → List Job → Hub → Hub
  fail_each w [] h = h
  fail_each w (j ∷ js) h = fail_each w js (if timed_out w.now j then fail_job w j h else h)

  unfoldable pub fail_stuck_jobs : World → Hub → Hub
  fail_stuck_jobs w h = fail_each w (select (runs_too_long w.now) h.jobs) h

-- The JOIN and the WHERE of JobsInFlight.
unfoldable pub in_flight : Hub → Job → Bool
in_flight h j = elim (node_by_id j.node_id h) [
  | none ↦ false
  | some n ↦
      n.online
      && not (is_logs_follow j.kind)
      && (is_pending j.status
          || (is_running j.status && (elim j.started_at [
            | none ↦ true
            | some t ↦ elim n.agent_started_at [ none ↦ true | some a ↦ leb a t ]
          ])))
]

unfoldable pub jobs_in_flight : Hub → ℕ
jobs_in_flight h = length (select (in_flight h) h.jobs)

-- `k, _, ok := strings.Cut(e, "=")`: an entry without `=` stays.
unfoldable pub redact_entry : Text → Text
redact_entry e =
    let (k, rest) = span (λ c. not (c == 61)) e in
    elim rest [ [] ↦ e | c ∷ v ↦ k ++ (61 ∷ masked_value) ]

unfoldable pub redact_environment : Job → Job
redact_environment j = record j { environment = map redact_entry j.environment }

-- The job that runs a failed one again.
abbrev pub retry_of : World → Job → Job
retry_of w j = record {
  id = w.fresh;
  node_id = j.node_id;
  kind = j.kind;
  status = JobStatus.pending;
  command = j.command;
  working_dir = j.working_dir;
  environment = j.environment;
  logs = [];
  exit_code = 0;
  max_retries = j.max_retries;
  timeout = j.timeout;
  scope = j.scope;
  created_at = w.now;
  started_at = none;
  completed_at = none;
}

pub data RetryAnswer : Type 0 where
  not_found only_failed not_saved : RetryAnswer
  created : Job → RetryAnswer

unfoldable pub retry_found : World → Hub → Option Job → RetryAnswer × Hub
retry_found w h none = (RetryAnswer.not_found, h)
retry_found w h (some j) =
    if not (is_failed j.status)
    then (RetryAnswer.only_failed, h)
    else if w.saved
    then (RetryAnswer.created (redact_environment (retry_of w j)), create_job true (retry_of w j) h)
    else (RetryAnswer.not_saved, h)

unfoldable pub retry : World → Ident → Hub → RetryAnswer × Hub
retry w id h = retry_found w h (job_by_id id h)
