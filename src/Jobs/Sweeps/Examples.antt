-- ===== src/Jobs/Sweeps/Examples.antt =====
-- A log stream that nobody claimed and a deploy whose node never answered; a failed job run again.
use asdl_hub.Prelude.{
  ℕ, ◌*◌, ◌≡◌, refl, true, false, ◌&&◌, some, [], ◌∷◌, ◌++◌, arith, update, In, DistinctKeys,
}
use asdl_hub.Samples.{sample_node, sample_job, sample_project, sample_deployment}
use asdl_hub.Models.{Text, Job, JobStatus, JobType, Command, Scope, minute}
use asdl_hub.Deploy.Markers.{codes, strip_prefix}
use asdl_hub.Hub.{Hub, job_by_id}
use asdl_hub.Jobs.Complete.{World, Report, Response, complete, judge, authorized, reported}
use asdl_hub.Jobs.Sweeps.{
  interactive_job, waits_too_long, runs_too_long, timed_out, failed_without_result, fail_stuck_jobs,
  RetryAnswer, retry, retry_of, redact_environment, jobs_in_flight, in_flight,
}
use asdl_hub.Jobs.Sweeps.Ended.{fail_stuck_exact, retry_without_environment}

abbrev world : World
world = record { now = 200 * minute; fresh = 99; saved = true }

abbrev stream : Job
stream = record sample_job {
  id = 12;
  kind = JobType.command;
  command = Command.shell (codes "docker logs app");
  scope = Scope.unscoped;
}

abbrev silent : Job
silent = record sample_job {
  status = JobStatus.running;
  started_at = some (60 * minute);
  environment = (97 ∷ []) ∷ [];
}

abbrev hub : Hub
hub = record {
  nodes = sample_node ∷ [];
  jobs = silent ∷ stream ∷ [];
  projects = sample_project ∷ [];
  deployments = sample_deployment ∷ [];
  migrations = [];
  oidc_deployments = [];
  project_plugins = [];
  app_outages = [];
  live_logs = [];
  notices = [];
  route_updates = 0;
}

keys : DistinctKeys (λ (j : Job). j.id) hub.jobs
keys = ground arith

stream_cancelled : (waits_too_long world.now stream && interactive_job stream) ≡ true
unfolding waits_too_long interactive_job strip_prefix
stream_cancelled = refl

two_in_flight : jobs_in_flight hub ≡ 2
unfolding jobs_in_flight in_flight
two_in_flight = refl

abbrev minutes_text : ℕ → Text
minutes_text t = codes "2h20m0s"

fail_stuck_exact_example :
    ((fail_stuck_jobs minutes_text world hub).jobs
      ≡ update
          (λ j. runs_too_long world.now j && timed_out world.now j)
          (failed_without_result minutes_text world.now)
          hub.jobs)
    × ((j : Job)
        → In j (fail_stuck_jobs minutes_text world hub).jobs
        → (runs_too_long world.now j && timed_out world.now j) ≡ false)
fail_stuck_exact_example = fail_stuck_exact minutes_text world hub keys

abbrev failure : Report
failure = record { status = JobStatus.failed; logs = []; exit_code = 1 }

failure_accepted : (complete world 11 10 (some failure) hub).0 ≡ Response.accepted
unfolding complete judge authorized
failure_accepted = refl

retry_without_environment_example :
    (j : Job) × (job_by_id 10 hub ≡ some j)
    × (retry world 10 (complete world 11 10 (some failure) hub).1 ≡ (
      RetryAnswer.created (redact_environment (retry_of world (reported world failure j))),
      record (complete world 11 10 (some failure) hub).1 {
        jobs =
            (complete world 11 10 (some failure) hub).1.jobs
            ++ record (retry_of world j) { environment = [] } ∷ [];
      },
    ))
retry_without_environment_example =
    retry_without_environment world world 11 10 failure hub failure_accepted refl refl
