-- ===== src/Health/Examples.antt =====
-- An app whose container died on a node that is online, and no node to move it to.
use asdl_hub.Prelude.{◌*◌, ◌≡◌, refl, ap, ◌≢◌, true, false, Option, none, List, [], ◌∷◌, length}
use asdl_hub.Prelude.GoMap.{find}
use asdl_hub.Samples.{sample_node, sample_project, sample_deployment}
use asdl_hub.Models.{Time, Node, NodeContainer, Project, Deployment, RunStatus, minute}
use asdl_hub.Hub.{Hub}
use asdl_hub.Deploy.Dispatch.{dispatch}
use asdl_hub.Deploy.Markers.{codes}
use asdl_hub.Health.{
  Checker, Round, restart_in_place, restart_on, restart_confirmed, restart_allowed, recent_restarts,
  container_confirmed_down, deploy_in_progress,
}
use asdl_hub.Health.Unhealthy.{handle_unhealthy_project}
use asdl_hub.Health.Rounds.{answered, not_answered}
use asdl_hub.Health.Restarts.{MayRestart, restarts_only_confirmed}
use asdl_hub.Health.Checks.{two_failures_wait}
use asdl_hub.Health.Pinned.{AddsOn, pinned_stays}
use asdl_hub.Health.Failover.{LaterCheck, answers, misses, revisits}

abbrev other_app : NodeContainer
other_app = record { name = codes "db"; state = "running"; ports = []; project_id = 6 }

abbrev node : Node
node = record sample_node { containers = other_app ∷ [] }

abbrev app : Project
app = record sample_project { pinned = true }

abbrev ended : Deployment
ended = record sample_deployment { status = RunStatus.completed }

abbrev hub : Hub
hub = record {
  nodes = node ∷ [];
  jobs = [];
  projects = app ∷ [];
  deployments = ended ∷ [];
  migrations = [];
  oidc_deployments = [];
  project_plugins = [];
  app_outages = [];
  live_logs = [];
  notices = [];
  route_updates = 0;
}

abbrev checker : Checker
checker = record {
  failures = [];
  down = [];
  failing_since = [];
  unconfirmed = [];
  restarts = [];
  recovering = [];
  hub = hub;
}

abbrev round : Round
round = record {
  now = 100 * minute;
  supply = λ id. record {
    now = 100 * minute;
    job_id = 40;
    deployment_id = 41;
    environment = [];
    job_saved = true;
    deployment_saved = true;
    snapshots = [];
  };
  migration_id = λ id. 42;
  outage_id = λ id. 43;
  answers = λ id. false;
}

one_job : length (restart_in_place round app "app:2" checker).1.hub.jobs ≡ 1
unfolding restart_in_place restart_on restart_confirmed restart_allowed recent_restarts
    container_confirmed_down deploy_in_progress dispatch find
one_job = refl

restarted : (restart_in_place round app "app:2" checker).1.hub ≢ hub
restarted e = cc (one_job, ap (λ (h : Hub). length h.jobs) e)

restarts_only_confirmed_example : (n : Node) × MayRestart round app checker n
restarts_only_confirmed_example = restarts_only_confirmed round app "app:2" checker restarted

abbrev no_target : Time → Project → Hub → Option Node
no_target now p h = none

two_failures_wait_example :
    let up = answered round app checker in
    let after = not_answered no_target round app (not_answered no_target round app up) in
    (after.hub.jobs ≡ up.hub.jobs)
    × (after.hub.deployments ≡ up.hub.deployments)
    × (after.hub.migrations ≡ up.hub.migrations)
two_failures_wait_example =
    two_failures_wait no_target round round round app app app checker refl refl

pinned_stays_example : AddsOn 1 hub (handle_unhealthy_project no_target round app checker).hub
pinned_stays_example = pinned_stays no_target round app refl checker

abbrev spare : Node
spare = record sample_node { id = 2 }

-- It is missed three times, looked at again, and answers.
abbrev later_checks : List (LaterCheck × Round × Project)
later_checks =
    (misses, round, sample_project)
    ∷ (misses, round, sample_project)
    ∷ (misses, round, sample_project)
    ∷ (revisits, round, sample_project)
    ∷ (answers, round, sample_project)
    ∷ []
