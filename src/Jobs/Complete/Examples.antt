-- ===== src/Jobs/Complete/Examples.antt =====
-- A deploy that moves an app from node 2 to node 1: the report, its repetition, and the project after.
use asdl_hub.Prelude.{
  ◌*◌, ◌≡◌, refl, sym, ap, ◌≢◌, inl, inr, true, false, ◌&&◌, some, [], ◌∷◌, ◌++◌, map,
  if◌then◌else◌, length, In,
}
use asdl_hub.Prelude.GoMap.{find}
use asdl_hub.Samples.{sample_node, sample_job, sample_project, sample_deployment}
use asdl_hub.Models.{
  Deployment, Command, Job, JobStatus, Project, ProjectStatus, Node, minute, is_completed,
}
use asdl_hub.Hub.{Hub, job_by_id}
use asdl_hub.Jobs.LiveLog.{finish}
use asdl_hub.Deploy.Markers.{
  parse_port_marker, parse_plugin_ports, last_some, matches, lines, port_line, plugin_port_line,
  strip_prefix, codes,
}
use asdl_hub.Jobs.Complete.{
  World, Report, Response, stop_job, moved_from, superseded, settle, complete, judge, accept,
  authorized, is_repeat, complete_migration, complete_deploy, record_deployment, project_of,
  deploy_succeeded, record_success, place_project, record_port, record_plugin_ports,
}
use asdl_hub.Jobs.Complete.Reports.{complete_twice, only_owner_completes}
use asdl_hub.Jobs.Complete.Outcome.{
  placement, superseded_settles, failed_keeps_placement, success_places,
}

abbrev world : World
world = record { now = 70 * minute; fresh = 99; saved = true }

abbrev taken : Job
taken = record sample_job {
  status = JobStatus.running;
  started_at = some (60 * minute);
  environment = (115 ∷ []) ∷ [];
}

abbrev elsewhere : Project
elsewhere = record sample_project { node_id = 2 }

abbrev hub : Hub
hub = record {
  nodes = sample_node ∷ [];
  jobs = taken ∷ [];
  projects = elsewhere ∷ [];
  deployments = sample_deployment ∷ [];
  migrations = [];
  oidc_deployments = [];
  project_plugins = [];
  app_outages = [];
  live_logs = [];
  notices = [];
  route_updates = 0;
}

abbrev success : Report
success = record { status = JobStatus.completed; logs = codes "ok"; exit_code = 0 }

report_accepted : (complete world 11 10 (some success) hub).0 ≡ Response.accepted
unfolding complete judge authorized
report_accepted = refl

-- The removal of the copy on node 2 is queued behind the deploy.
old_copy_removed :
    (complete world 11 10 (some success) hub).1.jobs
    ≡ record taken {
      status = JobStatus.completed;
      logs = codes "ok";
      completed_at = some (70 * minute);
      environment = [];
    }
      ∷ stop_job world elsewhere 2
      ∷ []
unfolding complete judge authorized accept complete_migration complete_deploy record_deployment
    project_of settle superseded deploy_succeeded record_success place_project record_port
    record_plugin_ports parse_port_marker parse_plugin_ports last_some matches lines port_line
    plugin_port_line strip_prefix finish find
old_copy_removed = refl

complete_twice_example :
    complete
      (record world { now = 80 * minute })
      11
      10
      (some success)
      (complete world 11 10 (some success) hub).1
    ≡ (Response.duplicate, (complete world 11 10 (some success) hub).1)
complete_twice_example =
    complete_twice world 11 10 success hub (record world { now = 80 * minute }) report_accepted

hub_changes : (complete world 11 10 (some success) hub).1 ≢ hub
hub_changes e = cc (ap (λ (h : Hub). length h.jobs) (sym e), ap length old_copy_removed)

only_owner_completes_example :
    (j : Job) × (n : Node) × (job_by_id 10 hub ≡ some j)
    × In n hub.nodes
    × (n.vpn_ip ≡ 11)
    × (n.id ≡ j.node_id)
    × (is_repeat success j ≡ false)
only_owner_completes_example = only_owner_completes world 11 10 success hub hub_changes

abbrev finished : Job
finished = record taken { status = JobStatus.completed }

-- A newer deploy, 31, is under way to node 2.
abbrev overtaken : Project
overtaken = record elsewhere { deployment_id = 31 }

overtaken-superseded : superseded overtaken sample_deployment ≡ true
unfolding superseded
overtaken-superseded = refl

abbrev newer : Deployment
newer = record sample_deployment { id = 31; node_id = 2 }

abbrev hub_since : Hub
hub_since = record hub { deployments = sample_deployment ∷ newer ∷ [] }

superseded_settles_example :
    ((settle world finished sample_deployment overtaken hub_since).projects ≡ hub_since.projects)
    × (is_completed finished.status ≡ false
        → (settle world finished sample_deployment overtaken hub_since).jobs ≡ hub_since.jobs)
    × (newer.node_id ≡ finished.node_id
        → (settle world finished sample_deployment overtaken hub_since).jobs ≡ hub_since.jobs)
    × (is_completed finished.status ≡ true
        → newer.node_id ≢ finished.node_id
        → world.saved ≡ true
        → (r : Job) × ((settle world finished sample_deployment overtaken hub_since).jobs
            ≡ hub_since.jobs ++ r ∷ [])
          × (r.node_id ≡ finished.node_id)
          × (r.status ≡ JobStatus.pending)
          × (r.command ≡ Command.remove_project overtaken.id overtaken.name))
superseded_settles_example =
    superseded_settles world finished sample_deployment overtaken hub_since newer
      ((refl, tt), (tt, tt)) (inr (inl refl)) refl overtaken-superseded

failed_keeps_placement_example :
    map placement
      (settle world
        (record taken { status = JobStatus.failed })
        sample_deployment
        elsewhere
        hub).projects
    ≡ map placement hub.projects
failed_keeps_placement_example =
    failed_keeps_placement world (record taken { status = JobStatus.failed }) sample_deployment
      elsewhere hub refl

elsewhere_newest : superseded elsewhere sample_deployment ≡ false
unfolding superseded
elsewhere_newest = refl

success_places_example :
    (q : Project) × In q (settle world finished sample_deployment elsewhere hub).projects
    × (q.id ≡ elsewhere.id)
    × (q.node_id ≡ finished.node_id)
    × (q.image ≡ sample_deployment.image_name)
    × (q.status ≡ ProjectStatus.running)
    × ((settle world finished sample_deployment elsewhere hub).jobs ≡ (
        if moved_from elsewhere finished && world.saved
        then hub.jobs ++ stop_job world elsewhere elsewhere.node_id ∷ []
        else hub.jobs))
success_places_example =
    success_places world finished sample_deployment elsewhere hub elsewhere_newest refl (inl refl)
