-- ===== src/Jobs/Complete.antt =====
-- internal/services/job_service.go: a node reports how a job ended (Complete), and what a finished
-- deploy changes (completeDeploy, removeStrayCopy).
pub mod Frame
pub mod Reports
pub mod Outcome
mod Examples
use asdl_hub.Prelude.{
  ℕ, zero, suc, ◌+◌, ◌-◌, ◌*◌, ◌/◌, ◌%◌, ◌≤◌, ◌<◌, min, max, String, ◌≡◌, refl, sym, ap, ◌∙◌, subst,
  fun_ext, ◌≢◌, ◌↔◌, ◌⊎◌, inl, inr, Bool, true, false, ◌&&◌, ◌||◌, not, Option, none, some, List,
  [], ◌∷◌, ◌++◌, map, append_assoc, append-nil, arith, ltb, leb, ◌==◌, if◌then◌else◌, ltb→lt,
  lt→ltb, leb→le, le→leb, ==_iff, tests, Bool-cases, Option-cases, is_some, length, take, drop,
  get_elem?, select, first, update, any, head, All, In, length-append, length-drop, length-take,
  All_of_In, first-In, first_passes, select-In, In-select, str_eq, str_eq_iff, stable_sort,
  IsSorted, insert_sorted, stable_sort-perm, In-of_stable_sort, In-stable_sort, length-stable_sort,
  stable_sort-IsSorted, In-of_update, In-update, DistinctKeys, row_unique, length-select-update,
  length-select-update_le,
}
use asdl_hub.Models.{
  Ident, Time, Text, Job, JobType, JobStatus, Command, Node, Project, ProjectStatus, HealthStatus,
  Deployment, Migration, OidcDeployment, ProjectPlugin, Trigger, RunStatus, app_scope, is_completed,
  is_deploy, same_status, text_eq,
}
use asdl_hub.Hub.{
  Hub, Notice, node_by_id, job_by_id, deployment_by_id, update_project, update_job, notify,
  routes_changed, create_job,
}
use asdl_hub.Jobs.LiveLog.{finish}
use asdl_hub.Deploy.Markers.{parse_port_marker, parse_plugin_ports}

-- What a step takes from outside: the clock, an unused identifier and whether the write of a new job
-- succeeds.
pub record World : Type 0 where
  pub now : Time
  pub fresh : Ident
  pub saved : Bool

-- The body of the request.
pub record Report : Type 0 where
  pub status : JobStatus
  pub logs : Text
  pub exit_code : ℕ

pub data Response : Type 0 where
  bad_request not_found forbidden duplicate accepted : Response

-- The job that removes a project's container from a node.
abbrev pub stop_job : World → Project → Ident → Job
stop_job w p node_id = record {
  id = w.fresh;
  node_id = node_id;
  kind = JobType.failover_stop;
  status = JobStatus.pending;
  command = Command.remove_project p.id p.name;
  working_dir = "";
  environment = [];
  logs = [];
  exit_code = 0;
  max_retries = 2;
  timeout = 0;
  scope = app_scope p.id;
  created_at = w.now;
  started_at = none;
  completed_at = none;
}

-- The superseding deploy targets the node, or, if it is not to be found, the project is there.
unfoldable pub keeps_copy : Project → Ident → Hub → Bool
keeps_copy p node_id h = elim (deployment_by_id p.deployment_id h) [
  | none ↦ p.node_id == node_id
  | some newer ↦ newer.node_id == node_id
]

unfoldable pub remove_stray_copy : World → Project → Ident → Hub → Hub
remove_stray_copy w p node_id h =
    if keeps_copy p node_id h then h else create_job w.saved (stop_job w p node_id) h

-- s.db.Model(&dep).Updates(…) and the OIDC record of the same job.
unfoldable pub record_deployment : World → Job → Deployment → Hub → Hub
record_deployment w j dep h =
    let succeeded = is_completed j.status in
    record h {
      deployments =
          update (λ d. d.id == dep.id)
            (λ d. record d {
              status = if succeeded then RunStatus.completed else RunStatus.failed;
              logs = j.logs;
              started_at = j.started_at;
              completed_at = some w.now;
            })
            h.deployments;
      oidc_deployments =
          update (λ o. o.job_id == j.id) (λ o. record o { succeeded = some succeeded })
            h.oidc_deployments;
    }

unfoldable pub project_of : Deployment → Hub → Option Project
project_of dep h =
    if dep.project_id == 0
    then first (λ p. p.repository == dep.repository) h.projects
    else first (λ p. p.id == dep.project_id) h.projects

-- Another deploy of the project was dispatched since.
unfoldable pub superseded : Project → Deployment → Bool
superseded p dep = not (p.deployment_id == 0) && not (p.deployment_id == dep.id)

unfoldable pub deploy_failed : Job → Project → Hub → Hub
deploy_failed j p h =
    let told = notify (Notice.deploy_failed p.id j.node_id) h in
    let marked =
      if p.node_id == 0
      then update_project p.id
          (λ q. record q { status = ProjectStatus.failed; health_status = HealthStatus.unhealthy })
          told
      else update_project p.id
          (λ q. record q { status = ProjectStatus.running; health_status = HealthStatus.unknown })
          told in
    routes_changed marked

-- `if project.AutoPort || len(project.Ports) == 0`: the port that the deploy reported is recorded.
unfoldable pub record_port : Project → Option Text → Hub → Hub
record_port p none h = h
record_port p (some mapping) h =
    if p.auto_port || length p.ports == 0
    then update_project p.id (λ q. record q { ports = mapping ∷ []; auto_port = true }) h
    else h

unfoldable pub record_plugin_ports : Project → List (Text × ℕ) → Hub → Hub
record_plugin_ports p [] h = h
record_plugin_ports p ((plugin, port) ∷ rest) h = record_plugin_ports p rest (record h {
  project_plugins =
      update (λ r. r.project_id == p.id && text_eq r.plugin_id plugin)
        (λ r. record r { host_port = port }) h.project_plugins;
})

abbrev is_failover : Trigger → Bool
is_failover Trigger.failover = true
is_failover _ = false

abbrev pub moved_from : Project → Job → Bool
moved_from p j = not (p.node_id == 0) && not (p.node_id == j.node_id)

-- The updates of a deploy that succeeded.
abbrev pub placed : World → Job → Deployment → Project → Project
placed w j dep q = record q {
  status = ProjectStatus.running;
  health_status = HealthStatus.unknown;
  node_id = j.node_id;
  image = dep.image_name;
  last_deployed = w.now;
}

unfoldable pub place_project : World → Job → Deployment → Project → Hub → Hub
place_project w j dep p h = update_project p.id (placed w j dep) h

-- The project runs on the job's node, on the ports that the deploy reported.
unfoldable pub record_success : World → Job → Deployment → Project → Hub → Hub
record_success w j dep p h =
    record_plugin_ports p (parse_plugin_ports j.logs)
      (record_port p (parse_port_marker j.logs) (place_project w j dep p h))

unfoldable pub deploy_succeeded : World → Job → Deployment → Project → Hub → Hub
deploy_succeeded w j dep p h =
    let recorded = record_success w j dep p h in
    let told =
      if is_failover dep.trigger
      then recorded
      else notify (Notice.deploy_succeeded p.id j.node_id) recorded in
    let cleaned =
      if moved_from p j then create_job w.saved (stop_job w p p.node_id) told else told in
    routes_changed cleaned

-- The rest of completeDeploy once the project is found.
unfoldable pub settle : World → Job → Deployment → Project → Hub → Hub
settle w j dep p h =
    if superseded p dep
    then (if is_completed j.status then remove_stray_copy w p j.node_id h else h)
    else if is_completed j.status
    then deploy_succeeded w j dep p h
    else deploy_failed j p h

unfoldable pub complete_deploy : World → Job → Hub → Hub
complete_deploy w j h = elim (first (λ d. d.job_id == j.id) h.deployments) [
  | none ↦ h
  | some dep ↦
      let recorded = record_deployment w j dep h in
      elim (project_of dep recorded) [ none ↦ recorded | some p ↦ settle w j dep p recorded ]
]

-- The job as the report leaves it; its environment, which can hold secrets, is dropped.
abbrev pub reported : World → Report → Job → Job
reported w r j = record j {
  status = r.status;
  logs = r.logs;
  exit_code = r.exit_code;
  completed_at = some w.now;
  environment = [];
}

unfoldable pub complete_migration : World → Job → Hub → Hub
complete_migration w j h = elim (first (λ m. m.job_id == j.id) h.migrations) [
  | none ↦ h
  | some found ↦ record h {
    migrations =
        update (λ m. m.id == found.id)
          (λ m. record m {
            status = if is_completed j.status then RunStatus.completed else RunStatus.failed;
            completed_at = some w.now;
          })
          h.migrations;
  }
]

-- The part of Complete behind its checks.
unfoldable pub accept : World → Report → Job → Hub → Hub
accept w r j h =
    let done = reported w r j in
    let saved = update_job j.id (λ x. done) h in
    let logged = record saved { live_logs = finish j.id r.status saved.live_logs } in
    let migrated = complete_migration w done logged in
    if is_deploy j.kind then complete_deploy w done migrated else migrated

abbrev pub is_repeat : Report → Job → Bool
is_repeat r j = is_some j.completed_at && same_status j.status r.status

-- The calling node, by its address, and the job decide.
unfoldable pub authorized : Ident → Job → Hub → Bool
authorized addr j h = elim (first (λ n. n.vpn_ip == addr) h.nodes) [
  | none ↦ false
  | some n ↦ n.id == j.node_id
]

-- What follows the look-up of the job.
unfoldable pub judge : World → Ident → Report → Hub → Option Job → Response × Hub
judge w addr r h none = (Response.not_found, h)
judge w addr r h (some j) =
    if not (authorized addr j h)
    then (Response.forbidden, h)
    else if is_repeat r j
    then (Response.duplicate, h)
    else (Response.accepted, accept w r j h)

unfoldable pub complete : World → Ident → Ident → Option Report → Hub → Response × Hub
complete w addr job_id none h = (Response.bad_request, h)
complete w addr job_id (some r) h = judge w addr r h (job_by_id job_id h)
