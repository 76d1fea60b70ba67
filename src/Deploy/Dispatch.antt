-- ===== src/Deploy/Dispatch.antt =====
-- internal/services/deployer.go, Dispatch: a deploy is queued as a job and becomes the project's current
-- deployment; prepareSnapshots and newSnapshotJob of snapshots.go: before a planned move the old node is asked
-- for last snapshots. The deploy's script and environment (BuildDeployCommand, the registry token, the
-- plugins) are not modelled: the command names what it runs, and the environment is an argument.
use asdl_hub.Prelude.{
  ◌≡◌, refl, inl, inr, Bool-cases, String, Bool, true, false, ◌&&◌, not, Option, none, some, List,
  [], ◌∷◌, ◌++◌, ◌==◌, if◌then◌else◌,
}
use asdl_hub.Models.{
  Ident, Time, Text, Node, Job, JobType, JobStatus, Command, Project, Deployment, Trigger,
  RunStatus, app_scope,
}
use asdl_hub.Hub.{Hub, update_project, create_job, node_by_id}
use asdl_hub.Deploy.Ports.{preferred_host_port}

-- A plugin of the project that keeps its data on the Hub: the job that would take a snapshot of it, and whether
-- that job can be stored.
pub record LastSnapshot : Type 0 where
  pub job_id : Ident
  pub script : Text
  pub environment : List Text
  pub saved : Bool

-- What a dispatch takes from outside: the plugins with snapshots (none where these are off), the clock, unused identifiers, the environment of the job and
-- whether the two new rows can be stored.
pub record Supply : Type 0 where
  pub snapshots : List LastSnapshot
  pub now : Time
  pub job_id : Ident
  pub deployment_id : Ident
  pub environment : List Text
  pub job_saved : Bool
  pub deployment_saved : Bool

abbrev pub deploy_job : Supply → Project → Node → String → Hub → Job
deploy_job w p n image h = record {
  id = w.job_id;
  node_id = n.id;
  kind = JobType.deploy;
  status = JobStatus.pending;
  command = Command.run_project p.id image (preferred_host_port h.projects h.nodes p n.id);
  working_dir = "";
  environment = w.environment;
  logs = [];
  exit_code = 0;
  max_retries = 1;
  timeout = 0;
  scope = app_scope p.id;
  created_at = w.now;
  started_at = none;
  completed_at = none;
}

abbrev pub deploy_record : Supply → Project → Node → String → Trigger → Deployment
deploy_record w p n image trigger = record {
  id = w.deployment_id;
  project_id = p.id;
  trigger = trigger;
  repository = p.repository;
  node_id = n.id;
  status = RunStatus.pending;
  image_name = image;
  ports = p.ports;
  logs = [];
  job_id = w.job_id;
  created_at = w.now;
  started_at = none;
  completed_at = none;
}

abbrev pub snapshot_job : Time → Project → Node → LastSnapshot → Job
snapshot_job now p source x = record {
  id = x.job_id;
  node_id = source.id;
  kind = JobType.command;
  status = JobStatus.pending;
  command = Command.shell x.script;
  working_dir = "";
  environment = x.environment;
  logs = [];
  exit_code = 0;
  max_retries = 0;
  timeout = 600;
  scope = app_scope p.id;
  created_at = now;
  started_at = none;
  completed_at = none;
}

unfoldable pub queue_snapshots : Time → Project → Node → List LastSnapshot → Hub → Hub
queue_snapshots now p source [] h = h
queue_snapshots now p source (x ∷ xs) h =
    queue_snapshots now p source xs (create_job x.saved (snapshot_job now p source x) h)

abbrev pub is_move : Trigger → Bool
is_move Trigger.migration = true
is_move _ = false

-- The node that a planned move leaves, if it is still up.
abbrev pub left_behind : Project → Node → Trigger → Hub → Option Node
left_behind p n trigger h =
    if is_move trigger && not (p.node_id == 0) && not (p.node_id == n.id)
    then node_by_id p.node_id h
    else none

abbrev pub ask_snapshots : Supply → Project → Option Node → Hub → Hub
ask_snapshots w p none h = h
ask_snapshots w p (some source) h =
    if source.online then queue_snapshots w.now p source w.snapshots h else h

abbrev pub prepare_snapshots : Supply → Project → Node → Trigger → Hub → Hub
prepare_snapshots w p n trigger h = ask_snapshots w p (left_behind p n trigger h) h

-- The callers that are modelled pass the project's repository and no commit. Without the deployment's
-- row the job stays queued.
abbrev pub queue_deploy : Supply → Project → Node → String → Trigger → Hub → Bool × Hub
queue_deploy w p n image trigger h =
    let queued = record h { jobs = h.jobs ++ deploy_job w p n image h ∷ [] } in
    if not w.job_saved then (false, h) else if not w.deployment_saved then (false, queued) else (
      true,
      update_project p.id (λ q. record q { deployment_id = w.deployment_id })
          (record queued { deployments = h.deployments ++ deploy_record w p n image trigger ∷ [] }),
    )

unfoldable pub dispatch : Supply → Project → Node → String → Trigger → Hub → Bool × Hub
dispatch w p n image trigger h =
    queue_deploy w p n image trigger (prepare_snapshots w p n trigger h)

queue_snapshots_frame :
    (now : Time) (p : Project) (source : Node) (xs : List LastSnapshot) (h : Hub)
    → let k = queue_snapshots now p source xs h in
      (k.migrations ≡ h.migrations) × (k.nodes ≡ h.nodes)
unfolding queue_snapshots
queue_snapshots_frame now p source [] h = (refl, refl)
queue_snapshots_frame now p source (x ∷ xs) h = elim (Bool-cases x.saved) [
  | inl kept ↦ rw kept (queue_snapshots_frame now p source xs _)
  | inr lost ↦ rw lost (queue_snapshots_frame now p source xs h)
]

ask_snapshots_frame :
    (w : Supply) (p : Project) (o : Option Node) (h : Hub)
    → let k = ask_snapshots w p o h in (k.migrations ≡ h.migrations) × (k.nodes ≡ h.nodes)
ask_snapshots_frame w p none h = (refl, refl)
ask_snapshots_frame w p (some source) h =
    elim source.online
      as (λ b.
        let k = if b then queue_snapshots w.now p source w.snapshots h else h in
        (k.migrations ≡ h.migrations) × (k.nodes ≡ h.nodes)) [
          | true ↦ queue_snapshots_frame w.now p source w.snapshots h
          | false ↦ (refl, refl)
        ]

-- The snapshots that are asked for leave the migrations and the nodes as they are.
pub prepare_snapshots_frame :
    (w : Supply) (p : Project) (n : Node) (trigger : Trigger) (h : Hub)
    → let k = prepare_snapshots w p n trigger h in
      (k.migrations ≡ h.migrations) × (k.nodes ≡ h.nodes)
prepare_snapshots_frame w p n trigger h = ask_snapshots_frame w p (left_behind p n trigger h) h
