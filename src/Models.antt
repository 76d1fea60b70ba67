-- ===== src/Models.antt =====
-- internal/models: the rows of the Hub's tables. An identifier is a number, 0 where the source has
-- the empty text; an instant is a count of nanoseconds, 0 for Go's zero time; a text that the code
-- takes apart is the list of its code points. Columns that no modelled code reads are left out.
pub mod Capacity
pub mod Secrets
mod Examples
use asdl_hub.Prelude.{
  ℕ, zero, suc, ◌*◌, ◌+◌, ◌≡◌, refl, ◌↔◌, Bool, true, false, ◌&&◌, ◌||◌, not, Option, String, List,
  [], ◌∷◌, arith, ◌==◌, str_eq, str_eq_iff, ltb, leb,
}

abbrev pub second : ℕ
second = 1000000000

abbrev pub minute : ℕ
minute = 60 * second

abbrev pub hour : ℕ
hour = 60 * minute

abbrev pub Ident : Type 0
Ident = ℕ

abbrev pub Time : Type 0
Time = ℕ

abbrev pub Text : Type 0
Text = List ℕ

abbrev pub text_eq : Text → Text → Bool
text_eq [] [] = true
text_eq [] (d ∷ t) = false
text_eq (c ∷ s) [] = false
text_eq (c ∷ s) (d ∷ t) = c == d && text_eq s t

-- JobStatus*; `other` is any text that is none of these (a report's status is not checked).
pub data JobStatus : Type 0 where
  pending running completed failed cancelled : JobStatus
  other : String → JobStatus

abbrev pub status_tag : JobStatus → ℕ
status_tag JobStatus.pending = 0
status_tag JobStatus.running = 1
status_tag JobStatus.completed = 2
status_tag JobStatus.failed = 3
status_tag JobStatus.cancelled = 4
status_tag (JobStatus.other s) = 5

abbrev pub status_text : JobStatus → String
status_text (JobStatus.other s) = s
status_text _ = ""

-- `==` on the texts.
abbrev pub same_status : JobStatus → JobStatus → Bool
same_status a b = status_tag a == status_tag b && str_eq (status_text a) (status_text b)

abbrev pub is_pending : JobStatus → Bool
is_pending JobStatus.pending = true
is_pending _ = false

abbrev pub is_running : JobStatus → Bool
is_running JobStatus.running = true
is_running _ = false

abbrev pub is_completed : JobStatus → Bool
is_completed JobStatus.completed = true
is_completed _ = false

abbrev pub is_failed : JobStatus → Bool
is_failed JobStatus.failed = true
is_failed _ = false

-- JobType*.
pub data JobType : Type 0 where
  deploy restart command logs_follow backup update migrate_start migrate_stop failover_start
        failover_stop image_pull image_push :
      JobType
  other : String → JobType

abbrev pub is_logs_follow : JobType → Bool
is_logs_follow JobType.logs_follow = true
is_logs_follow _ = false

abbrev pub is_deploy : JobType → Bool
is_deploy JobType.deploy = true
is_deploy _ = false

abbrev pub is_command : JobType → Bool
is_command JobType.command = true
is_command _ = false

-- Job.Scope: "", "app:<project id>" or another text ("container:<name>").
pub data Scope : Type 0 where
  unscoped : Scope
  app : Ident → Scope
  other : String → Scope

abbrev pub app_scope : Ident → Scope
app_scope project_id = Scope.app project_id

abbrev pub is_unscoped : Scope → Bool
is_unscoped Scope.unscoped = true
is_unscoped _ = false

abbrev pub same_scope : Scope → Scope → Bool
same_scope Scope.unscoped Scope.unscoped = true
same_scope (Scope.app a) (Scope.app b) = a == b
same_scope (Scope.other s) (Scope.other t) = str_eq s t
same_scope _ _ = false

pub same_scope_iff : (a b : Scope) → (same_scope a b ≡ true) ↔ (a ≡ b)
same_scope_iff Scope.unscoped Scope.unscoped = ground arith
same_scope_iff (Scope.app a) (Scope.app b) = ground arith
same_scope_iff (Scope.other s) (Scope.other t) = ground (arith, str_eq_iff s t)
same_scope_iff _ _ = ground arith

-- Job.Command: a command that a person or the agent update gave, or one that the Hub builds
-- (BuildDeployCommand, BuildRemoveProjectCommand) from what is named. The scripts are not modelled.
pub data Command : Type 0 where
  shell : Text → Command
  run_project : Ident → String → ℕ → Command  -- project, image, preferred port
  remove_project : Ident → Text → Command  -- project, name

pub record Job : Type 0 where
  pub id : Ident
  pub node_id : Ident
  pub kind : JobType  -- Type
  pub status : JobStatus
  pub command : Command
  pub working_dir : String
  pub environment : List Text
  pub logs : Text
  pub exit_code : ℕ
  pub max_retries : ℕ
  pub timeout : ℕ  -- seconds
  pub scope : Scope
  pub created_at : Time
  pub started_at : Option Time
  pub completed_at : Option Time

pub record NodeContainer : Type 0 where
  pub name : Text
  pub state : String
  pub ports : Text
  pub project_id : Ident

pub record Node : Type 0 where
  pub id : Ident
  pub hostname : String
  pub vpn_ip : Ident
  pub cpu : ℕ
  pub memory_total : ℕ
  pub memory_used : ℕ
  pub disk_total : ℕ
  pub disk_used : ℕ
  pub online : Bool
  pub last_heartbeat : Time
  pub capabilities : List String
  pub uptime : ℕ  -- seconds
  pub created_at : Time
  pub health_score : ℕ
  pub last_check : Time
  pub failure_count : ℕ
  pub ping_latency : ℕ  -- microseconds
  pub wifi_signal : ℕ
  pub load_avg_1 : ℕ  -- hundredths, as the kernel reports it
  pub agent_version : String
  pub maintenance : Bool
  pub maintenance_since : Option Time
  pub maintenance_by : String
  pub containers : List NodeContainer
  pub parallel_jobs : ℕ
  pub agent_started_at : Option Time
  pub going_away_at : Option Time

-- Project.Status and Project.HealthStatus: the texts that the code compares or writes.
pub data ProjectStatus : Type 0 where
  running failed : ProjectStatus
  other : String → ProjectStatus

pub data HealthStatus : Type 0 where
  healthy unhealthy unknown degraded migrating : HealthStatus
  other : String → HealthStatus

abbrev pub is_project_running : ProjectStatus → Bool
is_project_running ProjectStatus.running = true
is_project_running _ = false

abbrev pub is_project_failed : ProjectStatus → Bool
is_project_failed ProjectStatus.failed = true
is_project_failed _ = false

pub record Project : Type 0 where
  pub id : Ident
  pub name : Text
  pub repository : Ident
  pub node_id : Ident
  pub container_id : Ident
  pub deployment_id : Ident
  pub status : ProjectStatus
  pub health_status : HealthStatus
  pub image : String
  pub ports : List Text
  pub auto_port : Bool
  pub pinned : Bool
  pub last_deployed : Time

-- Trigger*.
pub data Trigger : Type 0 where
  ci failover migration rollback manual : Trigger
  other : String → Trigger

-- DeploymentStatus* and MigrationStatus*, which are the same four texts.
pub data RunStatus : Type 0 where
  pending running completed failed : RunStatus

abbrev pub is_underway : RunStatus → Bool
is_underway RunStatus.pending = true
is_underway RunStatus.running = true
is_underway _ = false

abbrev pub is_run_completed : RunStatus → Bool
is_run_completed RunStatus.completed = true
is_run_completed _ = false

abbrev pub is_run_failed : RunStatus → Bool
is_run_failed RunStatus.failed = true
is_run_failed _ = false

pub record Deployment : Type 0 where
  pub id : Ident
  pub project_id : Ident
  pub trigger : Trigger
  pub repository : Ident
  pub node_id : Ident
  pub status : RunStatus
  pub image_name : String
  pub ports : List Text
  pub logs : Text
  pub job_id : Ident
  pub created_at : Time
  pub started_at : Option Time
  pub completed_at : Option Time

pub record Migration : Type 0 where
  pub id : Ident
  pub project_id : Ident
  pub container_id : Ident
  pub source_node_id : Ident
  pub target_node_id : Ident
  pub status : RunStatus
  pub job_id : Ident
  pub created_at : Time
  pub completed_at : Option Time

-- NodeOutage.Cause.
pub data OutageCause : Type 0 where
  no_cause reboot weak_link connection : OutageCause

pub record NodeOutage : Type 0 where
  pub id : Ident
  pub node_id : Ident
  pub started_at : Time
  pub ended_at : Option Time
  pub seconds : ℕ
  pub cause : OutageCause
  pub wifi_at_start : ℕ
  pub ping_at_start : ℕ
  pub planned : Bool

pub record AppOutage : Type 0 where
  pub id : Ident
  pub project_id : Ident
  pub started_at : Time
  pub ended_at : Option Time
  pub seconds : ℕ

-- OIDCDeployment: the deploy of a workflow, and how it ended.
pub record OidcDeployment : Type 0 where
  pub job_id : Ident
  pub succeeded : Option Bool

pub record ProjectPlugin : Type 0 where
  pub project_id : Ident
  pub plugin_id : Text
  pub host_port : ℕ

-- Available: the nodes that can take apps.
abbrev pub is_available : Node → Bool
is_available n = n.online && not n.maintenance
