-- ===== src/Migrations.antt =====
-- internal/services/migration_service.go: moving an app to another node, and giving up on a move.
pub mod Requests
pub mod Active
pub mod Stuck
mod Examples
use asdl_hub.Prelude.{
  ℕ, zero, suc, ◌+◌, ◌-◌, ◌*◌, ◌/◌, ◌%◌, ◌≤◌, ◌<◌, min, max, String, ◌≡◌, refl, sym, ap, ◌∙◌, subst,
  fun_ext, ◌≢◌, ◌↔◌, ◌⊎◌, inl, inr, Bool, true, false, ◌&&◌, ◌||◌, not, Option, none, some, List,
  [], ◌∷◌, ◌++◌, map, append_assoc, append-nil, arith, ltb, leb, ◌==◌, if◌then◌else◌, ltb→lt,
  lt→ltb, leb→le, le→leb, ==_iff, tests, Bool-cases, Option-cases, is_some, length, take, drop,
  get_elem?, select, first, update, any, head, All, In, length-append, length-drop, length-take,
  All_of_In, first-In, first_passes, select-In, In-select, str_eq, str_eq_iff, stable_sort,
  IsSorted, insert_sorted, stable_sort-perm, In-of_stable_sort, In-stable_sort, length-stable_sort,
  stable_sort-IsSorted, In-of_update, In-update, DistinctKeys, row_unique, save_each,
  save_each-select, length-select-update, length-select-update_le, DistinctKeys-update,
  length-select_unique, length-select_In, All-select_not, select-select,
}
use asdl_hub.Models.{
  Ident, Time, Node, Job, JobStatus, Project, HealthStatus, Migration, RunStatus, Trigger, minute,
  is_pending, is_running, is_completed, is_underway, is_available,
}
use asdl_hub.Hub.{Hub, node_by_id, job_by_id, project_by_id, update_project}
use asdl_hub.Deploy.Dispatch.{Supply, dispatch}
use asdl_hub.Deploy.Ports.{fixed_port_clash}
use asdl_hub.Nodes.Handlers.{heartbeat_timeout}

abbrev pub unclaimed_on_quiet_node : Time
unclaimed_on_quiet_node = minute

abbrev pub unclaimed_on_live_node : Time
unclaimed_on_live_node = 10 * minute

abbrev pub migration_run_limit : Time
migration_run_limit = 5 * minute

-- The node answers: it is online and its last heartbeat is recent.
abbrev pub is_live : Time → Option Node → Bool
is_live now none = false
is_live now (some n) = n.online && leb (now - n.last_heartbeat) heartbeat_timeout

abbrev pub start_of : Job → Time
start_of j = elim j.started_at [ none ↦ j.created_at | some t ↦ t ]

abbrev pub stuck_by_status : Migration → Job → Option Node → Time → JobStatus → Bool
stuck_by_status m j target now JobStatus.pending =
    if not (is_live now target)
    then ltb unclaimed_on_quiet_node (now - m.created_at)
    else ltb unclaimed_on_live_node (now - m.created_at)
stuck_by_status m j target now JobStatus.running = ltb migration_run_limit (now - start_of j)
stuck_by_status m j target now s =
    not (is_completed s) || ltb migration_run_limit (now - m.created_at)

-- migrationStuck without the reason, which is only logged.
unfoldable pub migration_stuck : Migration → Option Job → Option Node → Time → Bool
migration_stuck m none target now = ltb migration_run_limit (now - m.created_at)
migration_stuck m (some j) target now = stuck_by_status m j target now j.status

abbrev pub is_moving : Migration → Bool
is_moving m = elim m.status [ RunStatus.running ↦ true | _ ↦ false ]

-- The job of a migration, where it has one that still exists.
abbrev pub job_of : Migration → Hub → Option Job
job_of m h = if m.job_id == 0 then none else job_by_id m.job_id h

abbrev pub gives_up : Time → Hub → Migration → Bool
gives_up now h m =
    (is_moving m && ltb (m.created_at + unclaimed_on_quiet_node) now)
    && migration_stuck m (job_of m h) (node_by_id m.target_node_id h) now

abbrev pub failed_migration : Migration → Migration
failed_migration m = record m { status = RunStatus.failed }

-- The job is cancelled if no node has started it.
abbrev pub cancel_unclaimed : Ident → List Job → List Job
cancel_unclaimed job_id js =
    if job_id == 0
    then js
    else update (λ j. j.id == job_id && is_pending j.status)
        (λ j. record j { status = JobStatus.cancelled }) js

abbrev pub fail_migration : Migration → Hub → Hub
fail_migration m h = record h {
  migrations = update (λ x. x.id == m.id) (λ x. failed_migration m) h.migrations;
  jobs = cancel_unclaimed m.job_id h.jobs;
}

unfoldable pub fail_each : List Migration → Hub → Hub
fail_each [] h = h
fail_each (m ∷ ms) h = fail_each ms (fail_migration m h)

-- All is read before anything is written.
unfoldable pub cleanup_stuck_migrations : Time → Hub → Hub
cleanup_stuck_migrations now h = fail_each (select (gives_up now h) h.migrations) h

-- What a new migration takes from outside, besides what its deploy takes.
pub record Move : Type 0 where
  pub supply : Supply
  pub migration_id : Ident
  pub migration_saved : Bool

abbrev pub new_migration : Move → Project → Ident → Ident → Migration
new_migration w p source target = record {
  id = w.migration_id;
  project_id = p.id;
  container_id = p.container_id;
  source_node_id = source;
  target_node_id = target;
  status = RunStatus.running;
  job_id = w.supply.job_id;
  created_at = w.supply.now;
  completed_at = none;
}

abbrev pub record_migration : Move → Project → Migration → Hub → Option Migration × Hub
record_migration w p m h = if not w.migration_saved then (none, h) else (
  some m,
  update_project p.id (λ q. record q { health_status = HealthStatus.migrating })
      (record h { migrations = h.migrations ++ m ∷ [] }),
)

unfoldable pub start_migration : Move → Project → Node → Node → Hub → Option Migration × Hub
start_migration w p source target h =
    let (queued, sent) = dispatch w.supply p target p.image Trigger.migration h in
    if str_eq p.image ""
    then (none, h)
    else if not queued
    then (none, sent)
    else record_migration w p (new_migration w p source.id target.id) sent

abbrev pub active : Ident → Migration → Bool
active project_id m = m.project_id == project_id && is_underway m.status

pub data MoveAnswer : Type 0 where
  project_not_found source_not_found target_not_found same_node port_taken already_active
        image_not_saved not_started :
      MoveAnswer
  moving : Migration → MoveAnswer

abbrev pub answer_of : Option Migration × Hub → MoveAnswer × Hub
answer_of (none, h) = (not_started, h)
answer_of (some m, h) = (moving m, h)

-- The tests that MigrateToNode and MigrateProject share, once the nodes are found.
unfoldable pub move_checked : Move → Project → Node → Node → Hub → MoveAnswer × Hub
move_checked w p source target h =
    if not (fixed_port_clash h.projects target p == 0)
    then (port_taken, h)
    else if any (active p.id) h.migrations
    then (already_active, h)
    else answer_of (start_migration w p source target h)

-- MigrateToNode only comes here for another node than the app is on.
abbrev pub move_between : Move → Project → Option Node → Option Node → Hub → MoveAnswer × Hub
move_between w p none target h = (source_not_found, h)
move_between w p (some s) none h = (target_not_found, h)
move_between w p (some s) (some t) h =
    if s.id == t.id then (same_node, h) else move_checked w p s t h

unfoldable pub migrate_to_node : Move → Ident → Ident → Hub → MoveAnswer × Hub
migrate_to_node w project_id target_id h = elim (project_by_id project_id h) [
  | none ↦ (project_not_found, h)
  | some p ↦
      if p.node_id == target_id
      then (same_node, h)
      else move_between w p (node_by_id p.node_id h) (node_by_id target_id h) h
]
