-- ===== src/Health/Unhealthy.antt =====
-- internal/services/health_service.go: what is done with an app that has failed too many checks (a
-- rollback, a restart in place, a failover, or nothing), and who is told. The choice of a failover's node is
-- a parameter, which Placement.failover_target fills.
use asdl_hub.Prelude.{
  String, Bool, true, false, ◌&&◌, ◌||◌, not, Option, none, some, [], ◌∷◌, ◌++◌, ◌==◌,
  if◌then◌else◌, is_some, any, str_eq,
}
use asdl_hub.Prelude.GoMap.{nat_key, find, put}
use asdl_hub.Models.{
  Time, Node, Project, ProjectStatus, HealthStatus, Migration, RunStatus, Trigger, is_underway,
}
use asdl_hub.Hub.{Hub, Notice, node_by_id, deployment_by_id, update_project, notify, routes_changed}
use asdl_hub.Outages.Apps.{open_app_outage}
use asdl_hub.Deploy.Dispatch.{dispatch}
use asdl_hub.Deploy.Rollback.{auto_rollback_target, rollback_underway}
use asdl_hub.Health.{Checker, Round, set_health, restart_in_place}

unfoldable pub try_rollback : Round → Project → Checker → Bool × Checker
try_rollback w p s = elim (auto_rollback_target w.now p s.hub) [
  | none ↦ (false, s)
  | some prev ↦ elim (node_by_id p.node_id s.hub) [
    | none ↦ (false, s)
    | some n ↦
        if not n.online
        then (false, s)
        else let (queued, h) =
            dispatch (w.supply p.id) p n prev.image_name Trigger.rollback s.hub in
          if not queued then (false, record s { hub = h }) else (
            true,
            record s {
              hub =
                  notify (Notice.rolled_back p.id n.id) (
                    update_project p.id (λ q. record q { health_status = HealthStatus.degraded })
                      h);
            },
          )
  ]
]

unfoldable pub failover_image : Project → Hub → String
failover_image p h =
    if p.deployment_id == 0 then p.image else elim (deployment_by_id p.deployment_id h) [
      | none ↦ p.image
      | some dep ↦
          if not (str_eq dep.image_name "") && is_underway dep.status
          then dep.image_name
          else p.image
    ]

abbrev pub first_failure : Time → Option Time → Time
first_failure now none = now
first_failure now (some t) = t

-- "App down" is announced once an outage.
unfoldable pub announce_down : Round → Project → Checker → Checker
announce_down w p s =
    if is_some (find p.id s.down)
    then s
    else let since = first_failure w.now (find p.id s.failing_since) in
      record s {
        down = put p.id since s.down;
        hub = notify (Notice.app_down p.id p.node_id) (record s.hub {
          app_outages = open_app_outage (w.outage_id p.id) p.id since s.hub.app_outages;
        });
      }

unfoldable pub mark_failed : Project → Checker → Checker
mark_failed p s = record s {
  hub = routes_changed (
      update_project p.id
        (λ q. record q { status = ProjectStatus.failed; health_status = HealthStatus.unhealthy })
        s.hub);
}

abbrev pub give_up : Round → Project → Checker → Checker
give_up w p s = mark_failed p (announce_down w p s)

abbrev pub failing_over : Project → Migration → Bool
failing_over p m = m.project_id == p.id && is_underway m.status

unfoldable pub restart_or_give_up : Round → Project → String → Checker → Checker
restart_or_give_up w p image s =
    let (taken_over, after) = restart_in_place w p image s in
    if taken_over then after else give_up w p after

abbrev pub migration_to : Round → Project → Node → Migration
migration_to w p n = record {
  id = w.migration_id p.id;
  project_id = p.id;
  container_id = p.container_id;
  source_node_id = p.node_id;
  target_node_id = n.id;
  status = RunStatus.running;
  job_id = (w.supply p.id).job_id;
  created_at = w.now;
  completed_at = none;
}

-- A deploy of the image is queued on the target and recorded as a migration.
unfoldable pub fail_over : Round → Project → String → Node → Checker → Checker
fail_over w p image n s =
    let told = announce_down w p s in
    let (queued, h) = dispatch (w.supply p.id) p n image Trigger.failover told.hub in
    if not queued
    then record told { hub = h }
    else set_health p HealthStatus.migrating
        (record told { hub = record h { migrations = h.migrations ++ migration_to w p n ∷ [] } })

module _ (failover_target : Time → Project → Hub → Option Node) where
  unfoldable pub move_or_restart : Round → Project → Checker → Checker
  move_or_restart w p s =
      let image = failover_image p s.hub in
      if str_eq image ""
      then give_up w p s
      else if p.pinned
      then restart_or_give_up w p image s
      else elim (failover_target w.now p s.hub) [
        | none ↦ restart_or_give_up w p image s
        | some n ↦ fail_over w p image n s
      ]

  unfoldable pub handle_unhealthy_project : Round → Project → Checker → Checker
  handle_unhealthy_project w p s =
      if any (failing_over p) s.hub.migrations || rollback_underway p s.hub
      then s
      else let (rolled_back, after) = try_rollback w p s in
        if rolled_back then after else move_or_restart w p after
