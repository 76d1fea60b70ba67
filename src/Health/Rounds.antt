-- ===== src/Health/Rounds.antt =====
-- internal/services/health_service.go, checkAllProjects: one round of the health checker, over the failed
-- projects and then over the running ones.
use asdl_hub.Prelude.{
  ◌+◌, Bool, true, false, ◌&&◌, ◌||◌, not, Option, none, some, List, [], ◌∷◌, map, ltb,
  if◌then◌else◌, is_some, select, any,
}
use asdl_hub.Prelude.GoMap.{GoMap, nat_key, find, put, remove}
use asdl_hub.Models.{
  Ident, Time, Node, Project, ProjectStatus, HealthStatus, is_project_running, is_project_failed,
}
use asdl_hub.Hub.{Hub, Notice, node_by_id, update_project, notify, routes_changed}
use asdl_hub.Outages.Apps.{close_app_outage, open_app_outages}
use asdl_hub.Health.{
  Checker, Round, count_of, failover_threshold, in_startup_grace, set_health, recovery_reached,
}
use asdl_hub.Health.Unhealthy.{first_failure, failing_over, handle_unhealthy_project}

abbrev pub is_healthy : HealthStatus → Bool
is_healthy HealthStatus.healthy = true
is_healthy _ = false

abbrev pub is_degraded : HealthStatus → Bool
is_degraded HealthStatus.degraded = true
is_degraded _ = false

-- checkProjectHealth and checkHealthOn: a node that is gone or offline answers nothing.
unfoldable pub check_project_health : Round → Project → Hub → Bool
check_project_health w p h = elim (node_by_id p.node_id h) [
  | none ↦ false
  | some n ↦ n.online && w.answers p.id
]

-- The end of an outage: it is closed, and "back up" is announced.
abbrev pub back_up : Round → Project → Checker → Checker
back_up w p s = record s {
  down = remove p.id s.down;
  hub =
      notify (Notice.app_recovered p.id p.node_id)
        (record s.hub { app_outages = close_app_outage p.id w.now s.hub.app_outages });
}

-- A project that answers: its counters are cleared, and an outage that was announced ends.
unfoldable pub answered : Round → Project → Checker → Checker
answered w p s =
    let cleared = record s {
      failures = remove p.id s.failures;
      failing_since = remove p.id s.failing_since;
      unconfirmed = remove p.id s.unconfirmed;
    } in
    let marked =
      if is_healthy p.health_status then cleared else set_health p HealthStatus.healthy cleared in
    if is_some (find p.id s.down) then back_up w p marked else marked

-- One more failed check is counted; the run began now if none was counted before.
unfoldable pub count_failure : Round → Project → Checker → Checker
count_failure w p s = record s {
  failures = put p.id (count_of p.id s.failures + 1) s.failures;
  failing_since = put p.id (first_failure w.now (find p.id s.failing_since)) s.failing_since;
}

module _ (failover_target : Time → Project → Hub → Option Node) where
  unfoldable pub not_answered : Round → Project → Checker → Checker
  not_answered w p s =
      if in_startup_grace p.last_deployed w.now
      then (if is_degraded p.health_status then s else set_health p HealthStatus.degraded s)
      else if ltb (count_of p.id s.failures + 1) failover_threshold
      then set_health p HealthStatus.degraded (count_failure w p s)
      else let counted = count_failure w p s in
        handle_unhealthy_project failover_target w p
          (record counted { failures = remove p.id counted.failures })

  -- All projects are checked before any result is acted on.
  unfoldable pub act_on_each : Round → List (Project × Bool) → Checker → Checker
  act_on_each w [] s = s
  act_on_each w ((p, healthy) ∷ rest) s =
      act_on_each w rest (if healthy then answered w p s else not_answered w p s)

  -- A failed project whose node is down is moved once a node can take it.
  unfoldable pub retry_failover : Round → Project → Checker → Checker
  retry_failover w p s =
      if p.pinned
        || (elim (node_by_id p.node_id s.hub) [ none ↦ false | some n ↦ n.online ])
        || any (failing_over p) s.hub.migrations
        || not (is_some (failover_target w.now p s.hub))
      then s
      else handle_unhealthy_project failover_target w p s

  unfoldable pub recover_one : Round → Project → Checker → Checker
  recover_one w p s =
      let (recovered, counts) =
        recovery_reached s.recovering p.id (check_project_health w p s.hub) in
      let counted = record s { recovering = counts } in
      if not recovered
      then retry_failover w p counted
      else back_up w p (record counted {
        hub = routes_changed (
            update_project p.id
              (λ q. record q {
                status = ProjectStatus.running;
                health_status = HealthStatus.healthy;
              })
              counted.hub);
      })

  unfoldable pub recover_each : Round → List Project → Checker → Checker
  recover_each w [] s = s
  recover_each w (p ∷ ps) s = recover_each w ps (recover_one w p s)

  unfoldable pub recover_failed : Round → Checker → Checker
  recover_failed w s = recover_each w (select (λ p. is_project_failed p.status) s.hub.projects) s

  unfoldable pub check_running : Round → Checker → Checker
  check_running w s =
      act_on_each w
        (map (λ p. (p, check_project_health w p s.hub))
          (select (λ p. is_project_running p.status) s.hub.projects))
        s

  unfoldable pub check_all_projects : Round → Checker → Checker
  check_all_projects w s = check_running w (recover_failed w s)

-- outagesLoaded, once: the outages that were open when the Hub started. An app already known stays.
unfoldable pub load_outages : GoMap Ident Time → Checker → Checker
load_outages [] s = s
load_outages ((id, since) ∷ rest) s =
    load_outages rest
      (if is_some (find id s.down) then s else record s { down = put id since s.down })

unfoldable pub load_open_outages : Checker → Checker
load_open_outages s = load_outages (open_app_outages s.hub.app_outages) s
