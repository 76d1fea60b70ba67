-- ===== src/Health.antt =====
-- internal/services/health_service.go: the state of the health checker, and when an app that stops answering
-- is started again on its own node. Who answers a check is an argument (the network).
pub mod Unhealthy
pub mod Rounds
pub mod Restarts
pub mod Pinned
pub mod Failover
pub mod Checks
mod Examples
use asdl_hub.Prelude.{
  ℕ, zero, suc, ◌+◌, ◌-◌, ◌*◌, ◌/◌, ◌%◌, ◌≤◌, ◌<◌, min, max, String, ◌≡◌, refl, sym, ap, ◌∙◌, subst,
  fun_ext, ◌≢◌, ◌↔◌, ◌⊎◌, inl, inr, Bool, true, false, ◌&&◌, ◌||◌, not, Option, none, some, List,
  [], ◌∷◌, ◌++◌, map, append_assoc, append-nil, arith, ltb, leb, ◌==◌, if◌then◌else◌, ltb→lt,
  lt→ltb, leb→le, le→leb, ==_iff, tests, Bool-cases, Option-cases, is_some, length, take, drop,
  get_elem?, select, first, update, any, head, All, In, length-append, length-drop, length-take,
  All_of_In, first-In, first_passes, select-In, In-select, str_eq, str_eq_iff, stable_sort,
  IsSorted, insert_sorted, stable_sort-perm, In-of_stable_sort, In-stable_sort, length-stable_sort,
  stable_sort-IsSorted, In-of_update, In-update, DistinctKeys, row_unique, save_each,
  save_each-select, length-select-update, length-select-update_le,
}
use asdl_hub.Prelude.GoMap.{GoMap, nat_key, find, put, remove}
use asdl_hub.Models.{
  Ident, Time, Text, Node, NodeContainer, Project, ProjectStatus, HealthStatus, Migration,
  RunStatus, Trigger, second, minute, is_underway, text_eq,
}
use asdl_hub.Hub.{Hub, Notice, node_by_id, deployment_by_id, update_project, notify, routes_changed}
use asdl_hub.Outages.Apps.{open_app_outage, close_app_outage}
use asdl_hub.Deploy.Dispatch.{Supply, dispatch}
use asdl_hub.Deploy.Rollback.{auto_rollback_target, rollback_underway}

abbrev pub failover_threshold : ℕ
failover_threshold = 3

abbrev pub startup_grace : ℕ
startup_grace = 3 * minute

abbrev pub agent_report_fresh : ℕ
agent_report_fresh = 60 * second

abbrev pub max_unconfirmed_waits : ℕ
max_unconfirmed_waits = 3

abbrev pub max_in_place_restarts : ℕ
max_in_place_restarts = 2

abbrev pub restart_window : ℕ
restart_window = 30 * minute

abbrev pub recovery_checks : ℕ
recovery_checks = 2

-- HealthService: its counters by project, and the database.
pub record Checker : Type 0 where
  pub failures : GoMap Ident ℕ
  pub down : GoMap Ident Time
  pub failing_since : GoMap Ident Time
  pub unconfirmed : GoMap Ident ℕ
  pub restarts : GoMap Ident (List Time)
  pub recovering : GoMap Ident ℕ
  pub hub : Hub

-- What one round of the checker takes from outside; the identifiers are by project.
pub record Round : Type 0 where
  pub now : Time
  pub supply : Ident → Supply
  pub migration_id : Ident → Ident
  pub outage_id : Ident → Ident
  pub answers : Ident → Bool  -- GET /health of the project ends with a status below 500

-- A map's zero value for a missing key.
abbrev pub count_of : Ident → GoMap Ident ℕ → ℕ
count_of id m = elim (find id m) [ none ↦ 0 | some n ↦ n ]

unfoldable pub in_startup_grace : Time → Time → Bool
in_startup_grace last_deployed now =
    not (last_deployed == 0) && leb last_deployed now && ltb now (last_deployed + startup_grace)

unfoldable pub recent_restarts : List Time → Time → List Time
recent_restarts history now = select (λ t. ltb now (t + restart_window)) history

unfoldable pub restart_allowed : List Time → Time → Bool × List Time
restart_allowed history now =
    let recent = recent_restarts history now in (ltb (length recent) max_in_place_restarts, recent)

unfoldable pub deploy_in_progress : Project → Hub → Bool
deploy_in_progress p h = not (p.deployment_id == 0) && (elim (deployment_by_id p.deployment_id h) [
  | none ↦ false
  | some dep ↦ is_underway dep.status
])

abbrev pub container_of : Project → NodeContainer → Bool
container_of p c = (not (c.project_id == 0) && c.project_id == p.id) || text_eq c.name p.name

unfoldable pub container_confirmed_down : Node → Project → Time → Bool
container_confirmed_down n p now =
    if ltb (n.last_heartbeat + agent_report_fresh) now || length n.containers == 0
    then false
    else elim (first (container_of p) n.containers) [
      | none ↦ true
      | some c ↦ not (str_eq c.state "running")
    ]

abbrev pub set_health : Project → HealthStatus → Checker → Checker
set_health p status s = record s {
  hub = update_project p.id (λ q. record q { health_status = status }) s.hub;
}

abbrev pub history_of : Ident → GoMap Ident (List Time) → List Time
history_of id m = elim (find id m) [ none ↦ [] | some ts ↦ ts ]

-- The part of restartInPlace behind the confirmation.
unfoldable pub restart_confirmed : Round → Project → Node → String → Checker → Bool × Checker
restart_confirmed w p n image s =
    let waits_over = record s { unconfirmed = remove p.id s.unconfirmed } in
    let history = history_of p.id s.restarts in
    let kept = record waits_over {
      restarts = put p.id (recent_restarts history w.now) s.restarts;
    } in
    if not (restart_allowed history w.now).0
    then (false, kept)
    else let (queued, h) = dispatch (w.supply p.id) p n image Trigger.failover s.hub in
      if not queued then (false, record kept { hub = h }) else (
        true,
        set_health p HealthStatus.degraded (record kept {
          restarts = put p.id (recent_restarts history w.now ++ w.now ∷ []) s.restarts;
          hub = h;
        }),
      )

unfoldable pub restart_on : Round → Project → Node → String → Checker → Bool × Checker
restart_on w p n image s =
    if not n.online
    then (false, s)
    else if deploy_in_progress p s.hub
    then (true, s)
    else if container_confirmed_down n p w.now
    then restart_confirmed w p n image s
    else let waits = count_of p.id s.unconfirmed + 1 in
      if leb waits max_unconfirmed_waits
      then (true, record s { unconfirmed = put p.id waits s.unconfirmed })
      else (false, record s { unconfirmed = remove p.id s.unconfirmed })

unfoldable pub restart_in_place : Round → Project → String → Checker → Bool × Checker
restart_in_place w p image s = elim (node_by_id p.node_id s.hub) [
  | none ↦ (false, s)
  | some n ↦ restart_on w p n image s
]

unfoldable pub recovery_reached : GoMap Ident ℕ → Ident → Bool → Bool × GoMap Ident ℕ
recovery_reached counts id answered =
    if not answered
    then (false, remove id counts)
    else if leb recovery_checks (count_of id counts + 1)
    then (true, remove id counts)
    else (false, put id (count_of id counts + 1) counts)
