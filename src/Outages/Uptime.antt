-- ===== src/Outages/Uptime.antt =====
-- internal/services/node_uptime.go and status_page.go: the share of a window in which a node, or an app, was
-- not in an outage, and how the status page sums up. Numbers of type float64 are the interface Float;
-- `round` is math.Round.
use asdl_hub.Prelude.{
  ℕ, ◌+◌, ◌-◌, ◌*◌, min, max, Bool, true, false, ◌&&◌, ◌||◌, not, Option, none, some, List, [], ◌∷◌,
  map, ltb, leb, ◌==◌, if◌then◌else◌, length, take, select, head, str_eq, stable_sort,
}
use asdl_hub.Models.{Ident, Time, Node, NodeOutage, Project, ProjectStatus, HealthStatus, hour}
use asdl_hub.Placement.{Float}

-- The stretches that the computation reads: the start, and the end if there is one.
abbrev pub Stretch : Type 0
Stretch = Time × Option Time

-- The part of a stretch that lies in the window; an open one goes on until now.
unfoldable pub clipped : Time → Time → Stretch → ℕ
clipped from now (started, ended) =
    let end : Time = elim ended [ none ↦ now | some e ↦ e ] in min end now - max started from

unfoldable pub total_down : Time → Time → List Stretch → ℕ
total_down from now [] = 0
total_down from now (o ∷ os) = clipped from now o + total_down from now os

-- What counts as down: no more than the window.
unfoldable pub down_time : List Stretch → Time → Time → ℕ
down_time os from now = min (total_down from now os) (now - from)

module _ {F : Type 0} (float : Float F) (round : F → F) where
  unfoldable pub uptime_percent : List Stretch → Time → Time → F
  uptime_percent os from now =
      let down = float.of_nat (down_time os from now) in
      let total = float.of_nat (now - from) in
      if leb now from
      then float.of_nat 100
      else float.div
          (round
            (float.mul (float.sub (float.of_nat 1) (float.div down total)) (float.of_nat 10000)))
          (float.of_nat 100)

abbrev day : Time
day = 24 * hour

-- The window begins no earlier than the tracking and the thing itself.
abbrev pub window : Time → Time → Time → Time → Time
window now tracked_since created_at d = max (max (now - d) tracked_since) created_at

abbrev pub stretch_of : NodeOutage → Stretch
stretch_of o = (o.started_at, o.ended_at)

abbrev pub latest_first : {A : Type 0} → (A → Ident) → List A → List A
latest_first key xs = take 500 (stable_sort (λ a b. ltb (key b) (key a)) xs)

pub record NodeUptime (F : Type 0) : Type 0 where
  pub node_id : Ident
  pub uptime_7d : Option F
  pub uptime_30d : Option F
  pub outages_7d : ℕ
  pub last_outage : Option NodeOutage

abbrev touches : Time → NodeOutage → Bool
touches since o = elim o.ended_at [ none ↦ true | some e ↦ ltb since e ]

abbrev is_empty : {A : Type 0} → List A → Bool
is_empty [] = true
is_empty (x ∷ xs) = false

module _ {F : Type 0} (float : Float F) (round : F → F) where
  unfoldable pub uptime_of : Node → Time → Time → List NodeOutage → NodeUptime F
  uptime_of n now tracked_since t =
      let outages = latest_first (λ (o : NodeOutage). o.id) (select (λ o. o.node_id == n.id) t) in
      let since = λ (d : Time). window now tracked_since n.created_at d in
      let share = λ (d : Time). uptime_percent float round (map stretch_of outages) (since d) now in
      if n.last_heartbeat == 0 && is_empty outages
      then record {
        node_id = n.id;
        uptime_7d = none;
        uptime_30d = none;
        outages_7d = 0;
        last_outage = head outages;
      }
      else record {
        node_id = n.id;
        uptime_7d = some (share (7 * day));
        uptime_30d = some (share (30 * day));
        outages_7d = length (select (touches (now - 7 * day)) outages);
        last_outage = head outages;
      }

pub data AppState : Type 0 where
  operational degraded down : AppState

abbrev pub is_down : Project → Bool
is_down p = elim p.status [
  | ProjectStatus.failed ↦ true
  | _ ↦ elim p.health_status [ HealthStatus.unhealthy ↦ true | _ ↦ false ]
]

abbrev half_well : HealthStatus → Bool
half_well HealthStatus.degraded = true
half_well HealthStatus.migrating = true
half_well _ = false

abbrev not_running : ProjectStatus → Bool
not_running ProjectStatus.running = false
not_running ProjectStatus.failed = true
not_running (ProjectStatus.other s) = not (str_eq s "")

unfoldable pub app_status : Project → AppState
app_status p =
    if is_down p
    then down
    else if half_well p.health_status || not_running p.status
    then degraded
    else operational

abbrev pub is_operational : AppState → Bool
is_operational operational = true
is_operational _ = false

abbrev pub is_out : AppState → Bool
is_out down = true
is_out _ = false

unfoldable pub overall_status : List AppState → AppState
overall_status [] = operational
overall_status (a ∷ others) =
    let apps = a ∷ others in
    if length (select is_operational apps) == length apps
    then operational
    else if length (select is_out apps) == length apps
    then down
    else degraded
