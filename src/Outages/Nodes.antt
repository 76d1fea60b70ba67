-- ===== src/Outages/Nodes.antt =====
-- internal/services/node_outages.go: the table of the stretches in which a node sent no heartbeat, with
-- a guess at the cause. A ping is in microseconds.
use asdl_hub.Prelude.{
  ℕ, suc, ◌+◌, ◌-◌, ◌*◌, ◌/◌, Bool, false, ◌&&◌, ◌||◌, not, Option, none, some, List, [], ◌∷◌, ◌++◌,
  ltb, ◌==◌, if◌then◌else◌, is_some, select, first, update, any,
}
use asdl_hub.Models.{Ident, Time, Node, NodeOutage, OutageCause, second, minute}

abbrev pub is_open : NodeOutage → Bool
is_open o = not (is_some o.ended_at)

abbrev pub open_at : Ident → NodeOutage → Bool
open_at id o = o.node_id == id && is_open o

abbrev pub going_away_window : ℕ
going_away_window = 2 * minute

-- The instant at which the agent said that it would stop is less than the window away from the last
-- heartbeat.
unfoldable pub went_away_on_purpose : Node → Bool
went_away_on_purpose n = elim n.going_away_at [
  | none ↦ false
  | some t ↦
      ltb n.last_heartbeat (t + going_away_window) && ltb t (n.last_heartbeat + going_away_window)
]

unfoldable pub open_outage : Ident → Node → List NodeOutage → List NodeOutage
open_outage next_id n t =
    if any (open_at n.id) t
    then t
    else t
      ++ record {
        id = next_id;
        node_id = n.id;
        started_at = n.last_heartbeat;
        ended_at = none;
        seconds = 0;
        cause = OutageCause.no_cause;
        wifi_at_start = n.wifi_signal;
        ping_at_start = n.ping_latency;
        planned = went_away_on_purpose n;
      }
        ∷ []

abbrev pub weak_wifi : ℕ
weak_wifi = 50

abbrev pub slow_ping : ℕ
slow_ping = 100 * 1000

abbrev pub reboot_grace_secs : ℕ
reboot_grace_secs = 30

-- `uptime` is `none` where the source has a negative number: not known.
unfoldable pub outage_cause : NodeOutage → ℕ → Option ℕ → OutageCause
outage_cause o seconds none = OutageCause.no_cause
outage_cause o seconds (some uptime) =
    if ltb (uptime + reboot_grace_secs) seconds
    then OutageCause.reboot
    else if (ltb 0 o.wifi_at_start && ltb o.wifi_at_start weak_wifi)
        || ltb slow_ping o.ping_at_start
    then OutageCause.weak_link
    else OutageCause.connection

-- The row `o` as it was read sets the length and the cause; the row `x` is the one that is written.
abbrev pub over : Time → Option ℕ → NodeOutage → NodeOutage → NodeOutage
over now uptime o x =
    let length_in_seconds = (now - o.started_at) / second in
    record x {
      ended_at = some now;
      seconds = length_in_seconds;
      cause = outage_cause o length_in_seconds uptime;
    }

unfoldable pub close_each : Time → Option ℕ → List NodeOutage → List NodeOutage → List NodeOutage
close_each now uptime [] t = t
close_each now uptime (o ∷ os) t =
    close_each now uptime os (update (λ x. x.id == o.id) (over now uptime o) t)

unfoldable pub close_outage : Ident → Time → Option ℕ → List NodeOutage → List NodeOutage
close_outage node_id now uptime t = close_each now uptime (select (open_at node_id) t) t

-- The outage of a node that is online ended at its last heartbeat, but not before it began.
unfoldable pub close_if_online : List Node → NodeOutage → List NodeOutage → List NodeOutage
close_if_online nodes o t = elim (first (λ n. n.id == o.node_id) nodes) [
  | none ↦ t
  | some n ↦
      if n.online
      then close_outage o.node_id
          (if ltb n.last_heartbeat o.started_at then o.started_at else n.last_heartbeat) none t
      else t
]

unfoldable pub close_those_online : List Node → List NodeOutage → List NodeOutage → List NodeOutage
close_those_online nodes [] t = t
close_those_online nodes (o ∷ os) t = close_those_online nodes os (close_if_online nodes o t)

unfoldable pub close_outages_of_online_nodes : List Node → List NodeOutage → List NodeOutage
close_outages_of_online_nodes nodes t = close_those_online nodes (select is_open t) t

-- The identifiers of new rows are counted on from `next_id`; a zero heartbeat is none.
unfoldable pub open_those_offline : Ident → List Node → List NodeOutage → List NodeOutage
open_those_offline next_id [] t = t
open_those_offline next_id (n ∷ ns) t =
    open_those_offline (suc next_id) ns
      (if not (n.last_heartbeat == 0) then open_outage next_id n t else t)

unfoldable pub open_outages_for_offline_nodes :
    Ident → List Node → List NodeOutage → List NodeOutage
open_outages_for_offline_nodes next_id nodes t =
    open_those_offline next_id (select (λ n. not n.online) nodes) t
