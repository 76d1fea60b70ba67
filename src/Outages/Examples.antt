-- ===== src/Outages/Examples.antt =====
-- Two nodes that went down: node 1 is back, node 2 is not; and stretches in a window of twelve minutes.
use asdl_hub.Prelude.{◌+◌, ◌*◌, ◌≡◌, refl, inl, inr, false, none, some, List, [], ◌∷◌, arith, In}
use asdl_hub.Samples.{sample_node}
use asdl_hub.Models.{Node, NodeOutage, OutageCause, minute}
use asdl_hub.Outages.Nodes.{
  open_outage, close_each, close_outage, close_if_online, close_those_online,
  close_outages_of_online_nodes, open_outages_for_offline_nodes, outage_cause,
}
use asdl_hub.Outages.Kept.{node_outages-OneOpenEach}
use asdl_hub.Outages.Uptime.{Stretch, clipped, total_down, down_time, uptime_percent}
use asdl_hub.Outages.Instants.{Disjoint, covered, count, down_time_counts}
use asdl_hub.Placement.Examples.{hundredths}
use asdl_hub.Outages.Kept as Kept

abbrev gone : Node
gone = record sample_node { id = 2; vpn_ip = 12; online = false; last_heartbeat = 90 * minute }

abbrev nodes : List Node
nodes = sample_node ∷ gone ∷ []

abbrev quiet : NodeOutage
quiet = record {
  id = 1;
  node_id = 1;
  started_at = 90 * minute;
  ended_at = none;
  seconds = 0;
  cause = OutageCause.no_cause;
  wifi_at_start = 0;
  ping_at_start = 1000;
  planned = false;
}

abbrev still_quiet : NodeOutage
still_quiet = record quiet { id = 2; node_id = 2 }

abbrev table : List NodeOutage
table = quiet ∷ still_quiet ∷ []

nodes_one : Kept.OneOpenEach table
nodes_one id = ground arith

node_outages-OneOpenEach_example :
    Kept.OneOpenEach (open_outage 3 gone table)
    × Kept.OneOpenEach (close_outage 2 (100 * minute) (some 50) table)
    × Kept.OneOpenEach (close_outages_of_online_nodes nodes table)
    × Kept.OneOpenEach (open_outages_for_offline_nodes 3 nodes table)
node_outages-OneOpenEach_example =
    node_outages-OneOpenEach 3 gone nodes (100 * minute) (some 50) table nodes_one

one_left : In still_quiet (close_outages_of_online_nodes nodes table)
unfolding close_outages_of_online_nodes close_those_online close_if_online close_outage close_each
    outage_cause
one_left = inr (inl refl)

abbrev stretches : List Stretch
stretches = (10 * minute, none) ∷ (1 * minute, some (2 * minute)) ∷ []

apart : Disjoint (0 + 12 * minute) stretches
apart = ((λ t h. ground (arith, h)), ((λ t h. refl), tt))

down_time_counts_example :
    down_time stretches 0 (0 + 12 * minute)
    ≡ count (covered (0 + 12 * minute) stretches) 0 (12 * minute)
down_time_counts_example = down_time_counts stretches 0 (12 * minute) apart

three_minutes_down : down_time stretches 0 (12 * minute) ≡ 3 * minute
unfolding down_time total_down clipped
three_minutes_down = refl

three_quarters : uptime_percent hundredths (λ x. x) stretches 0 (12 * minute) ≡ 7500
unfolding uptime_percent down_time total_down clipped
three_quarters = refl
