-- ===== src/Nodes/Examples.antt =====
-- Two nodes, of which one goes quiet and is removed.
use asdl_hub.Prelude.{
  ◌+◌, ◌-◌, ◌*◌, ◌≤◌, ◌<◌, ◌≡◌, refl, true, false, none, some, [], ◌∷◌, ◌++◌, map, arith, select,
  update, stable_sort,
}
use asdl_hub.Samples.{sample_node, sample_project}
use asdl_hub.Deploy.Dispatch.{Supply, LastSnapshot, dispatch, queue_snapshots}
use asdl_hub.Deploy.Markers.{codes}
use asdl_hub.Nodes.Maintenance.{set_maintenance, change_maintenance, clear_each, is_container_name}
use asdl_hub.Nodes.Containers.{escape_quotes, shell_quote}
use asdl_hub.Nodes.Quoted.{bare, read_word, shell_quote_read_back}
use asdl_hub.Models.{Ident, Node, second, minute}
use asdl_hub.Hub.{Hub, node_offline}
use asdl_hub.Placement.Examples.{hundredths}
use asdl_hub.Outages.Nodes.{open_outage}
use asdl_hub.Nodes.{Fleet, node_by_address}
use asdl_hub.Nodes.Score.{
  calculate_health_score, memory_penalty, disk_penalty, load_penalty, heartbeat_penalty,
  ping_penalty, wifi_penalty, failure_penalty,
}
use asdl_hub.Nodes.Handlers.{NodeReport, heartbeat, offline_grace, sweep_offline, sweep_each}
use asdl_hub.Nodes.Swept.{goes_offline, offline_notices, sweep_exact}
use asdl_hub.Nodes.Beating.{OnlineSince, sweep_all, beating_stays_online}

abbrev quiet : Node
quiet = record sample_node { id = 2; vpn_ip = 12; last_heartbeat = 90 * minute }

abbrev hub : Hub
hub = record {
  nodes = sample_node ∷ quiet ∷ [];
  jobs = [];
  projects = [];
  deployments = [];
  migrations = [];
  oidc_deployments = [];
  project_plugins = [];
  app_outages = [];
  live_logs = [];
  notices = [];
  route_updates = 0;
}

abbrev fleet : Fleet
fleet = record {
  hub = hub;
  outages = [];
  heartbeats = [];
  peers = record { node_id = 1 } ∷ record { node_id = 2 } ∷ [];
  ssh_keys = [];
  enrollment_tokens = [];
  containers = [];
  master_node = 2;
}

score_of_quiet : calculate_health_score hundredths (91 * minute) quiet ≡ 90
unfolding calculate_health_score memory_penalty disk_penalty load_penalty heartbeat_penalty
    ping_penalty wifi_penalty failure_penalty
score_of_quiet = refl

sweep_exact_example :
    let swept = sweep_offline 1 (100 * minute) 0 fleet in
    (100 * minute - 0 < offline_grace
      → (swept.hub.nodes ≡ fleet.hub.nodes) × (swept.hub.notices ≡ fleet.hub.notices))
    × (offline_grace ≤ 100 * minute - 0
        → (swept.hub.nodes
            ≡ update
                (goes_offline (100 * minute))
                (λ n. record n { online = false })
                fleet.hub.nodes)
          × (swept.hub.notices
              ≡ fleet.hub.notices
                ++ offline_notices (select (goes_offline (100 * minute)) fleet.hub.nodes)))
sweep_exact_example = sweep_exact 1 (100 * minute) 0 fleet (ground arith)

quiet_is_told : (sweep_offline 1 (100 * minute) 0 fleet).hub.notices ≡ node_offline 0 2 ∷ []
unfolding sweep_offline sweep_each open_outage
quiet_is_told = refl

abbrev report : NodeReport
report = record {
  cpu_percent = 100;
  memory_used = 1000;
  disk_used = 10;
  uptime = 6000;
  load_avg_1 = 20;
  ping_latency = 900;
  wifi_signal = 0;
  agent_version = "1.1";
  containers = none;
}

beating_stays_online_example :
    OnlineSince 2
      (100 * minute)
      (sweep_all
        ((1, 100 * minute + 15 * second, 0) ∷ (1, 100 * minute + 80 * second, 0) ∷ [])
        (heartbeat hundredths 12 report (100 * minute) fleet).1).hub.nodes
unfolding node_by_address
beating_stays_online_example =
    beating_stays_online hundredths 12 report (100 * minute) fleet quiet
      ((1, 100 * minute + 15 * second, 0) ∷ (1, 100 * minute + 80 * second, 0) ∷ []) refl
      (omega arith, (omega arith, tt))

abbrev last_data : LastSnapshot
last_data = record { job_id = 60; script = codes "save"; environment = []; saved = true }

abbrev supply : Ident → Supply
supply id = record {
  now = 100 * minute;
  job_id = id + 20;
  deployment_id = id + 30;
  environment = [];
  job_saved = true;
  deployment_saved = true;
  snapshots = last_data ∷ [];
}

abbrev with_app : Hub
with_app = record hub { projects = sample_project ∷ [] }

one_app_moves :
    map
      (λ j. j.node_id)
      (set_maintenance supply sample_node true "ann" (100 * minute) true with_app).1.jobs
    ≡ 1 ∷ 2 ∷ []
unfolding set_maintenance change_maintenance clear_each dispatch queue_snapshots stable_sort
one_app_moves = refl

names : is_container_name (codes "app_1.web") ≡ true
unfolding is_container_name
names = refl

shell_quote_read_back_example :
    read_word bare (shell_quote (codes "it's; reboot") ++ codes " 2>&1")
    ≡ some (codes "it's; reboot", codes " 2>&1")
shell_quote_read_back_example = shell_quote_read_back (codes "it's; reboot") (codes " 2>&1") refl

quoted_name : shell_quote (codes "a'b") ≡ codes "'a'\\''b'"
unfolding shell_quote escape_quotes
quoted_name = refl
