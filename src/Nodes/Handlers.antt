-- ===== src/Nodes/Handlers.antt =====
-- internal/services/node_service.go: Register, Heartbeat, the sweep, Remove and GoingAway.
use asdl_hub.Prelude.{
  ℕ, suc, ◌-◌, ◌*◌, String, Bool, true, false, not, Option, none, some, List, [], ◌∷◌, ◌++◌, ltb,
  ◌==◌, if◌then◌else◌, select, first, update, any, str_eq,
}
use asdl_hub.Models.{Ident, Time, Node, Project, NodeContainer, second, minute}
use asdl_hub.Models.Capacity.{recommended_parallel_jobs}
use asdl_hub.Hub.{node_online, node_offline}
use asdl_hub.Placement.{Float}
use asdl_hub.Outages.Nodes.{open_outage, close_outage, close_outages_of_online_nodes}
use asdl_hub.Nodes.{Fleet, Heartbeat, Owned, node_by_address, with_nodes, save_node, tell}
use asdl_hub.Nodes.Score.{calculate_health_score}

pub record Registration : Type 0 where
  pub hostname : String
  pub vpn_ip : Ident
  pub cpu : ℕ
  pub memory_total : ℕ
  pub disk_total : ℕ
  pub capabilities : List String

-- A registration of a node that is known; `now` is when its agent started.
abbrev registered_again : Registration → Time → Node → Node
registered_again req now n = record n {
  hostname = req.hostname;
  cpu = req.cpu;
  memory_total = req.memory_total;
  disk_total = req.disk_total;
  capabilities = req.capabilities;
  agent_started_at = some now;
  going_away_at = none;
  parallel_jobs =
      if n.parallel_jobs == 0
      then recommended_parallel_jobs req.cpu req.memory_total
      else n.parallel_jobs;
  online = true;
  last_heartbeat = now;
}

abbrev new_node : Ident → Ident → Registration → Time → Node
new_node id addr req now = record {
  id = id;
  hostname = req.hostname;
  vpn_ip = addr;
  cpu = req.cpu;
  memory_total = req.memory_total;
  memory_used = 0;
  disk_total = req.disk_total;
  disk_used = 0;
  online = true;
  last_heartbeat = now;
  capabilities = req.capabilities;
  uptime = 0;
  created_at = now;
  health_score = 0;
  last_check = 0;
  failure_count = 0;
  ping_latency = 0;
  wifi_signal = 0;
  load_avg_1 = 0;
  agent_version = "";
  maintenance = false;
  maintenance_since = none;
  maintenance_by = "";
  containers = [];
  parallel_jobs = recommended_parallel_jobs req.cpu req.memory_total;
  agent_started_at = some now;
  going_away_at = none;
}

-- A node that was offline is back: it is announced, and its outage ends.
abbrev pub back_online : Time → Option ℕ → Node → Fleet → Fleet
back_online now uptime n f =
    let told = tell (node_online 0 n.id) f in
    if n.online then f else record told { outages = close_outage n.id now uptime told.outages }

abbrev pub first_address : Ident → Ident → Ident
first_address a b = if a == 0 then b else a

-- `source` is the address of the connection, `client` that which the web server reports; `id` is new.
unfoldable pub register : Ident → Ident → Ident → Registration → Time → Fleet → Option Node × Fleet
register id source client req now f =
    let addr = first_address req.vpn_ip (first_address source client) in
    let made = new_node id addr req now in
    if addr == 0 then (none, f) else elim (first (λ n. n.vpn_ip == addr) f.hub.nodes) [
      | none ↦ (some made, with_nodes (λ ns. ns ++ made ∷ []) f)
      | some n ↦
          let again = registered_again req now n in
          (some again, save_node again (back_online now none n f))
    ]

pub record NodeReport : Type 0 where
  pub cpu_percent : ℕ
  pub memory_used : ℕ
  pub disk_used : ℕ
  pub uptime : ℕ
  pub load_avg_1 : ℕ
  pub ping_latency : ℕ
  pub wifi_signal : ℕ
  pub agent_version : String
  pub containers : Option (List NodeContainer)

-- What is reported always, and what an older agent leaves out.
abbrev pub as_reported : NodeReport → Time → Node → Node
as_reported req now n = record n {
  online = true;
  last_heartbeat = now;
  uptime = req.uptime;
  memory_used = req.memory_used;
  disk_used = req.disk_used;
  load_avg_1 = req.load_avg_1;
  ping_latency = req.ping_latency;
  wifi_signal = req.wifi_signal;
  agent_version = if str_eq req.agent_version "" then n.agent_version else req.agent_version;
  containers = elim req.containers [ none ↦ n.containers | some cs ↦ cs ];
}

abbrev heartbeat_of : NodeReport → Time → Node → Heartbeat
heartbeat_of req now n = record {
  node_id = n.id;
  cpu_percent = req.cpu_percent;
  memory_used = req.memory_used;
  memory_total = n.memory_total;
  disk_used = req.disk_used;
  disk_total = n.disk_total;
  load_avg_1 = req.load_avg_1;
  uptime = req.uptime;
  timestamp = now;
}

-- recordHeartbeat: the row of the node is rewritten, or made.
unfoldable pub record_heartbeat : Heartbeat → List Heartbeat → List Heartbeat
record_heartbeat hb t =
    if any (λ h. h.node_id == hb.node_id) t
    then update (λ h. h.node_id == hb.node_id) (λ h. hb) t
    else t ++ hb ∷ []

module _ {F : Type 0} (float : Float F) where
  abbrev pub scored : Time → Node → Node
  scored now n = record n { health_score = calculate_health_score float now n; last_check = now }

  -- Whether the node is in maintenance, if the address is a node's.
  unfoldable pub heartbeat : Ident → NodeReport → Time → Fleet → Option Bool × Fleet
  heartbeat addr req now f = elim (node_by_address addr f) [
    | none ↦ (none, f)
    | some n ↦
        let saved =
          save_node (scored now (as_reported req now n)) (back_online now (some req.uptime) n f) in
        (
          some n.maintenance,
          record saved { heartbeats = record_heartbeat (heartbeat_of req now n) saved.heartbeats },
        )
  ]

abbrev pub offline_grace : Time
offline_grace = 2 * minute

abbrev pub heartbeat_timeout : Time
heartbeat_timeout = 90 * second

abbrev pub is_silent : Time → Node → Bool
is_silent now n = ltb heartbeat_timeout (now - n.last_heartbeat)

-- A node that was read as online and is silent; the outage gets the identifier `next_id`.
abbrev pub mark_offline : Ident → Node → Fleet → Fleet
mark_offline next_id n f =
    let gone : Node = record n { online = false } in
    let saved = save_node gone f in
    tell (node_offline 0 n.id) (record saved { outages = open_outage next_id gone saved.outages })

unfoldable pub sweep_each : Ident → Time → List Node → Fleet → Fleet
sweep_each next_id now [] f = f
sweep_each next_id now (n ∷ ns) f =
    sweep_each (suc next_id) now ns (if is_silent now n then mark_offline next_id n f else f)

unfoldable pub sweep_offline : Ident → Time → Time → Fleet → Fleet
sweep_offline next_id now started f =
    let closed : Fleet = record f {
      outages = close_outages_of_online_nodes f.hub.nodes f.outages;
    } in
    if ltb (now - started) offline_grace
    then closed
    else sweep_each next_id now (select (λ n. n.online) closed.hub.nodes) closed

pub data Removal : Type 0 where
  node_not_found still_runs delete_failed removed : Removal

abbrev pub not_of : Ident → Owned → Bool
not_of id o = not (o.node_id == id)

-- Everything that is recorded against a node goes, then the node itself if the database allows it.
abbrev pub purge : Ident → Bool → Fleet → Fleet
purge id deleted f = record f {
  hub = record f.hub {
    jobs = select (λ j. not (j.node_id == id)) f.hub.jobs;
    nodes = if deleted then select (λ n. not (n.id == id)) f.hub.nodes else f.hub.nodes;
  };
  outages = select (λ o. not (o.node_id == id)) f.outages;
  heartbeats = select (λ h. not (h.node_id == id)) f.heartbeats;
  peers = select (not_of id) f.peers;
  ssh_keys = select (not_of id) f.ssh_keys;
  enrollment_tokens = select (not_of id) f.enrollment_tokens;
  containers = select (not_of id) f.containers;
  master_node = if f.master_node == id then 0 else f.master_node;
}

abbrev pub runs_on : Ident → Project → Bool
runs_on id p = p.node_id == id

-- `deleted` is whether the database deletes the row of the node.
unfoldable pub remove_node : Ident → Bool → Fleet → Removal × Fleet
remove_node id deleted f = elim (first (λ n. n.id == id) f.hub.nodes) [
  | none ↦ (node_not_found, f)
  | some n ↦
      if any (runs_on n.id) f.hub.projects
      then (still_runs, f)
      else (if deleted then removed else delete_failed, purge n.id deleted f)
]

unfoldable pub going_away : Ident → Time → Fleet → Bool × Fleet
going_away addr now f = elim (node_by_address addr f) [
  | none ↦ (false, f)
  | some n ↦
      (true, with_nodes (update (λ x. x.id == n.id) (λ x. record x { going_away_at = some now })) f)
]
