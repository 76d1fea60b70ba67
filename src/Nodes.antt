-- ===== src/Nodes.antt =====
-- internal/services/node_service.go: the nodes as they register, report, go quiet and are removed.
pub mod Score
pub mod Handlers
pub mod Swept
pub mod Removed
pub mod Beating
pub mod Samples
pub mod Maintenance
pub mod Containers
pub mod Quoted
pub mod Moved
mod Examples
use asdl_hub.Prelude.{
  ℕ, zero, suc, ◌+◌, ◌-◌, ◌*◌, ◌/◌, ◌%◌, ◌≤◌, ◌<◌, min, max, String, ◌≡◌, refl, sym, ap, ◌∙◌, subst,
  fun_ext, ◌≢◌, ◌↔◌, ◌⊎◌, inl, inr, Bool, true, false, ◌&&◌, ◌||◌, not, Option, none, some, List,
  [], ◌∷◌, ◌++◌, map, append_assoc, append-nil, arith, ltb, leb, ◌==◌, if◌then◌else◌, ltb→lt,
  lt→ltb, leb→le, le→leb, ==_iff, tests, Bool-cases, Option-cases, is_some, length, take, drop,
  get_elem?, select, first, update, any, head, All, In, length-append, length-drop, length-take,
  All_of_In, first-In, first_passes, select-In, In-select, str_eq, str_eq_iff, stable_sort,
  IsSorted, insert_sorted, stable_sort-perm, In-of_stable_sort, In-stable_sort, length-stable_sort,
  stable_sort-IsSorted, In-of_update, In-update, DistinctKeys, row_unique, save_each,
  save_each-select, length-select-update, length-select-update_le, DistinctKeys-update,
  length-select_unique, length-select_In,
}
use asdl_hub.Models.{Ident, Time, Node, NodeOutage, Project, Job, NodeContainer, second, minute}
use asdl_hub.Hub.{Hub, Notice, notify}

-- A row that matters here only by the node that it belongs to.
pub record Owned : Type 0 where
  pub node_id : Ident

pub record Heartbeat : Type 0 where
  pub node_id : Ident
  pub cpu_percent : ℕ  -- hundredths
  pub memory_used : ℕ
  pub memory_total : ℕ
  pub disk_used : ℕ
  pub disk_total : ℕ
  pub load_avg_1 : ℕ
  pub uptime : ℕ
  pub timestamp : Time

-- The tables that the operations on nodes read or write; `master_node` is the setting, 0 where there is none.
-- The samples of nodes, which Remove leaves, stand on their own (Nodes.Samples).
pub record Fleet : Type 0 where
  pub hub : Hub
  pub outages : List NodeOutage
  pub heartbeats : List Heartbeat
  pub peers : List Owned
  pub ssh_keys : List Owned
  pub enrollment_tokens : List Owned
  pub containers : List Owned
  pub master_node : Ident

-- nodeByAddress: the row with the address of the connection; 0 where there is none.
unfoldable pub node_by_address : Ident → Fleet → Option Node
node_by_address addr f = if addr == 0 then none else first (λ n. n.vpn_ip == addr) f.hub.nodes

abbrev pub with_nodes : (List Node → List Node) → Fleet → Fleet
with_nodes g f = record f { hub = record f.hub { nodes = g f.hub.nodes } }

-- s.db.Save(&node): the row with the identifier becomes the one that is saved.
abbrev pub save_node : Node → Fleet → Fleet
save_node n f = with_nodes (update (λ x. x.id == n.id) (λ x. n)) f

abbrev pub tell : Notice → Fleet → Fleet
tell n f = record f { hub = notify n f.hub }
