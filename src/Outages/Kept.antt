-- ===== src/Outages/Kept.antt =====
-- What the bookkeeping of node outages keeps: at most one open outage a node.
use asdl_hub.Prelude.{
  ℕ, suc, ◌≤◌, refl, inl, inr, not, Option, none, List, [], ◌∷◌, ◌==◌, Bool-cases, Option-cases,
  length, select, first, any,
}
use asdl_hub.Models.{Ident, Time, Node, NodeOutage}
use asdl_hub.Outages.Open.{add-OneOpen, update-OneOpen}
use asdl_hub.Outages.Nodes.{
  is_open, open_at, over, open_outage, close_each, close_outage, close_if_online,
  close_those_online, close_outages_of_online_nodes, open_those_offline,
  open_outages_for_offline_nodes,
}

abbrev owner : NodeOutage → Ident
owner o = o.node_id

abbrev pub OneOpenEach : List NodeOutage → Type 0
OneOpenEach t = (id : Ident) → length (select (open_at id) t) ≤ 1

open_outage-OneOpen :
    (next_id : Ident) (n : Node) (t : List NodeOutage)
    → OneOpenEach t
    → OneOpenEach (open_outage next_id n t)
unfolding open_outage
open_outage-OneOpen next_id n t one = elim (Bool-cases (any (open_at n.id) t)) [
  | inl already ↦ rw already one
  | inr free ↦ rw free (add-OneOpen owner is_open _ t free one)
]

close_each-OneOpen :
    (now : Time) (uptime : Option ℕ) (os t : List NodeOutage)
    → OneOpenEach t
    → OneOpenEach (close_each now uptime os t)
unfolding close_each
close_each-OneOpen now uptime [] t one = one
close_each-OneOpen now uptime (o ∷ os) t one = close_each-OneOpen now uptime os _ (
    update-OneOpen owner is_open (λ x. x.id == o.id) (over now uptime o) t
      (λ x. ((λ e. cc (e)), refl)) one)

close_those_online-OneOpen :
    (nodes : List Node) (os t : List NodeOutage)
    → OneOpenEach t
    → OneOpenEach (close_those_online nodes os t)
unfolding close_those_online close_if_online close_outage
close_those_online-OneOpen nodes [] t one = one
close_those_online-OneOpen nodes (o ∷ os) t one =
    elim (Option-cases (first (λ n. n.id == o.node_id) nodes)) [
      | inl gone ↦
          rw (close_those_online, close_if_online, gone) (close_those_online-OneOpen nodes os t one)
      | inr (n, found) ↦ elim (Bool-cases n.online) [
        | inl up ↦
            rw (close_those_online, close_if_online, found, up)
              (close_those_online-OneOpen nodes os _
                (close_each-OneOpen _ none (select (open_at o.node_id) t) t one))
        | inr down ↦
            rw (close_those_online, close_if_online, found, down)
              (close_those_online-OneOpen nodes os t one)
      ]
    ]

open_those_offline-OneOpen :
    (next_id : Ident) (ns : List Node) (t : List NodeOutage)
    → OneOpenEach t
    → OneOpenEach (open_those_offline next_id ns t)
unfolding open_those_offline
open_those_offline-OneOpen next_id [] t one = one
open_those_offline-OneOpen next_id (n ∷ ns) t one =
    elim (Bool-cases (not (n.last_heartbeat == 0))) [
      | inl seen ↦
          rw (open_those_offline, seen)
            (open_those_offline-OneOpen (suc next_id) ns _ (open_outage-OneOpen next_id n t one))
      | inr never ↦
          rw (open_those_offline, never) (open_those_offline-OneOpen (suc next_id) ns t one)
    ]

-- A node has at most one open outage, whatever the handlers and the sweeps open and close.
pub node_outages-OneOpenEach :
    (next_id : Ident) (n : Node) (nodes : List Node) (now : Time) (uptime : Option ℕ)
    (t : List NodeOutage)
    → OneOpenEach t
    → OneOpenEach (open_outage next_id n t)
      × OneOpenEach (close_outage n.id now uptime t)
      × OneOpenEach (close_outages_of_online_nodes nodes t)
      × OneOpenEach (open_outages_for_offline_nodes next_id nodes t)
unfolding close_outage close_outages_of_online_nodes open_outages_for_offline_nodes
node_outages-OneOpenEach next_id n nodes now uptime t one = (
  open_outage-OneOpen next_id n t one,
  close_each-OneOpen now uptime (select (open_at n.id) t) t one,
  close_those_online-OneOpen nodes (select is_open t) t one,
  open_those_offline-OneOpen next_id (select (λ m. not m.online) nodes) t one,
)
