-- ===== src/Migrations/Requests.antt =====
-- internal/services/migration_service.go: the request for a move, the moves to the master node, and the
-- pages of the list.
use asdl_hub.Prelude.{
  ℕ, ◌+◌, ◌-◌, ◌*◌, ◌/◌, String, Bool, true, false, ◌&&◌, ◌||◌, not, Option, none, some, List, [],
  ◌∷◌, ltb, ◌==◌, if◌then◌else◌, length, take, drop, select, head, str_eq, stable_sort,
}
use asdl_hub.Models.{Ident, Node, Project, HealthStatus, Migration, is_available}
use asdl_hub.Hub.{Hub, node_by_id, project_by_id, update_project}
use asdl_hub.Migrations.{
  Move, MoveAnswer, project_not_found, image_not_saved, move_between, migrate_to_node,
}

abbrev pub with_image : String → Project → Project
with_image image p = record p { image = image }

abbrev pub from_project : Move → Ident → Project → Hub → MoveAnswer × Hub
from_project w target_id p h = move_between w p (node_by_id p.node_id h) (node_by_id target_id h) h

-- An empty image keeps the app's; `image_saved` is what the database says to a new one.
unfoldable pub migrate_project : Move → Ident → Ident → String → Bool → Hub → MoveAnswer × Hub
migrate_project w project_id target_id image image_saved h = elim (project_by_id project_id h) [
  | none ↦ (project_not_found, h)
  | some p ↦
      if str_eq image ""
      then from_project w target_id p h
      else if not image_saved
      then (image_not_saved, h)
      else from_project w target_id (with_image image p) (update_project p.id (with_image image) h)
]

abbrev is_migrating : HealthStatus → Bool
is_migrating HealthStatus.migrating = true
is_migrating _ = false

-- Of the nodes that may take apps, the first with the best score.
abbrev pub healthiest_but : Ident → List Node → Option Node
healthiest_but id ns = head (
    stable_sort (λ a b. ltb b.health_score a.health_score)
      (select (λ n. is_available n && not (n.id == id)) ns))

abbrev pub enforced_target : Ident → Hub → Option Ident
enforced_target master_id h = elim (node_by_id master_id h) [
  | none ↦ none
  | some m ↦
      if not m.online || m.maintenance
      then elim (healthiest_but master_id h.nodes) [ none ↦ none | some n ↦ some n.id ]
      else some master_id
]

-- The moves run side by side in the source, each by its own reads: here one after another.
unfoldable pub move_each : (Ident → Move) → Ident → List Project → Hub → Hub
move_each w target_id [] h = h
move_each w target_id (p ∷ ps) h =
    move_each w target_id ps (migrate_to_node (w p.id) p.id target_id h).1

abbrev pub move_all_to : (Ident → Move) → Option Ident → Hub → Hub
move_all_to w none h = h
move_all_to w (some target_id) h =
    move_each w target_id
      (select (λ p. not (p.node_id == target_id) && not (is_migrating p.health_status)) h.projects)
      h

unfoldable pub enforce_master_node : (Ident → Move) → Ident → Hub → Hub
enforce_master_node w master_id h =
    if master_id == 0 then h else move_all_to w (enforced_target master_id h) h

-- The page and its size as they are used, from the numbers asked for (0 for a text that is none).
abbrev pub page_number : ℕ → ℕ
page_number page = if ltb page 1 then 1 else page

abbrev pub page_size : ℕ → ℕ
page_size limit = if ltb limit 1 then 20 else if ltb 100 limit then 100 else limit

-- The rows of a page, the newest first, and how many pages there are.
unfoldable pub list_migrations : ℕ → ℕ → Hub → List Migration × ℕ
list_migrations page limit h =
    let size = page_size limit in
    let sorted = stable_sort (λ a b. ltb b.created_at a.created_at) h.migrations in
    (
      take size (drop ((page_number page - 1) * size) sorted),
      (length h.migrations + size - 1) / size,
    )
