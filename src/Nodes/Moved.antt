-- ===== src/Nodes/Moved.antt =====
-- internal/services/maintenance_service.go: where the apps of a node go when it is taken out of service.
use asdl_hub.Prelude.{◌≡◌, ◌≢◌, ◌⊎◌, true, false, List, ◌++◌, All, In}
use asdl_hub.Models.{Ident, Node, Job, JobType, Project, app_scope, is_available}
use asdl_hub.Hub.{Hub}

-- A last snapshot of an app of the node that is not pinned to it, taken on the node itself.
abbrev pub SnapshotOf : Ident → List Project → Job → Type 0
SnapshotOf i ps j =
    (p : Project) × In p ps
    × (p.node_id ≡ i)
    × (p.pinned ≡ false)
    × (j.node_id ≡ i)
    × (j.kind ≡ JobType.command)
    × (j.scope ≡ app_scope p.id)

-- A job that starts an app of the node, which is not pinned to it, on another node that may take apps.
abbrev pub MovesFrom : Ident → List Project → List Node → Job → Type 0
MovesFrom i ps ns j =
    (p : Project) × (t : Node) × In p ps
    × (p.node_id ≡ i)
    × (p.pinned ≡ false)
    × In t ns
    × (is_available t ≡ true)
    × (t.id ≢ i)
    × (j.node_id ≡ t.id)
    × (j.scope ≡ app_scope p.id)

-- What taking a node out of service queues: moves, and the last snapshots before them.
abbrev pub ClearsOut : Ident → List Project → List Node → Job → Type 0
ClearsOut i ps ns j = MovesFrom i ps ns j ⊎ SnapshotOf i ps j

-- The jobs that are added all have a property, and the nodes stay.
abbrev pub Adds : (Job → Type 0) → Hub → Hub → Type 0
Adds P h k = (js : List Job) × (k.jobs ≡ h.jobs ++ js) × All P js × (k.nodes ≡ h.nodes)
