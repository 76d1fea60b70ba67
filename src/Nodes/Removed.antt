-- ===== src/Nodes/Removed.antt =====
-- internal/services/node_service.go: what the removal of a node leaves.
use asdl_hub.Prelude.{◌≡◌, ◌≢◌, false, ◌==◌, All}
use asdl_hub.Models.{Ident}
use asdl_hub.Nodes.{Fleet}

-- No row of the tables that Remove clears belongs to the node, no app runs on it, and it is not the master.
abbrev pub Forgotten : Ident → Fleet → Type 0
Forgotten id f =
    All (λ n. (n.id == id) ≡ false) f.hub.nodes
    × All (λ p. (p.node_id == id) ≡ false) f.hub.projects
    × All (λ j. (j.node_id == id) ≡ false) f.hub.jobs
    × All (λ o. (o.node_id == id) ≡ false) f.outages
    × All (λ h. (h.node_id == id) ≡ false) f.heartbeats
    × All (λ o. (o.node_id == id) ≡ false) f.peers
    × All (λ o. (o.node_id == id) ≡ false) f.ssh_keys
    × All (λ o. (o.node_id == id) ≡ false) f.enrollment_tokens
    × All (λ o. (o.node_id == id) ≡ false) f.containers
    × (id ≢ 0 → f.master_node ≢ id)
