-- ===== src/Jobs/Complete/Frame.antt =====
-- What a finished deploy leaves alone: the nodes, and the rows of the job table, to which it only adds.
use asdl_hub.Prelude.{
  ℕ, ◌≡◌, refl, sym, ap, ◌∙◌, Bool, true, false, ◌&&◌, Option, none, some, List, [], ◌∷◌, ◌++◌,
  append_assoc, append-nil, arith, ◌==◌, if◌then◌else◌, first,
}
use asdl_hub.Models.{Ident, Text, Job, Project, Deployment, is_completed}
use asdl_hub.Hub.{Hub, create_job}
use asdl_hub.Deploy.Markers.{parse_port_marker, parse_plugin_ports}
use asdl_hub.Jobs.Complete.{
  World, stop_job, remove_stray_copy, record_deployment, deploy_failed, record_port,
  record_plugin_ports, deploy_succeeded, settle, complete_deploy, complete_migration, project_of,
  superseded, keeps_copy, record_success, place_project, moved_from,
}

-- The nodes are as they were, and jobs were at most added.
pub record Grows (h g : Hub) : Type 0 where
  pub nodes : g.nodes ≡ h.nodes
  pub added : List Job
  pub jobs : g.jobs ≡ h.jobs ++ added

Grows-refl : (h : Hub) → Grows h h
Grows-refl h = record { nodes = refl; added = []; jobs = sym (append-nil h.jobs) }

-- What changes neither table is no growth.
Grows-same : (h g k : Hub) → k.nodes ≡ g.nodes → k.jobs ≡ g.jobs → Grows h g → Grows h k
Grows-same h g k n j r = record { nodes = n ∙ r.nodes; added = r.added; jobs = j ∙ r.jobs }

Grows-create_job : (saved : Bool) (j : Job) (h : Hub) → Grows h (create_job saved j h)
Grows-create_job true j h = record { nodes = refl; added = j ∷ []; jobs = refl }
Grows-create_job false j h = Grows-refl h

Grows-remove_stray_copy :
    (w : World) (p : Project) (n : Ident) (h : Hub) → Grows h (remove_stray_copy w p n h)
unfolding remove_stray_copy
Grows-remove_stray_copy w p n h =
    elim (keeps_copy p n h)
      as (λ b. Grows h (if b then h else create_job w.saved (stop_job w p n) h)) [
        | true ↦ Grows-refl h
        | false ↦ Grows-create_job w.saved (stop_job w p n) h
      ]

pub record_plugin_ports_frame :
    (p : Project) (ports : List (Text × ℕ)) (h : Hub)
    → ((record_plugin_ports p ports h).nodes ≡ h.nodes)
      × ((record_plugin_ports p ports h).jobs ≡ h.jobs)
      × ((record_plugin_ports p ports h).projects ≡ h.projects)
unfolding record_plugin_ports
record_plugin_ports_frame p [] h = (refl, refl, refl)
record_plugin_ports_frame p ((plugin, port) ∷ rest) h = record_plugin_ports_frame p rest _

pub record_port_frame :
    (p : Project) (port : Option Text) (h : Hub)
    → ((record_port p port h).nodes ≡ h.nodes) × ((record_port p port h).jobs ≡ h.jobs)
unfolding record_port
record_port_frame p none h = (refl, refl)
record_port_frame p (some m) h = ground arith

pub record_success_frame :
    (w : World) (j : Job) (dep : Deployment) (p : Project) (h : Hub)
    → ((record_success w j dep p h).nodes ≡ h.nodes) × ((record_success w j dep p h).jobs ≡ h.jobs)
unfolding record_success place_project
record_success_frame w j dep p h =
    let ports = record_port_frame p (parse_port_marker j.logs) (place_project w j dep p h) in
    let plugins =
      record_plugin_ports_frame p (parse_plugin_ports j.logs)
        (record_port p (parse_port_marker j.logs) (place_project w j dep p h)) in
    (plugins.0 ∙ ports.0, plugins.1 ∙ ports.1)

-- A successful deploy adds the removal of the old copy, and that only when the project moved.
pub jobs-deploy_succeeded :
    (w : World) (j : Job) (dep : Deployment) (p : Project) (h : Hub)
    → (deploy_succeeded w j dep p h).jobs
      ≡ (if moved_from p j && w.saved then h.jobs ++ stop_job w p p.node_id ∷ [] else h.jobs)
unfolding deploy_succeeded
jobs-deploy_succeeded w j dep p h = ground (arith, record_success_frame w j dep p h)

nodes-deploy_succeeded :
    (w : World) (j : Job) (dep : Deployment) (p : Project) (h : Hub)
    → (deploy_succeeded w j dep p h).nodes ≡ h.nodes
unfolding deploy_succeeded
nodes-deploy_succeeded w j dep p h = ground (arith, record_success_frame w j dep p h)

Grows-deploy_succeeded :
    (w : World) (j : Job) (dep : Deployment) (p : Project) (h : Hub)
    → Grows h (deploy_succeeded w j dep p h)
Grows-deploy_succeeded w j dep p h = record {
  nodes = nodes-deploy_succeeded w j dep p h;
  added = if moved_from p j && w.saved then stop_job w p p.node_id ∷ [] else [];
  jobs = jobs-deploy_succeeded w j dep p h ∙ either (moved_from p j && w.saved);
}
  where
    either :
        (b : Bool)
        → (if b then h.jobs ++ stop_job w p p.node_id ∷ [] else h.jobs)
          ≡ h.jobs ++ (if b then stop_job w p p.node_id ∷ [] else [])
    either true = refl
    either false = sym (append-nil h.jobs)

pub deploy_failed_frame :
    (j : Job) (p : Project) (h : Hub)
    → ((deploy_failed j p h).nodes ≡ h.nodes) × ((deploy_failed j p h).jobs ≡ h.jobs)
unfolding deploy_failed
deploy_failed_frame j p h = ground arith

Grows-settle :
    (w : World) (j : Job) (dep : Deployment) (p : Project) (h : Hub) → Grows h (settle w j dep p h)
unfolding settle
Grows-settle w j dep p h =
    elim (superseded p dep)
      as (λ b. Grows h (
        if b
        then (if is_completed j.status then remove_stray_copy w p j.node_id h else h)
        else if is_completed j.status
        then deploy_succeeded w j dep p h
        else deploy_failed j p h)) [
          | true ↦
              elim (is_completed j.status)
                as (λ c. Grows h (if c then remove_stray_copy w p j.node_id h else h)) [
                  | true ↦ Grows-remove_stray_copy w p j.node_id h
                  | false ↦ Grows-refl h
                ]
          | false ↦
              elim (is_completed j.status)
                as (λ c.
                  Grows h (if c then deploy_succeeded w j dep p h else deploy_failed j p h)) [
                    | true ↦ Grows-deploy_succeeded w j dep p h
                    | false ↦
                        let (n, m) = deploy_failed_frame j p h in
                        Grows-same h h _ n m (Grows-refl h)
                  ]
        ]

Grows-trans : (h g k : Hub) → Grows h g → Grows g k → Grows h k
Grows-trans h g k r s = record {
  nodes = s.nodes ∙ r.nodes;
  added = r.added ++ s.added;
  jobs = s.jobs ∙ ap (λ js. js ++ s.added) r.jobs ∙ append_assoc h.jobs r.added s.added;
}

pub record_deployment_frame :
    (w : World) (j : Job) (dep : Deployment) (h : Hub)
    → ((record_deployment w j dep h).nodes ≡ h.nodes)
      × ((record_deployment w j dep h).jobs ≡ h.jobs)
      × ((record_deployment w j dep h).projects ≡ h.projects)
unfolding record_deployment
record_deployment_frame w j dep h = (refl, refl, refl)

Grows-record_deployment :
    (w : World) (j : Job) (dep : Deployment) (h : Hub) → Grows h (record_deployment w j dep h)
Grows-record_deployment w j dep h =
    let (n, m, _) = record_deployment_frame w j dep h in Grows-same h h _ n m (Grows-refl h)

pub Grows-complete_deploy : (w : World) (j : Job) (h : Hub) → Grows h (complete_deploy w j h)
unfolding complete_deploy
Grows-complete_deploy w j h =
    elim (first (λ d. d.job_id == j.id) h.deployments)
      as (λ o. Grows h (elim o [
        | none ↦ h
        | some dep ↦
            let recorded = record_deployment w j dep h in
            elim (project_of dep recorded) [ none ↦ recorded | some p ↦ settle w j dep p recorded ]
      ])) [
        | none ↦ Grows-refl h
        | some dep ↦
            let recorded = record_deployment w j dep h in
            elim (project_of dep recorded)
              as (λ o. Grows h (elim o [ none ↦ recorded | some p ↦ settle w j dep p recorded ])) [
                | none ↦ Grows-record_deployment w j dep h
                | some p ↦
                    Grows-trans h recorded _ (Grows-record_deployment w j dep h)
                      (Grows-settle w j dep p recorded)
              ]
      ]

pub complete_migration_frame :
    (w : World) (j : Job) (h : Hub)
    → ((complete_migration w j h).nodes ≡ h.nodes)
      × ((complete_migration w j h).jobs ≡ h.jobs)
      × ((complete_migration w j h).projects ≡ h.projects)
unfolding complete_migration
complete_migration_frame w j h = ground arith
