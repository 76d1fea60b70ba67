-- ===== src/Jobs/Complete/Outcome.antt =====
-- What the end of a deploy does to the projects.
use asdl_hub.Prelude.{
  String, ◌≡◌, refl, sym, ap, ◌∙◌, subst, ◌≢◌, inl, inr, Bool, true, false, ◌&&◌, ◌||◌, Option,
  none, some, List, [], ◌∷◌, ◌++◌, map, arith, ◌==◌, if◌then◌else◌, ==_iff, Option-cases, length,
  first, update, In, first-In, first_passes, In-update, DistinctKeys, row_unique,
}
use asdl_hub.Models.{
  Ident, Text, Job, JobStatus, Command, Project, ProjectStatus, HealthStatus, Deployment,
  is_completed,
}
use asdl_hub.Hub.{Hub, update_project, create_job, deployment_by_id}
use asdl_hub.Deploy.Markers.{parse_port_marker, parse_plugin_ports}
use asdl_hub.Jobs.Complete.{
  World, placed, stop_job, remove_stray_copy, deploy_failed, record_port, keeps_copy, place_project,
  record_success, deploy_succeeded, settle, superseded, moved_from,
}
use asdl_hub.Jobs.Complete.Frame.{record_plugin_ports_frame, jobs-deploy_succeeded}

-- Where a project runs, and what.
pub record Placed : Type 0 where
  pub id : Ident
  pub node_id : Ident
  pub image : String
  pub ports : List Text
  pub deployment_id : Ident

abbrev pub placement : Project → Placed
placement p = record {
  id = p.id;
  node_id = p.node_id;
  image = p.image;
  ports = p.ports;
  deployment_id = p.deployment_id;
}

map-update :
    {A B : Type 0} (g : A → B) (p : A → Bool) (f : A → A) (xs : List A)
    → ((x : A) → g (f x) ≡ g x)
    → map g (update p f xs) ≡ map g xs
map-update g p f [] h = refl
map-update g p f (x ∷ xs) h = ground (arith, h x, map-update g p f xs h)

projects-create_job :
    (saved : Bool) (j : Job) (h : Hub) → (create_job saved j h).projects ≡ h.projects
projects-create_job true j h = refl
projects-create_job false j h = refl

projects-remove_stray_copy :
    (w : World) (p : Project) (n : Ident) (h : Hub)
    → (remove_stray_copy w p n h).projects ≡ h.projects
unfolding remove_stray_copy
projects-remove_stray_copy w p n h = ground (arith, projects-create_job w.saved (stop_job w p n) h)

placement-deploy_failed :
    (j : Job) (p : Project) (h : Hub)
    → map placement (deploy_failed j p h).projects ≡ map placement h.projects
unfolding deploy_failed
placement-deploy_failed j p h = ground (
  arith,
  map-update placement (λ q. q.id == p.id)
      (λ q. record q { status = ProjectStatus.failed; health_status = HealthStatus.unhealthy })
      h.projects (λ q. refl),
  map-update placement (λ q. q.id == p.id)
      (λ q. record q { status = ProjectStatus.running; health_status = HealthStatus.unknown })
      h.projects (λ q. refl),
)

-- A row of the project, on the node, with the image and running.
abbrev RunsAs : Project → Ident → String → List Project → Type 0
RunsAs p node image ps =
    (q : Project) × In q ps
    × (q.id ≡ p.id)
    × (q.node_id ≡ node)
    × (q.image ≡ image)
    × (q.status ≡ ProjectStatus.running)

hit : (p q : Project) → q.id ≡ p.id → (q.id == p.id) ≡ true
hit p q e = ground arith

RunsAs-place_project :
    (w : World) (j : Job) (dep : Deployment) (p : Project) (h : Hub)
    → In p h.projects
    → RunsAs p j.node_id dep.image_name (place_project w j dep p h).projects
unfolding place_project
RunsAs-place_project w j dep p h row =
    let here = In-update (λ q. q.id == p.id) (placed w j dep) p h.projects row in
    (placed w j dep p, rw (hit p p refl) at here, refl, refl, refl, refl)

RunsAs-record_port :
    (p : Project) (port : Option Text) (h : Hub) (node : Ident) (image : String)
    → RunsAs p node image h.projects
    → RunsAs p node image (record_port p port h).projects
unfolding record_port
RunsAs-record_port p none h node image r = r
RunsAs-record_port p (some m) h node image (q, row, same, at, of, up) =
    elim (p.auto_port || length p.ports == 0)
      as (λ b.
        RunsAs p node image
          (if b
            then update_project p.id (λ x. record x { ports = m ∷ []; auto_port = true }) h
            else h).projects) [
              | true ↦
                  let here =
                    In-update (λ x. x.id == p.id)
                      (λ x. record x { ports = m ∷ []; auto_port = true }) q h.projects row in
                  (
                    record q { ports = m ∷ []; auto_port = true },
                    rw (hit p q same) at here,
                    same,
                    at,
                    of,
                    up,
                  )
              | false ↦ (q, row, same, at, of, up)
            ]

projects-deploy_succeeded :
    (w : World) (j : Job) (dep : Deployment) (p : Project) (h : Hub)
    → (deploy_succeeded w j dep p h).projects ≡ (record_success w j dep p h).projects
unfolding deploy_succeeded
projects-deploy_succeeded w j dep p h =
    ground
      (arith, projects-create_job w.saved (stop_job w p p.node_id) (record_success w j dep p h))

RunsAs-deploy_succeeded :
    (w : World) (j : Job) (dep : Deployment) (p : Project) (h : Hub)
    → In p h.projects
    → RunsAs p j.node_id dep.image_name (deploy_succeeded w j dep p h).projects
unfolding record_success
RunsAs-deploy_succeeded w j dep p h row =
    let ported =
      RunsAs-record_port p (parse_port_marker j.logs) (place_project w j dep p h) j.node_id
        dep.image_name (RunsAs-place_project w j dep p h row) in
    let (_, _, same) =
      record_plugin_ports_frame p (parse_plugin_ports j.logs)
        (record_port p (parse_port_marker j.logs) (place_project w j dep p h)) in
    subst (RunsAs p j.node_id dep.image_name) (sym (projects-deploy_succeeded w j dep p h ∙ same))
      ported

first_there :
    (i : Ident) (ds : List Deployment) (d : Deployment)
    → In d ds
    → d.id ≡ i
    → first (λ x. x.id == i) ds ≡ none
    → ⊥
first_there i [] d m own e = absurd m
first_there i (x ∷ ds) d (inl same) own e =
    ground (arith, e, own, ap (λ (y : Deployment). y.id) same)
first_there i (x ∷ ds) d (inr m) own e = ground (arith, e, first_there i ds d m own)

-- The query for a deployment finds the row with the identifier.
found_by_id :
    (p : Project) (h : Hub) (d : Deployment)
    → DistinctKeys (λ (x : Deployment). x.id) h.deployments
    → In d h.deployments
    → d.id ≡ p.deployment_id
    → deployment_by_id p.deployment_id h ≡ some d
found_by_id p h d keys m own =
    elim (Option-cases (first (λ x. x.id == p.deployment_id) h.deployments)) [
      | inl nothing ↦ absurd (first_there p.deployment_id h.deployments d m own nothing)
      | inr (y, found) ↦
          let at = first-In (λ x. x.id == p.deployment_id) h.deployments y found in
          let named =
            (==_iff y.id p.deployment_id).0
              (first_passes (λ x. x.id == p.deployment_id) h.deployments y found) in
          let same =
            row_unique (λ (x : Deployment). x.id) y d h.deployments keys at m (named ∙ sym own) in
          found ∙ ap (λ x. some x) same
    ]

module _ (w : World) (j : Job) (dep : Deployment) (p : Project) (h : Hub) where
  keeps_copy_by :
      (d : Deployment)
      → deployment_by_id p.deployment_id h ≡ some d
      → keeps_copy p j.node_id h ≡ (d.node_id == j.node_id)
  unfolding keeps_copy
  keeps_copy_by d found = rw (keeps_copy, found) refl

  -- A deploy that another deploy d has superseded, d being the project's current one, changes no project. It
  -- queues no job if it failed, or if d goes to the node of its job; if it succeeded elsewhere, and the job can
  -- be stored, it queues one: the removal of the project's container, on that node.
  pub superseded_settles :
      (d : Deployment)
      → DistinctKeys (λ (x : Deployment). x.id) h.deployments
      → In d h.deployments
      → d.id ≡ p.deployment_id
      → superseded p dep ≡ true
      → ((settle w j dep p h).projects ≡ h.projects)
        × (is_completed j.status ≡ false → (settle w j dep p h).jobs ≡ h.jobs)
        × (d.node_id ≡ j.node_id → (settle w j dep p h).jobs ≡ h.jobs)
        × (is_completed j.status ≡ true
            → d.node_id ≢ j.node_id
            → w.saved ≡ true
            → (r : Job) × ((settle w j dep p h).jobs ≡ h.jobs ++ r ∷ [])
              × (r.node_id ≡ j.node_id)
              × (r.status ≡ JobStatus.pending)
              × (r.command ≡ Command.remove_project p.id p.name))
  unfolding settle remove_stray_copy
  superseded_settles d keys row own over =
      let kept = keeps_copy_by d (found_by_id p h d keys row own) in
      (
        ground (arith, projects-remove_stray_copy w p j.node_id h),
        (λ failed. ground arith),
        (λ here. ground (arith, kept)),
        (λ good away saved. (stop_job w p j.node_id, ground (arith, kept), refl, refl, refl)),
      )

  -- A deploy that failed leaves every project where it was, with its image and ports.
  pub failed_keeps_placement :
      is_completed j.status ≡ false
      → map placement (settle w j dep p h).projects ≡ map placement h.projects
  unfolding settle
  failed_keeps_placement bad = ground (arith, placement-deploy_failed j p h)

  -- A deploy that succeeded and is still the project's newest puts the project on the job's node with
  -- the deploy's image, marked running; the old copy is queued for removal exactly when the project
  -- ran on another node and the job can be stored.
  pub success_places :
      superseded p dep ≡ false
      → is_completed j.status ≡ true
      → In p h.projects
      → (q : Project) × In q (settle w j dep p h).projects
        × (q.id ≡ p.id)
        × (q.node_id ≡ j.node_id)
        × (q.image ≡ dep.image_name)
        × (q.status ≡ ProjectStatus.running)
        × ((settle w j dep p h).jobs
            ≡ (if moved_from p j && w.saved then h.jobs ++ stop_job w p p.node_id ∷ [] else h.jobs))
  unfolding settle
  success_places newest good row =
      let (q, at, same, node, image, up) = RunsAs-deploy_succeeded w j dep p h row in
      (
        q,
        rw (newest, good) at,
        same,
        node,
        image,
        up,
        rw (newest, good) (jobs-deploy_succeeded w j dep p h),
      )
