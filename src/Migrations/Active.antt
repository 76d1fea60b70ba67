-- ===== src/Migrations/Active.antt =====
-- internal/services/migration_service.go: an app has at most one move under way.
use asdl_hub.Prelude.{
  ◌≤◌, String, ◌≡◌, refl, sym, ◌∙◌, subst, inl, inr, Bool, true, false, not, Option, none, some,
  List, [], ◌∷◌, ◌++◌, arith, ◌==◌, if◌then◌else◌, Bool-cases, Option-cases, length, select, any,
  str_eq, length-select-update_le,
}
use asdl_hub.Models.{Ident, Time, Node, Project, Migration, Trigger, is_underway}
use asdl_hub.Hub.{Hub, node_by_id, project_by_id, update_project}
use asdl_hub.Deploy.Dispatch.{
  Supply, dispatch, queue_deploy, prepare_snapshots, prepare_snapshots_frame,
}
use asdl_hub.Deploy.Ports.{fixed_port_clash}
use asdl_hub.Outages.Open.{add-OneOpen}
use asdl_hub.Migrations.{
  Move, active, migrate_to_node, move_between, move_checked, start_migration, record_migration,
  new_migration, answer_of, fail_migration, failed_migration, fail_each, cleanup_stuck_migrations,
  gives_up,
}
use asdl_hub.Migrations.Requests.{
  migrate_project, enforce_master_node, move_each, with_image, enforced_target, move_all_to,
}

abbrev pub OneActive : List Migration → Type 0
OneActive ms = (id : Ident) → length (select (active id) ms) ≤ 1

queue_deploy-migrations :
    (w : Supply) (p : Project) (n : Node) (h : Hub)
    → (queue_deploy w p n p.image Trigger.migration h).1.migrations ≡ h.migrations
queue_deploy-migrations w p n h = elim (Bool-cases (not w.job_saved)) [
  | inl lost ↦ rw lost refl
  | inr kept ↦ elim (Bool-cases (not w.deployment_saved)) [
    | inl lost ↦ rw (kept, lost) refl
    | inr stored ↦ rw (kept, stored) refl
  ]
]

-- A dispatch leaves the migrations as they are.
dispatch-migrations :
    (w : Move) (p : Project) (n : Node) (h : Hub)
    → (dispatch w.supply p n p.image Trigger.migration h).1.migrations ≡ h.migrations
unfolding dispatch
dispatch-migrations w p n h =
    queue_deploy-migrations w.supply p n (prepare_snapshots w.supply p n Trigger.migration h)
    ∙ (prepare_snapshots_frame w.supply p n Trigger.migration h).0

abbrev owner : Migration → Ident
owner m = m.project_id

abbrev under_way : Migration → Bool
under_way m = is_underway m.status

-- A move is recorded only where the app has none.
move_checked-OneActive :
    (w : Move) (p : Project) (s t : Node) (h : Hub)
    → OneActive h.migrations
    → OneActive (move_checked w p s t h).1.migrations
unfolding move_checked start_migration
move_checked-OneActive w p s t h one =
    elim (Bool-cases (not (fixed_port_clash h.projects t p == 0))) [
      | inl clash ↦ rw clash one
      | inr free ↦ rw free (elim (Bool-cases (any (active p.id) h.migrations)) [
        | inl busy ↦ rw busy one
        | inr idle ↦ rw idle (answered _ (started idle))
      ])
    ]
  where
    answered :
        (r : Option Migration × Hub)
        → OneActive r.1.migrations
        → OneActive (answer_of r).1.migrations
    answered (none, k) o = o
    answered (some m, k) o = o

    recorded :
        (k : Hub)
        → k.migrations ≡ h.migrations
        → any (active p.id) h.migrations ≡ false
        → OneActive (record_migration w p (new_migration w p s.id t.id) k).1.migrations
    recorded k same idle = elim (Bool-cases (not w.migration_saved)) [
      | inl lost ↦ rw lost (subst OneActive (sym same) one)
      | inr kept ↦ rw kept (
          subst (λ ms. OneActive (ms ++ new_migration w p s.id t.id ∷ [])) (sym same)
            (add-OneOpen owner under_way (new_migration w p s.id t.id) h.migrations idle one))
    ]

    sent :
        (r : Bool × Hub)
        → r.1.migrations ≡ h.migrations
        → any (active p.id) h.migrations ≡ false
        → OneActive
            (if not r.0
              then (none, r.1)
              else record_migration w p (new_migration w p s.id t.id) r.1).1.migrations
    sent (true, k) same idle = recorded k same idle
    sent (false, k) same idle = subst OneActive (sym same) one

    started :
        any (active p.id) h.migrations ≡ false → OneActive (start_migration w p s t h).1.migrations
    started idle = elim (Bool-cases (str_eq p.image "")) [
      | inl bare ↦ rw (start_migration, bare) one
      | inr image ↦
          rw (start_migration, image)
            (sent (dispatch w.supply p t p.image Trigger.migration h) (dispatch-migrations w p t h)
              idle)
    ]

move_between-OneActive :
    (w : Move) (p : Project) (s t : Option Node) (h : Hub)
    → OneActive h.migrations
    → OneActive (move_between w p s t h).1.migrations
move_between-OneActive w p none t h one = one
move_between-OneActive w p (some s) none h one = one
move_between-OneActive w p (some s) (some t) h one = elim (Bool-cases (s.id == t.id)) [
  | inl same ↦ rw same one
  | inr other ↦ rw other (move_checked-OneActive w p s t h one)
]

pub migrate_to_node-OneActive :
    (w : Move) (project target : Ident) (h : Hub)
    → OneActive h.migrations
    → OneActive (migrate_to_node w project target h).1.migrations
unfolding migrate_to_node
migrate_to_node-OneActive w project target h one = elim (Option-cases (project_by_id project h)) [
  | inl unknown ↦ rw (migrate_to_node, unknown) one
  | inr (p, found) ↦ elim (Bool-cases (p.node_id == target)) [
    | inl there ↦ rw (migrate_to_node, found, there) one
    | inr away ↦
        rw (migrate_to_node, found, away)
          (move_between-OneActive w p (node_by_id p.node_id h) (node_by_id target h) h one)
  ]
]

migrate_project-OneActive :
    (w : Move) (project target : Ident) (image : String) (saved : Bool) (h : Hub)
    → OneActive h.migrations
    → OneActive (migrate_project w project target image saved h).1.migrations
unfolding migrate_project
migrate_project-OneActive w project target image saved h one =
    elim (Option-cases (project_by_id project h)) [
      | inl unknown ↦ rw (migrate_project, unknown) one
      | inr (p, found) ↦ elim (Bool-cases (str_eq image "")) [
        | inl same ↦
            rw (migrate_project, found, same)
              (move_between-OneActive w p (node_by_id p.node_id h) (node_by_id target h) h one)
        | inr new ↦ elim (Bool-cases (not saved)) [
          | inl lost ↦ rw (migrate_project, found, new, lost) one
          | inr kept ↦
              rw (migrate_project, found, new, kept)
                (let k = update_project p.id (with_image image) h in
                  move_between-OneActive w (with_image image p) (node_by_id p.node_id k)
                    (node_by_id target k) k one)
        ]
      ]
    ]

move_each-OneActive :
    (w : Ident → Move) (target : Ident) (ps : List Project) (h : Hub)
    → OneActive h.migrations
    → OneActive (move_each w target ps h).migrations
unfolding move_each
move_each-OneActive w target [] h one = one
move_each-OneActive w target (p ∷ ps) h one =
    move_each-OneActive w target ps _ (migrate_to_node-OneActive (w p.id) p.id target h one)

enforce-OneActive :
    (w : Ident → Move) (master : Ident) (h : Hub)
    → OneActive h.migrations
    → OneActive (enforce_master_node w master h).migrations
unfolding enforce_master_node
enforce-OneActive w master h one = elim (Bool-cases (master == 0)) [
  | inl unset ↦ rw unset one
  | inr named ↦ rw named (to (enforced_target master h))
]
  where
    to : (o : Option Ident) → OneActive (move_all_to w o h).migrations
    to none = one
    to (some target) = move_each-OneActive w target _ h one

fail_each-OneActive :
    (ms : List Migration) (h : Hub) → OneActive h.migrations → OneActive (fail_each ms h).migrations
unfolding fail_each
fail_each-OneActive [] h one = one
fail_each-OneActive (m ∷ ms) h one = fail_each-OneActive ms (fail_migration m h) (λ id. ground (
  arith,
  one id,
  length-select-update_le (active id) (λ x. x.id == m.id) (λ x. failed_migration m) h.migrations
      (λ x i hit now. absurd (ground (arith, now))),
))

-- What changes the migrations: a request for a move, the moves to the master node, and the sweep.
pub data Step (h k : Hub) : Type 0 where
  requested :
      (w : Move) (project target : Ident) (image : String) (saved : Bool)
      → k ≡ (migrate_project w project target image saved h).1
      → Step h k
  moved :
      (w : Move) (project target : Ident) → k ≡ (migrate_to_node w project target h).1 → Step h k
  enforced : (w : Ident → Move) (master : Ident) → k ≡ enforce_master_node w master h → Step h k
  swept : (now : Time) → k ≡ cleanup_stuck_migrations now h → Step h k

pub data Run (h : Hub) : Hub → Type 0 where
  here : Run h h
  next : {k l : Hub} → Run h k → Step k l → Run h l

Step-OneActive : {h k : Hub} → Step h k → OneActive h.migrations → OneActive k.migrations
unfolding cleanup_stuck_migrations
Step-OneActive {h} (requested w project target image saved e) one =
    subst (λ (x : Hub). OneActive x.migrations) (sym e)
      (migrate_project-OneActive w project target image saved h one)
Step-OneActive {h} (moved w project target e) one =
    subst (λ (x : Hub). OneActive x.migrations) (sym e)
      (migrate_to_node-OneActive w project target h one)
Step-OneActive {h} (enforced w master e) one =
    subst (λ (x : Hub). OneActive x.migrations) (sym e) (enforce-OneActive w master h one)
Step-OneActive {h} (swept now e) one =
    subst (λ (x : Hub). OneActive x.migrations) (sym e)
      (fail_each-OneActive (select (gives_up now h) h.migrations) h one)

-- Whatever moves are asked for, for the master node or by a request, and whatever the sweep gives up on, an
-- app has at most one migration under way, if it had no more at first.
pub one_migration_each : {h k : Hub} → Run h k → OneActive h.migrations → OneActive k.migrations
one_migration_each here one = one
one_migration_each (next r s) one = Step-OneActive s (one_migration_each r one)
