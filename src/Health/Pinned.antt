-- ===== src/Health/Pinned.antt =====
-- A pinned project stays where it is: whatever is queued for it is queued on its own node.
use asdl_hub.Prelude.{
  String, ◌≡◌, refl, sym, ap, ◌∙◌, inl, inr, true, false, ◌&&◌, ◌||◌, not, Option, some, List, [],
  ◌∷◌, ◌++◌, append_assoc, append-nil, arith, ◌==◌, ==_iff, Bool-cases, Option-cases, any, All,
  first_passes, str_eq,
}
use asdl_hub.Prelude.GoMap.{nat_key}
use asdl_hub.Models.{Ident, Time, Node, Project, Job, Trigger}
use asdl_hub.Hub.{Hub, node_by_id}
use asdl_hub.Deploy.Dispatch.{Supply, deploy_job, dispatch, is_move}
use asdl_hub.Deploy.Rollback.{auto_rollback_target, rollback_underway}
use asdl_hub.Health.{
  Checker, Round, history_of, restart_allowed, container_confirmed_down, deploy_in_progress,
  restart_confirmed, restart_on, restart_in_place,
}
use asdl_hub.Health.Unhealthy.{
  try_rollback, restart_or_give_up, give_up, announce_down, mark_failed, move_or_restart,
  handle_unhealthy_project, failover_image, failing_over,
}

-- The jobs after are the jobs before and then jobs for the node.
pub record AddsOn (node_id : Ident) (before after : Hub) : Type 0 where
  pub added : List Job
  pub jobs : after.jobs ≡ before.jobs ++ added
  pub on_node : All (λ (j : Job). j.node_id ≡ node_id) added

AddsOn-same : (i : Ident) (h k : Hub) → k.jobs ≡ h.jobs → AddsOn i h k
AddsOn-same i h k e = record { added = []; jobs = e ∙ sym (append-nil h.jobs); on_node = tt }

AddsOn-jobs : (i : Ident) (h g k : Hub) → k.jobs ≡ g.jobs → AddsOn i h g → AddsOn i h k
AddsOn-jobs i h g k e r = record { added = r.added; jobs = e ∙ r.jobs; on_node = r.on_node }

All-append :
    (i : Ident) (xs ys : List Job)
    → All (λ (j : Job). j.node_id ≡ i) xs
    → All (λ (j : Job). j.node_id ≡ i) ys
    → All (λ (j : Job). j.node_id ≡ i) (xs ++ ys)
All-append i [] ys a b = b
All-append i (x ∷ xs) ys a b = (a.0, All-append i xs ys a.1 b)

AddsOn-trans : (i : Ident) (h g k : Hub) → AddsOn i h g → AddsOn i g k → AddsOn i h k
AddsOn-trans i h g k r s = record {
  added = r.added ++ s.added;
  jobs = s.jobs ∙ ap (λ js. js ++ s.added) r.jobs ∙ append_assoc h.jobs r.added s.added;
  on_node = All-append i r.added s.added r.on_node s.on_node;
}

dispatch-AddsOn :
    (w : Supply) (p : Project) (n : Node) (image : String) (t : Trigger) (h : Hub) (i : Ident)
    → n.id ≡ i
    → is_move t ≡ false
    → AddsOn i h (dispatch w p n image t h).1
unfolding dispatch
dispatch-AddsOn w p n image t h i same stays = elim (Bool-cases w.job_saved) [
  | inr lost ↦ AddsOn-same i h _ (rw (dispatch, stays, lost) refl)
  | inl queued ↦ elim (Bool-cases w.deployment_saved) [
    | inl recorded ↦ record {
      added = deploy_job w p n image h ∷ [];
      jobs = rw (dispatch, stays, queued, recorded) refl;
      on_node = (same, tt);
    }
    | inr lost ↦ record {
      added = deploy_job w p n image h ∷ [];
      jobs = rw (dispatch, stays, queued, lost) refl;
      on_node = (same, tt);
    }
  ]
]

module _ (w : Round) (p : Project) where
  jobs-give_up : (s : Checker) → (give_up w p s).hub.jobs ≡ s.hub.jobs
  unfolding announce_down mark_failed
  jobs-give_up s = ground arith

  restart_confirmed-AddsOn :
      (n : Node) (image : String) (s : Checker)
      → n.id ≡ p.node_id
      → AddsOn p.node_id s.hub (restart_confirmed w p n image s).1.hub
  unfolding restart_confirmed
  restart_confirmed-AddsOn n image s same =
      let made =
        dispatch-AddsOn (w.supply p.id) p n image Trigger.failover s.hub p.node_id same refl in
      elim (Bool-cases (restart_allowed (history_of p.id s.restarts) w.now).0) [
        | inr spent ↦ AddsOn-same p.node_id s.hub _ (rw (restart_confirmed, spent) refl)
        | inl room ↦
            elim (Bool-cases (dispatch (w.supply p.id) p n image Trigger.failover s.hub).0) [
              | inl queued ↦
                  AddsOn-trans p.node_id s.hub _ _ made
                    (AddsOn-same p.node_id _ _ (rw (restart_confirmed, room, queued) refl))
              | inr lost ↦
                  AddsOn-trans p.node_id s.hub _ _ made
                    (AddsOn-same p.node_id _ _ (rw (restart_confirmed, room, lost) refl))
            ]
      ]

  -- A node that was looked up for the project is the project's.
  node_found : (n : Node) (h : Hub) → node_by_id p.node_id h ≡ some n → n.id ≡ p.node_id
  node_found n h e = (==_iff n.id p.node_id).0 (first_passes (λ m. m.id == p.node_id) h.nodes n e)

  restart_on-AddsOn :
      (n : Node) (image : String) (s : Checker)
      → n.id ≡ p.node_id
      → AddsOn p.node_id s.hub (restart_on w p n image s).1.hub
  unfolding restart_on
  restart_on-AddsOn n image s same =
      let made = restart_confirmed-AddsOn n image s same in
      elim (Bool-cases
        (n.online && not (deploy_in_progress p s.hub) && container_confirmed_down n p w.now)) [
          | inl go ↦ AddsOn-jobs p.node_id s.hub _ _ (ground arith) made
          | inr wait ↦ AddsOn-same p.node_id s.hub _ (ground arith)
        ]

  restart_in_place-AddsOn :
      (image : String) (s : Checker) → AddsOn p.node_id s.hub (restart_in_place w p image s).1.hub
  unfolding restart_in_place
  restart_in_place-AddsOn image s = elim (Option-cases (node_by_id p.node_id s.hub)) [
    | inl gone ↦ AddsOn-same p.node_id s.hub _ (rw (restart_in_place, gone) refl)
    | inr (n, found) ↦
        rw (restart_in_place, found) (restart_on-AddsOn n image s (node_found n s.hub found))
  ]

  restart_or_give_up-AddsOn :
      (image : String) (s : Checker) → AddsOn p.node_id s.hub (restart_or_give_up w p image s).hub
  unfolding restart_or_give_up
  restart_or_give_up-AddsOn image s =
      let made = restart_in_place-AddsOn image s in
      elim (Bool-cases (restart_in_place w p image s).0) [
        | inl up ↦ rw (restart_or_give_up, up) made
        | inr down ↦
            rw (restart_or_give_up, down)
              (AddsOn-trans p.node_id s.hub _ _ made
                (AddsOn-same p.node_id _ _ (jobs-give_up (restart_in_place w p image s).1)))
      ]

  try_rollback-AddsOn : (s : Checker) → AddsOn p.node_id s.hub (try_rollback w p s).1.hub
  unfolding try_rollback
  try_rollback-AddsOn s = elim (Option-cases (auto_rollback_target w.now p s.hub)) [
    | inl nothing ↦ AddsOn-same p.node_id s.hub _ (rw (try_rollback, nothing) refl)
    | inr (prev, back) ↦ elim (Option-cases (node_by_id p.node_id s.hub)) [
      | inl gone ↦ AddsOn-same p.node_id s.hub _ (rw (try_rollback, back, gone) refl)
      | inr (n, found) ↦
          let made =
            dispatch-AddsOn (w.supply p.id) p n prev.image_name Trigger.rollback s.hub p.node_id
              (node_found n s.hub found) refl in
          elim (Bool-cases n.online) [
            | inr off ↦ AddsOn-same p.node_id s.hub _ (rw (try_rollback, back, found, off) refl)
            | inl on ↦ AddsOn-jobs p.node_id s.hub _ _ (ground (arith, back, found)) made
          ]
    ]
  ]

module _ (target : Time → Project → Hub → Option Node) (w : Round) (p : Project)
    (pinned : p.pinned ≡ true) where
  move_or_restart-AddsOn : (s : Checker) → AddsOn p.node_id s.hub (move_or_restart target w p s).hub
  unfolding move_or_restart
  move_or_restart-AddsOn s = elim (Bool-cases (str_eq (failover_image p s.hub) "")) [
    | inl without ↦
        AddsOn-same p.node_id s.hub _ (rw (move_or_restart, without) (jobs-give_up w p s))
    | inr image ↦
        AddsOn-jobs p.node_id s.hub _ _ (ground arith)
          (restart_or_give_up-AddsOn w p (failover_image p s.hub) s)
  ]

  -- However an app that is pinned to its node fails, all the jobs that handling it queues are on that node.
  pub pinned_stays :
      (s : Checker) → AddsOn p.node_id s.hub (handle_unhealthy_project target w p s).hub
  unfolding handle_unhealthy_project
  pinned_stays s =
      let rolled = try_rollback-AddsOn w p s in
      let moved = move_or_restart-AddsOn (try_rollback w p s).1 in
      elim (Bool-cases (any (failing_over p) s.hub.migrations || rollback_underway p s.hub)) [
        | inl waits ↦ AddsOn-same p.node_id s.hub _ (ground arith)
        | inr free ↦ elim (Bool-cases (try_rollback w p s).0) [
          | inl back ↦ AddsOn-jobs p.node_id s.hub _ _ (ground arith) rolled
          | inr none_back ↦
              AddsOn-trans p.node_id s.hub _ _ rolled
                (AddsOn-jobs p.node_id _ _ _ (ground arith) moved)
        ]
      ]
