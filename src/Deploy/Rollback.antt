-- ===== src/Deploy/Rollback.antt =====
-- internal/services/rollback.go: which earlier deployment an app goes back to. Deployments made at one
-- instant are taken in the order of the table.
pub mod Targets
mod Examples
use asdl_hub.Prelude.{
  ℕ, zero, suc, ◌+◌, ◌-◌, ◌*◌, ◌/◌, ◌%◌, ◌≤◌, ◌<◌, min, max, String, ◌≡◌, refl, sym, ap, ◌∙◌, subst,
  fun_ext, ◌≢◌, ◌↔◌, ◌⊎◌, inl, inr, Bool, true, false, ◌&&◌, ◌||◌, not, Option, none, some, List,
  [], ◌∷◌, ◌++◌, map, append_assoc, append-nil, arith, ltb, leb, ◌==◌, if◌then◌else◌, ltb→lt,
  lt→ltb, leb→le, le→leb, ==_iff, tests, Bool-cases, Option-cases, is_some, length, take, drop,
  get_elem?, select, first, update, any, head, All, In, length-append, length-drop, length-take,
  All_of_In, first-In, first_passes, select-In, In-select, str_eq, str_eq_iff, stable_sort,
  IsSorted, insert_sorted, stable_sort-perm, In-of_stable_sort, In-stable_sort, length-stable_sort,
  stable_sort-IsSorted, In-of_update, In-update, DistinctKeys, row_unique, save_each,
  save_each-select, length-select-update, length-select-update_le,
}
use asdl_hub.Models.{
  Ident, Time, Project, Deployment, Trigger, RunStatus, minute, is_run_completed, is_underway,
}
use asdl_hub.Hub.{Hub, deployment_by_id}

abbrev pub bad_release_window : ℕ
bad_release_window = 10 * minute

-- Order("created_at desc")
abbrev pub newer : Deployment → Deployment → Bool
newer a b = ltb b.created_at a.created_at

unfoldable pub newest : (Deployment → Bool) → Hub → Option Deployment
newest p h = head (stable_sort newer (select p h.deployments))

abbrev pub ran_before : Deployment → Deployment → Bool
ran_before dep d =
    d.project_id == dep.project_id
    && is_run_completed d.status
    && not (d.id == dep.id)
    && ltb d.created_at dep.created_at
    && not (str_eq d.image_name "")

unfoldable pub deployment_before : Deployment → Hub → Option Deployment
deployment_before dep h = newest (ran_before dep) h

abbrev pub is_release : Trigger → Bool
is_release Trigger.ci = true
is_release Trigger.manual = true
is_release _ = false

-- Completed, at an instant that is at most the window ago.
abbrev pub just_completed : Time → Deployment → Bool
just_completed now d =
    is_run_completed d.status
    && (elim d.completed_at [ none ↦ false | some t ↦ leb now (t + bad_release_window) ])

abbrev pub with_other_image : Deployment → Option Deployment → Option Deployment
with_other_image dep none = none
with_other_image dep (some prev) = if str_eq prev.image_name dep.image_name then none else some prev

abbrev pub rollback_of : Time → Hub → Option Deployment → Option Deployment
rollback_of now h none = none
rollback_of now h (some dep) =
    if just_completed now dep && is_release dep.trigger
    then with_other_image dep (deployment_before dep h)
    else none

unfoldable pub auto_rollback_target : Time → Project → Hub → Option Deployment
auto_rollback_target now p h =
    if p.deployment_id == 0 then none else rollback_of now h (deployment_by_id p.deployment_id h)

abbrev pub ran_other_image : Project → Deployment → Bool
ran_other_image p d =
    d.project_id == p.id
    && is_run_completed d.status
    && not (str_eq d.image_name "")
    && not (str_eq d.image_name p.image)

unfoldable pub manual_rollback_target : Project → Hub → Option Deployment
manual_rollback_target p h = newest (ran_other_image p) h

abbrev pub is_rollback : Trigger → Bool
is_rollback Trigger.rollback = true
is_rollback _ = false

unfoldable pub rollback_underway : Project → Hub → Bool
rollback_underway p h = not (p.deployment_id == 0) && (elim (deployment_by_id p.deployment_id h) [
  | none ↦ false
  | some dep ↦ is_rollback dep.trigger && is_underway dep.status
])
