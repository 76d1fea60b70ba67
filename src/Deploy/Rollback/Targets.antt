-- ===== src/Deploy/Rollback/Targets.antt =====
-- What a rollback puts back.
use asdl_hub.Prelude.{
  ◌≡◌, refl, sym, ap, subst, inl, inr, Bool, true, false, ◌&&◌, Option, none, some, List, [], ◌∷◌,
  arith, ◌==◌, if◌then◌else◌, Bool-cases, select, head, In, All_of_In, select-In, In-select, str_eq,
  IsSorted, In-of_stable_sort, In-stable_sort, stable_sort-IsSorted,
}
use asdl_hub.Models.{Time, Project, Deployment}
use asdl_hub.Hub.{Hub, deployment_by_id}
use asdl_hub.Deploy.Rollback.{
  newer, newest, ran_before, deployment_before, is_release, just_completed, with_other_image,
  rollback_of, auto_rollback_target, ran_other_image, manual_rollback_target,
}

newer_asym : (a b : Deployment) → newer a b ≡ true → newer b a ≡ false
newer_asym a b h = ground arith

not_newer_trans : (a b c : Deployment) → newer a b ≡ false → newer b c ≡ false → newer a c ≡ false
not_newer_trans a b c h k = ground arith

head_sorted :
    (ds : List Deployment) (d e : Deployment)
    → IsSorted newer ds
    → head ds ≡ some d
    → In e ds
    → (newer e d ≡ false) × In d ds
head_sorted [] d e sorted h m = absurd m
head_sorted (x ∷ ds) d e sorted h m =
    let same : d ≡ x = ground arith in
    (
      subst (λ y. newer e y ≡ false) (sym same)
          (elim m [
            | inl here ↦ ground (arith, ap (λ (y : Deployment). y.created_at) here)
            | inr later ↦ All_of_In (λ y. newer y x ≡ false) e ds later sorted.0
          ]),
      inl same,
    )

head-In : (ds : List Deployment) (d : Deployment) → head ds ≡ some d → In d ds
head-In [] d h = cc (h)
head-In (x ∷ ds) d h = inl (ground arith)

-- The newest of the deployments that pass a test passes it, and none that passes is newer.
newest_lem :
    (p : Deployment → Bool) (h : Hub) (d : Deployment)
    → newest p h ≡ some d
    → In d h.deployments
      × (p d ≡ true)
      × ((e : Deployment) → In e h.deployments → p e ≡ true → newer e d ≡ false)
unfolding newest
newest_lem p h d e =
    let sorted = stable_sort-IsSorted newer newer_asym not_newer_trans (select p h.deployments) in
    let at = In-of_stable_sort newer d (select p h.deployments) (head-In _ d e) in
    let (row, passes) = select-In p h.deployments d at in
    (
      row,
      passes,
      λ o m q.
          (head_sorted _ d o sorted e
            (In-stable_sort newer o (select p h.deployments) (In-select p h.deployments o m q))).0,
    )

other_image_lem :
    (dep : Deployment) (found : Option Deployment) (prev : Deployment)
    → with_other_image dep found ≡ some prev
    → (found ≡ some prev) × (str_eq prev.image_name dep.image_name ≡ false)
other_image_lem dep none prev h = cc (h)
other_image_lem dep (some d) prev h = elim (Bool-cases (str_eq d.image_name dep.image_name)) [
  | inl same ↦ cc (ap (λ b. if b then none else some d) same, h)
  | inr other ↦
      let e : some d ≡ some prev = rw other at h in
      (
        e,
        subst
            (λ (o : Option Deployment). elim o as (λ x. Type 0) [
              | none ↦ Bool
              | some x ↦ str_eq x.image_name dep.image_name ≡ false
            ])
            e other,
      )
]

-- What goes before an automatic rollback: the app's current deployment ended well at most ten minutes ago
-- and was a push or a redeploy.
abbrev pub BadRelease : Time → Project → Hub → Deployment → Type 0
BadRelease now p h dep =
    (deployment_by_id p.deployment_id h ≡ some dep)
    × (just_completed now dep ≡ true)
    × (is_release dep.trigger ≡ true)

rollback_of_lem :
    (now : Time) (h : Hub) (current : Option Deployment) (prev : Deployment)
    → rollback_of now h current ≡ some prev
    → (dep : Deployment) × (current ≡ some dep)
      × (just_completed now dep ≡ true)
      × (is_release dep.trigger ≡ true)
      × (with_other_image dep (deployment_before dep h) ≡ some prev)
rollback_of_lem now h none prev e = cc (e)
rollback_of_lem now h (some dep) prev e =
    elim (Bool-cases (just_completed now dep && is_release dep.trigger)) [
      | inl bad ↦ (dep, refl, ground (arith, bad), ground (arith, bad), rw bad at e)
      | inr good ↦
          cc (ap (λ b. if b then with_other_image dep (deployment_before dep h) else none) good, e)
    ]

-- An app is rolled back on its own only after a release that ended at most ten minutes ago, and then to a
-- deployment of it that completed, with another image, before that release; none that did is newer.
pub auto_rollback_sound :
    (now : Time) (p : Project) (h : Hub) (prev : Deployment)
    → auto_rollback_target now p h ≡ some prev
    → (dep : Deployment) × BadRelease now p h dep
      × In prev h.deployments
      × (ran_before dep prev ≡ true)
      × (str_eq prev.image_name dep.image_name ≡ false)
      × ((d : Deployment) → In d h.deployments → ran_before dep d ≡ true → newer d prev ≡ false)
unfolding auto_rollback_target deployment_before
auto_rollback_sound now p h prev e = elim (Bool-cases (p.deployment_id == 0)) [
  | inl unset ↦ cc (rw (unset, auto_rollback_target) at e)
  | inr set ↦
      let (dep, current, recent, release, back) =
        rollback_of_lem now h (deployment_by_id p.deployment_id h) prev
          (rw (auto_rollback_target, set) at e) in
      let (found, other) = other_image_lem dep (deployment_before dep h) prev back in
      let (row, passes, latest) = newest_lem (ran_before dep) h prev found in
      (dep, (current, recent, release), row, passes, other, latest)
]

-- A rollback by hand goes to a deployment of the app that completed with another image than the one it
-- runs; none that did is newer.
pub manual_rollback_sound :
    (p : Project) (h : Hub) (prev : Deployment)
    → manual_rollback_target p h ≡ some prev
    → In prev h.deployments
      × (ran_other_image p prev ≡ true)
      × ((d : Deployment) → In d h.deployments → ran_other_image p d ≡ true → newer d prev ≡ false)
unfolding manual_rollback_target
manual_rollback_sound p h prev e = newest_lem (ran_other_image p) h prev e
