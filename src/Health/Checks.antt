-- ===== src/Health/Checks.antt =====
-- How many failed checks it takes, and how often an outage is announced.
use asdl_hub.Prelude.{
  ◌+◌, ◌≤◌, ◌≡◌, refl, sym, ◌∙◌, subst, inl, inr, true, Option, arith, ltb, ==_iff, Bool-cases,
  is_some,
}
use asdl_hub.Prelude.GoMap.{nat_key, find, find-put, find-remove}
use asdl_hub.Models.{Time, Node, Project}
use asdl_hub.Hub.{Hub}
use asdl_hub.Health.{Checker, Round, count_of, failover_threshold}
use asdl_hub.Health.Unhealthy.{first_failure, announce_down}
use asdl_hub.Health.Rounds.{answered, count_failure, not_answered}

-- The tables in which a restart, a rollback or a failover would show.
pub record SameWork (h k : Hub) : Type 0 where
  pub jobs : k.jobs ≡ h.jobs
  pub deployments : k.deployments ≡ h.deployments
  pub migrations : k.migrations ≡ h.migrations

pub SameWork-trans : (h k l : Hub) → SameWork h k → SameWork k l → SameWork h l
SameWork-trans h k l a b = record {
  jobs = b.jobs ∙ a.jobs;
  deployments = b.deployments ∙ a.deployments;
  migrations = b.migrations ∙ a.migrations;
}

module _ (target : Time → Project → Hub → Option Node) where
  -- Below the threshold a failed check is only counted.
  below_threshold :
      (w : Round) (p : Project) (s : Checker)
      → ltb (count_of p.id s.failures + 1) failover_threshold ≡ true
      → SameWork s.hub (not_answered target w p s).hub
        × (count_of p.id (not_answered target w p s).failures ≤ count_of p.id s.failures + 1)
  unfolding not_answered count_failure
  below_threshold w p s few = (
    record { jobs = ground arith; deployments = ground arith; migrations = ground arith },
    ground (arith, find-put p.id p.id (count_of p.id s.failures + 1) s.failures, ==_iff p.id p.id),
  )

  answered_resets :
      (w : Round) (p : Project) (s : Checker) → count_of p.id (answered w p s).failures ≡ 0
  unfolding answered
  answered_resets w p s = ground (arith, find-remove p.id p.id s.failures, ==_iff p.id p.id)

  -- After a check that was answered, two checks in a row that fail start no job, deployment or
  -- migration.
  pub two_failures_wait :
      (w0 w1 w2 : Round) (p0 p1 p2 : Project) (s : Checker)
      → p1.id ≡ p0.id
      → p2.id ≡ p0.id
      → let up = answered w0 p0 s in
        let after = not_answered target w2 p2 (not_answered target w1 p1 up) in
        (after.hub.jobs ≡ up.hub.jobs)
        × (after.hub.deployments ≡ up.hub.deployments)
        × (after.hub.migrations ≡ up.hub.migrations)
  two_failures_wait w0 w1 w2 p0 p1 p2 s same1 same2 =
      let up = answered w0 p0 s in
      let none_yet : count_of p1.id up.failures ≡ 0 =
        subst (λ i. count_of i up.failures ≡ 0) (sym same1) (answered_resets w0 p0 s) in
      let (first_work, first_count) = below_threshold w1 p1 up (ground (arith, none_yet)) in
      let once = not_answered target w1 p1 up in
      let one_yet : count_of p2.id once.failures ≤ 1 =
        subst (λ i. count_of i once.failures ≤ 1) (same1 ∙ sym same2)
          (ground (arith, none_yet, first_count)) in
      let (second_work, _) = below_threshold w2 p2 once (ground (arith, one_yet)) in
      let work = SameWork-trans up.hub once.hub _ first_work second_work in
      (work.jobs, work.deployments, work.migrations)

announced_known :
    (w : Round) (p : Project) (s : Checker)
    → is_some (find p.id s.down) ≡ true
    → announce_down w p s ≡ s
unfolding announce_down
announced_known w p s known = rw (announce_down, known) refl

known_after :
    (w : Round) (p : Project) (s : Checker) → is_some (find p.id (announce_down w p s).down) ≡ true
unfolding announce_down
known_after w p s = elim (Bool-cases (is_some (find p.id s.down))) [
  | inl known ↦ rw (announce_down, known) known
  | inr new ↦
      rw (announce_down, new)
        (ground (
          arith,
          find-put p.id p.id (first_failure w.now (find p.id s.failing_since)) s.down,
          ==_iff p.id p.id,
        ))
]

-- "App down" is announced, and an outage opened, once: again before the app is back it changes nothing.
pub announced_once :
    (w w' : Round) (p p' : Project) (s : Checker)
    → p'.id ≡ p.id
    → announce_down w' p' (announce_down w p s) ≡ announce_down w p s
announced_once w w' p p' s same =
    announced_known w' p' (announce_down w p s) (
      subst (λ i. is_some (find i (announce_down w p s).down) ≡ true) (sym same)
        (known_after w p s))
