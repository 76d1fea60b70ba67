-- ===== src/Health/Restarts.antt =====
-- restartInPlace: when an app is started again on its own node, and how often.
use asdl_hub.Prelude.{
  ◌≤◌, ◌<◌, String, ◌≡◌, refl, ◌≢◌, inl, inr, true, false, some, List, [], ◌∷◌, ◌++◌, arith, ltb,
  ltb→lt, Bool-cases, Option-cases, length, length-append,
}
use asdl_hub.Prelude.GoMap.{GoMap, nat_key, put, find-put}
use asdl_hub.Models.{Ident, Time, Node, Project, Trigger}
use asdl_hub.Hub.{node_by_id}
use asdl_hub.Deploy.Dispatch.{dispatch}
use asdl_hub.Health.{
  Checker, Round, history_of, recent_restarts, restart_allowed, max_in_place_restarts,
  deploy_in_progress, container_confirmed_down, restart_confirmed, restart_on, restart_in_place,
}

-- No project has more than two restarts on record.
abbrev pub AtMostTwo : Checker → Type 0
AtMostTwo s = (id : Ident) → length (history_of id s.restarts) ≤ max_in_place_restarts

length-recent : (ts : List Time) (now : Time) → length (recent_restarts ts now) ≤ length ts
unfolding recent_restarts
length-recent [] now = omega arith
length-recent (t ∷ ts) now = ground (arith, length-recent ts now)

history-put :
    (id k : Ident) (ts : List Time) (m : GoMap Ident (List Time))
    → length ts ≤ max_in_place_restarts
    → length (history_of k m) ≤ max_in_place_restarts
    → length (history_of k (put id ts m)) ≤ max_in_place_restarts
history-put id k ts m short old = ground (arith, find-put id k ts m)

module _ (w : Round) (p : Project) (n : Node) (image : String) (s : Checker)
    (few : AtMostTwo s) where
  restart_confirmed-AtMostTwo : AtMostTwo (restart_confirmed w p n image s).1
  unfolding restart_confirmed restart_allowed
  restart_confirmed-AtMostTwo id =
      let history = history_of p.id s.restarts in
      let short : length (recent_restarts history w.now) ≤ max_in_place_restarts =
        ground (arith, length-recent history w.now, few p.id) in
      let kept = history-put p.id id (recent_restarts history w.now) s.restarts short (few id) in
      elim (Bool-cases (ltb (length (recent_restarts history w.now)) max_in_place_restarts)) [
        | inl room ↦
            elim (Bool-cases (dispatch (w.supply p.id) p n image Trigger.failover s.hub).0) [
              | inl queued ↦
                  rw (restart_confirmed, restart_allowed, room, queued)
                    (history-put p.id id (recent_restarts history w.now ++ w.now ∷ []) s.restarts
                      (ground (arith, length-append (recent_restarts history w.now) (w.now ∷ [])))
                      (few id))
              | inr lost ↦ rw (restart_confirmed, restart_allowed, room, lost) kept
            ]
        | inr spent ↦ rw (restart_confirmed, restart_allowed, spent) kept
      ]

  restart_on-AtMostTwo : AtMostTwo (restart_on w p n image s).1
  unfolding restart_on
  restart_on-AtMostTwo id = ground (arith, restart_confirmed-AtMostTwo id, few id)

-- A restart in place leaves at most two restarts of each app on record, if there were no more before.
pub restart_in_place-AtMostTwo :
    (w : Round) (p : Project) (image : String) (s : Checker)
    → AtMostTwo s
    → AtMostTwo (restart_in_place w p image s).1
unfolding restart_in_place
restart_in_place-AtMostTwo w p image s few id = elim (Option-cases (node_by_id p.node_id s.hub)) [
  | inl gone ↦ rw (restart_in_place, gone) (few id)
  | inr (n, found) ↦ rw (restart_in_place, found) (restart_on-AtMostTwo w p n image s few id)
]

-- What is needed for a restart.
abbrev pub MayRestart : Round → Project → Checker → Node → Type 0
MayRestart w p s n =
    (node_by_id p.node_id s.hub ≡ some n)
    × (n.online ≡ true)
    × (deploy_in_progress p s.hub ≡ false)
    × (container_confirmed_down n p w.now ≡ true)
    × (length (recent_restarts (history_of p.id s.restarts) w.now) < max_in_place_restarts)

confirmed_room :
    (w : Round) (p : Project) (n : Node) (image : String) (s : Checker)
    → (restart_confirmed w p n image s).1.hub ≢ s.hub
    → length (recent_restarts (history_of p.id s.restarts) w.now) < max_in_place_restarts
unfolding restart_confirmed restart_allowed
confirmed_room w p n image s changed =
    elim (Bool-cases
      (ltb (length (recent_restarts (history_of p.id s.restarts) w.now)) max_in_place_restarts)) [
        | inl room ↦ ltb→lt _ _ room
        | inr spent ↦ absurd (changed (rw (restart_confirmed, restart_allowed, spent) refl))
      ]

unconfirmed_waits :
    (w : Round) (p : Project) (n : Node) (image : String) (s : Checker)
    → container_confirmed_down n p w.now ≡ false
    → (restart_on w p n image s).1.hub ≡ s.hub
unfolding restart_on
unconfirmed_waits w p n image s up = ground arith

-- An app is started again on its node only if the node is online and reports, in a fresh heartbeat, that
-- the app's container does not run, no deploy of the app is under way, and it was started so less than
-- twice in the last half hour.
pub restarts_only_confirmed :
    (w : Round) (p : Project) (image : String) (s : Checker)
    → (restart_in_place w p image s).1.hub ≢ s.hub
    → (n : Node) × MayRestart w p s n
unfolding restart_in_place restart_on container_confirmed_down restart_confirmed dispatch
restarts_only_confirmed w p image s changed = elim (Option-cases (node_by_id p.node_id s.hub)) [
  | inl gone ↦ absurd (changed (rw (restart_in_place, gone) refl))
  | inr (n, found) ↦ elim (Bool-cases n.online) [
    | inr off ↦ absurd (changed (rw (restart_in_place, found, restart_on, off) refl))
    | inl on ↦ elim (Bool-cases (deploy_in_progress p s.hub)) [
      | inl busy ↦ absurd (changed (rw (restart_in_place, found, restart_on, on, busy) refl))
      | inr idle ↦ elim (Bool-cases (container_confirmed_down n p w.now)) [
        | inr up ↦
            absurd (changed (rw (restart_in_place, found) (unconfirmed_waits w p n image s up)))
        | inl dead ↦ (
          n,
          (
            found,
            on,
            idle,
            dead,
            confirmed_room w p n image s
                (rw (restart_in_place, found, restart_on, on, idle, dead) at changed),
          ),
        )
      ]
    ]
  ]
]
