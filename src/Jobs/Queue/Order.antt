-- ===== src/Jobs/Queue/Order.antt =====
-- The order in which a node's jobs start: an idle node takes the oldest, and a job that must run
-- alone is not overtaken.
use asdl_hub.Prelude.{
  ℕ, zero, suc, ◌≡◌, refl, ◌⊎◌, inl, inr, Bool, true, false, ◌&&◌, ◌||◌, some, List, [], ◌∷◌, arith,
  leb, ◌==◌, Option-cases, length, take, select, In, All_of_In, In-select, stable_sort, IsSorted,
  In-stable_sort, stable_sort-IsSorted,
}
use asdl_hub.Models.{Ident, Time, Node, Job, Scope, is_pending, is_logs_follow, is_unscoped}
use asdl_hub.Models.Capacity.{job_limit}
use asdl_hub.Jobs.Queue.{
  holds_node, busy, older, Verdict, verdict, scan, started, hand_out, next_job, pending_of,
}

pub older_asym : (a b : Job) → older a b ≡ true → older b a ≡ false
older_asym a b h = ground arith

pub not_older_trans : (a b c : Job) → older a b ≡ false → older b c ≡ false → older a c ≡ false
not_older_trans a b c h k = ground arith

-- The node's jobs that wait, the longest waiting first.
abbrev waiting : Node → List Job → List Job
waiting n jobs = stable_sort older (select (λ j. j.node_id == n.id && is_pending j.status) jobs)

waiting-IsSorted : (n : Node) (jobs : List Job) → IsSorted older (waiting n jobs)
waiting-IsSorted n jobs = stable_sort-IsSorted older older_asym not_older_trans _

-- Nothing but log streams may start: a job ahead is waiting, a job runs alone, or the node is full.
abbrev shut : Node → List Job → Bool → Bool
shut n running held = held || busy running Scope.unscoped || leb (job_limit n) (length running)

verdict-shut :
    (n : Node) (running : List Job) (held : Bool) (j : Job)
    → shut n running held ≡ true
    → ((is_logs_follow j.kind ≡ true) × (verdict n running held j ≡ Verdict.claim))
      ⊎ (verdict n running held j ≡ Verdict.pass)
unfolding verdict
verdict-shut n running held j h = ground arith

module _ (raced : Ident → Bool) (n : Node) (running : List Job) where
  scan-shut :
      (held : Bool) (js : List Job) (c : Job)
      → shut n running held ≡ true
      → scan raced n running held js ≡ some c
      → is_logs_follow c.kind ≡ true
  unfolding scan
  scan-shut held [] c h e = cc
  scan-shut held (j ∷ js) c h e = elim (verdict-shut n running held j h) [
    | inl (stream, claimed) ↦ ground (arith, scan-shut held js c)
    | inr passed ↦ scan-shut held js c h (rw (passed, scan) at e)
  ]

  -- A job that runs alone either shuts the queue, or finds the node idle and is claimed.
  verdict_alone :
      (held : Bool) (k : Job)
      → is_logs_follow k.kind ≡ false
      → is_unscoped k.scope ≡ true
      → (shut n running held ≡ true)
        ⊎ (verdict n running held k ≡ Verdict.hold)
        ⊎ (verdict n running held k ≡ Verdict.claim)
  unfolding verdict
  verdict_alone held k h u = ground arith

  scan_order :
      (m : ℕ) (held : Bool) (js : List Job) (c k : Job)
      → IsSorted older js
      → In k js
      → is_logs_follow k.kind ≡ false
      → is_unscoped k.scope ≡ true
      → raced k.id ≡ false
      → older k c ≡ true
      → scan raced n running held (take m js) ≡ some c
      → is_logs_follow c.kind ≡ true
  unfolding scan
  scan_order zero held js c k sorted m job alone won before e = cc
  scan_order (suc m) held [] c k sorted i job alone won before e = absurd i
  scan_order (suc m) held (x ∷ js) c k sorted (inl same) job alone won before e =
      elim (verdict_alone held k job alone) [
        | inl closed ↦ scan-shut held (x ∷ take m js) c closed e
        | inr (inl holds) ↦ scan-shut true (take m js) c refl (ground arith)
        | inr (inr claims) ↦ absurd (ground arith)
      ]
  scan_order (suc m) held (x ∷ js) c k sorted (inr i) job alone won before e = ground (
    arith,
    All_of_In (λ y. older y x ≡ false) k js i sorted.0,
    scan_order m held js c k sorted.1 i job alone won before,
    scan_order m true js c k sorted.1 i job alone won before,
  )

In-waiting :
    (n : Node) (jobs : List Job) (a : Job)
    → In a jobs
    → a.node_id ≡ n.id
    → is_pending a.status ≡ true
    → In a (waiting n jobs)
In-waiting n jobs a row owner waits =
    In-stable_sort older a _
      (In-select (λ j. j.node_id == n.id && is_pending j.status) jobs a row (ground arith))

module _ (raced : Ident → Bool) (n : Node) (now : Time) (jobs : List Job) where
  -- While a job that must run alone waits on a node, and no other request takes it, the node is handed
  -- no younger job but live log streams.
  pub not_overtaken :
      (k given : Job)
      → In k jobs
      → k.node_id ≡ n.id
      → is_pending k.status ≡ true
      → is_unscoped k.scope ≡ true
      → is_logs_follow k.kind ≡ false
      → raced k.id ≡ false
      → (next_job raced n now jobs).0 ≡ some given
      → older k given ≡ true
      → is_logs_follow given.kind ≡ true
  unfolding next_job hand_out pending_of
  not_overtaken k given row owner waits alone job won e before =
      elim (Option-cases (scan raced n (select (holds_node n) jobs) false (pending_of n jobs))) [
        | inl nothing ↦ cc (nothing)
        | inr (c, taken) ↦
            let same : started now c ≡ given = ground arith in
            let stream =
              scan_order raced n (select (holds_node n) jobs) 100 false (waiting n jobs) c k
                (waiting-IsSorted n jobs) (In-waiting n jobs k row owner waits) job alone won
                (ground arith) taken in
            ground arith
      ]
