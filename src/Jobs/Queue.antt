-- ===== src/Jobs/Queue.antt =====
-- internal/services/job_service.go, nextJob: which pending job a node may start now. The table is the
-- list of its rows. Which jobs other requests take between the query and the update is the
-- argument `raced`; they are running by then (others_took).
pub mod Claim
pub mod Safety
pub mod Order
mod Examples
use asdl_hub.Prelude.{
  ℕ, zero, suc, ◌+◌, ◌-◌, ◌*◌, ◌/◌, ◌%◌, ◌≤◌, ◌<◌, min, max, String, ◌≡◌, refl, sym, ap, ◌∙◌, subst,
  fun_ext, ◌≢◌, ◌↔◌, ◌⊎◌, inl, inr, Bool, true, false, ◌&&◌, ◌||◌, not, Option, none, some, List,
  [], ◌∷◌, ◌++◌, map, append_assoc, append-nil, arith, ltb, leb, ◌==◌, if◌then◌else◌, ltb→lt,
  lt→ltb, leb→le, le→leb, ==_iff, tests, Bool-cases, Option-cases, is_some, length, take, drop,
  get_elem?, select, first, update, any, head, All, In, length-append, length-drop, length-take,
  All_of_In, first-In, first_passes, select-In, In-select, str_eq, str_eq_iff, stable_sort,
  IsSorted, insert_sorted, stable_sort-perm, In-of_stable_sort, In-stable_sort, length-stable_sort,
  stable_sort-IsSorted,
}
use asdl_hub.Models.{
  Ident, Time, Node, Job, JobStatus, Scope, is_pending, is_running, is_logs_follow, is_unscoped,
  same_scope,
}
use asdl_hub.Models.Capacity.{job_limit}

abbrev pub parallel_job_min_free_memory : ℕ
parallel_job_min_free_memory = 1536 * 1024 * 1024

unfoldable pub room_for_another_job : Node → Bool
room_for_another_job n =
    if ltb 0 n.memory_total && ltb n.memory_total (n.memory_used + parallel_job_min_free_memory)
    then false
    else not (ltb 0 n.cpu && leb (100 * n.cpu) n.load_avg_1)

abbrev started_since : Option Time → Option Time → Bool
started_since agent_started none = true
started_since none (some t) = true
started_since (some a) (some t) = leb a t

-- The WHERE of the query for running jobs: those that an agent process that is gone left behind, and
-- live log streams, do not count.
unfoldable pub holds_node : Node → Job → Bool
holds_node n j =
    j.node_id == n.id
    && is_running j.status
    && not (is_logs_follow j.kind)
    && started_since n.agent_started_at j.started_at

unfoldable pub busy : List Job → Scope → Bool
busy running s = any (λ r. same_scope r.scope s) running

abbrev pub older : Job → Job → Bool
older a b = ltb a.created_at b.created_at

-- Order("created_at ASC").Limit(100)
unfoldable pub pending_of : Node → List Job → List Job
pending_of n jobs =
    take 100 (stable_sort older (select (λ j. j.node_id == n.id && is_pending j.status) jobs))

-- What one round of the loop does with a pending job: pass over it, pass over it and hold every later
-- job back, or claim it.
pub data Verdict : Type 0 where
  pass hold claim : Verdict

unfoldable pub verdict : Node → List Job → Bool → Job → Verdict
verdict n running queue_blocked j =
    if is_logs_follow j.kind
    then Verdict.claim
    else if queue_blocked || busy running Scope.unscoped || leb (job_limit n) (length running)
    then Verdict.pass
    else if ltb 0 (length running)
    then (if is_unscoped j.scope
        then Verdict.hold
        else if busy running j.scope
        then Verdict.pass
        else if not (room_for_another_job n)
        then Verdict.hold
        else Verdict.claim)
    else Verdict.claim

unfoldable pub scan : (Ident → Bool) → Node → List Job → Bool → List Job → Option Job
scan raced n running queue_blocked [] = none
scan raced n running queue_blocked (j ∷ js) = elim (verdict n running queue_blocked j) [
  | Verdict.pass ↦ scan raced n running queue_blocked js
  | Verdict.hold ↦ scan raced n running true js
  | Verdict.claim ↦ elim (raced j.id) [
    | true ↦ scan raced n running queue_blocked js
    | false ↦ some j
  ]
]

abbrev pub started : Time → Job → Job
started now j = record j { status = JobStatus.running; started_at = some now }

-- UPDATE … WHERE id = ? AND status = pending
abbrev pub claim_row : Ident → Time → List Job → List Job
claim_row id now jobs = update (λ r. r.id == id && is_pending r.status) (started now) jobs

unfoldable pub hand_out : Time → List Job → Option Job → Option Job × List Job
hand_out now jobs none = (none, jobs)
hand_out now jobs (some j) = (some (started now j), claim_row j.id now jobs)

-- The jobs that other requests took between the query and the update are running by then.
abbrev pub others_took : (Ident → Bool) → Time → List Job → List Job
others_took raced now jobs = update (λ r. raced r.id && is_pending r.status) (started now) jobs

-- The job that is handed out, and the table after it.
unfoldable pub next_job : (Ident → Bool) → Node → Time → List Job → Option Job × List Job
next_job raced n now jobs =
    hand_out now (others_took raced now jobs)
      (scan raced n (select (holds_node n) jobs) false (pending_of n jobs))
