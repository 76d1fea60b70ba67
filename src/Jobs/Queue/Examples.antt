-- ===== src/Jobs/Queue/Examples.antt =====
-- The queue's theorems at a node with a job running and two that wait.
use asdl_hub.Prelude.{
  ◌*◌, ◌≤◌, ◌≡◌, refl, ap, ◌≢◌, ◌↔◌, ◌⊎◌, inl, inr, Bool, true, false, some, List, [], ◌∷◌, arith,
  ◌==◌, length, select, In, stable_sort, DistinctKeys,
}
use asdl_hub.Models.{
  Ident, Job, JobType, JobStatus, Scope, minute, is_unscoped, same_scope, is_pending,
  is_logs_follow,
}
use asdl_hub.Models.Capacity.{job_limit, recommended_parallel_jobs, supports_parallel_jobs}
use asdl_hub.Samples.{sample_node, sample_job}
use asdl_hub.Jobs.Queue.{
  holds_node, busy, pending_of, verdict, scan, started, hand_out, next_job, room_for_another_job,
  others_took,
}
use asdl_hub.Jobs.Queue.Claim.{next_job_sound}
use asdl_hub.Jobs.Queue.Safety.{SideBySide, next_job-SideBySide}
use asdl_hub.Jobs.Queue.Order.{not_overtaken}

abbrev none_raced : Ident → Bool
none_raced i = false

abbrev running_job : Job
running_job = record sample_job {
  id = 9;
  status = JobStatus.running;
  scope = Scope.app 4;
  started_at = some (49 * minute);
}

-- A second deploy of app 4, then one of app 5.
abbrev same_app : Job
same_app = record sample_job { id = 8; scope = Scope.app 4; created_at = 48 * minute }

abbrev table : List Job
table = running_job ∷ same_app ∷ sample_job ∷ []

-- The deploy of the busy app waits, and the younger one of another app starts beside it.
another_app_starts :
    (next_job none_raced sample_node (60 * minute) table).0
    ≡ some (started (60 * minute) sample_job)
unfolding next_job hand_out scan verdict busy room_for_another_job pending_of holds_node stable_sort
    job_limit recommended_parallel_jobs supports_parallel_jobs
another_app_starts = refl

keys_apart : DistinctKeys (λ (j : Job). j.id) table
keys_apart = ((refl, (refl, tt)), ((refl, tt), (tt, tt)))

next_job_sound_example :
    (c : Job) × In c table
    × (c.node_id ≡ sample_node.id)
    × (is_pending c.status ≡ true)
    × (none_raced c.id ≡ false)
    × (started (60 * minute) sample_job
        ≡ record c { status = JobStatus.running; started_at = some (60 * minute) })
    × ((x : Job)
        → In x (next_job none_raced sample_node (60 * minute) table).1 ↔ (
            (x ≡ started (60 * minute) sample_job)
            ⊎ (In x (others_took none_raced (60 * minute) table) × (x.id ≢ c.id))))
next_job_sound_example =
    next_job_sound none_raced sample_node (60 * minute) table (started (60 * minute) sample_job)
      keys_apart another_app_starts

-- Another node is handed a job of its own meanwhile.
abbrev elsewhere : Job
elsewhere = record sample_job { id = 12; node_id = 2; scope = Scope.app 6 }

abbrev raced_elsewhere : Ident → Bool
raced_elsewhere i = i == 12

spared :
    (j : Job) → In j (elsewhere ∷ table) → j.node_id ≡ sample_node.id → raced_elsewhere j.id ≡ false
spared j (inl e) own = ground (arith, ap (λ (x : Job). x.node_id) e)
spared j (inr (inl e)) own = ground (arith, ap (λ (x : Job). x.id) e)
spared j (inr (inr (inl e))) own = ground (arith, ap (λ (x : Job). x.id) e)
spared j (inr (inr (inr (inl e)))) own = ground (arith, ap (λ (x : Job). x.id) e)
spared j (inr (inr (inr (inr none_left)))) own = absurd none_left

wide_within : length (select (holds_node sample_node) (elsewhere ∷ table)) ≤ job_limit sample_node
unfolding holds_node job_limit recommended_parallel_jobs supports_parallel_jobs
wide_within = omega arith

wide_apart :
    (a b : Job)
    → In a (elsewhere ∷ table)
    → In b (elsewhere ∷ table)
    → holds_node sample_node a ≡ true
    → holds_node sample_node b ≡ true
    → a.id ≢ b.id
    → (is_unscoped a.scope ≡ false) × (same_scope a.scope b.scope ≡ false)
unfolding holds_node
wide_apart a b ma mb ha hb ne = ground arith

next_job-SideBySide_example :
    SideBySide sample_node
      (next_job raced_elsewhere sample_node (60 * minute) (elsewhere ∷ table)).1
next_job-SideBySide_example =
    next_job-SideBySide raced_elsewhere sample_node (60 * minute) (elsewhere ∷ table) spared
      ((refl, (refl, (refl, tt))), keys_apart) (record { within = wide_within; apart = wide_apart })

-- An agent update, which runs alone, and a log stream that was asked for later.
abbrev alone : Job
alone = record sample_job {
  id = 7;
  kind = JobType.command;
  scope = Scope.unscoped;
  created_at = 47 * minute;
}

abbrev stream : Job
stream = record sample_job { id = 6; kind = JobType.logs_follow; created_at = 51 * minute }

abbrev blocked_table : List Job
blocked_table = running_job ∷ alone ∷ sample_job ∷ stream ∷ []

stream_starts :
    (next_job none_raced sample_node (60 * minute) blocked_table).0
    ≡ some (started (60 * minute) stream)
unfolding next_job hand_out scan verdict busy room_for_another_job pending_of holds_node stable_sort
    job_limit recommended_parallel_jobs supports_parallel_jobs
stream_starts = refl

not_overtaken_example : is_logs_follow (started (60 * minute) stream).kind ≡ true
not_overtaken_example =
    not_overtaken none_raced sample_node (60 * minute) blocked_table alone
      (started (60 * minute) stream) (inr (inl refl)) refl refl refl refl refl stream_starts refl

idle_table : List Job
idle_table = same_app ∷ sample_job ∷ []
