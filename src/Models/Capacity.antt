-- ===== src/Models/Capacity.antt =====
-- internal/models/node.go: how many jobs a node may run at once.
use asdl_hub.Prelude.{
  ℕ, ◌*◌, ◌/◌, ◌≤◌, ◌<◌, min, max, String, Bool, false, ◌||◌, List, [], ◌∷◌, arith, ltb,
  if◌then◌else◌, str_eq,
}
use asdl_hub.Models.{Node}

abbrev pub max_parallel_jobs : ℕ
max_parallel_jobs = 8

abbrev pub gib : ℕ
gib = 1024 * 1024 * 1024

unfoldable pub recommended_parallel_jobs : ℕ → ℕ → ℕ
recommended_parallel_jobs cpus memory_total =
    let by_memory = if ltb 0 memory_total then min 4 (memory_total / (4 * gib)) else 4 in
    let by_cpu = if ltb 0 cpus then min by_memory (cpus / 2) else by_memory in max by_cpu 1

unfoldable pub has_capability : List String → Bool
has_capability [] = false
has_capability (c ∷ cs) = str_eq c "parallel_jobs" || has_capability cs

unfoldable pub supports_parallel_jobs : Node → Bool
unfolding has_capability
supports_parallel_jobs n = has_capability n.capabilities

unfoldable pub job_limit : Node → ℕ
job_limit n =
    if supports_parallel_jobs n
    then (if ltb 0 n.parallel_jobs
        then n.parallel_jobs
        else recommended_parallel_jobs n.cpu n.memory_total)
    else 1

-- The recommendation is between 1 and 4.
pub recommended_bounds :
    (cpus memory : ℕ)
    → (1 ≤ recommended_parallel_jobs cpus memory) × (recommended_parallel_jobs cpus memory ≤ 4)
unfolding recommended_parallel_jobs
recommended_bounds cpus memory = ground arith

-- Where more than one job at a time is recommended, each job has 4 GiB of the memory that the node
-- reported, if it did, and two of the cores, if it reported them.
pub recommended_fits :
    (cpus memory : ℕ)
    → 1 < recommended_parallel_jobs cpus memory
    → (0 < memory → recommended_parallel_jobs cpus memory * (4 * gib) ≤ memory)
      × (0 < cpus → recommended_parallel_jobs cpus memory * 2 ≤ cpus)
unfolding recommended_parallel_jobs
recommended_fits cpus memory h = (λ known. ground arith, λ known. ground arith)

-- A node may always run at least one job.
pub job_limit_pos : (n : Node) → 1 ≤ job_limit n
unfolding job_limit
job_limit_pos n = ground (arith, recommended_bounds n.cpu n.memory_total)
