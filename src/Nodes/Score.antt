-- ===== src/Nodes/Score.antt =====
-- internal/services/node_service.go: calculateHealthScore, without the breakdown that it writes out. The
-- numbers of type float64 are the interface Float of the placement.
use asdl_hub.Prelude.{ℕ, ◌+◌, ◌-◌, ◌*◌, ◌≤◌, Bool, not, arith, ltb, if◌then◌else◌}
use asdl_hub.Models.{Time, Node, second}
use asdl_hub.Placement.{Float}

module _ {F : Type 0} (float : Float F) where
  abbrev greater : F → F → Bool
  greater a b = float.less b a

  -- float64(used) / float64(total) * 100
  abbrev percent_of : ℕ → ℕ → F
  percent_of used total =
      float.mul (float.div (float.of_nat used) (float.of_nat total)) (float.of_nat 100)

  unfoldable pub memory_penalty : Node → ℕ
  memory_penalty n =
      let percent = percent_of n.memory_used n.memory_total in
      if not (ltb 0 n.memory_total)
      then 0
      else if greater percent (float.of_nat 95)
      then 30
      else if greater percent (float.of_nat 85)
      then 20
      else if greater percent (float.of_nat 75)
      then 10
      else if greater percent (float.of_nat 60)
      then 5
      else 0

  unfoldable pub disk_penalty : Node → ℕ
  disk_penalty n =
      let percent = percent_of n.disk_used n.disk_total in
      if not (ltb 0 n.disk_total)
      then 0
      else if greater percent (float.of_nat 95)
      then 15
      else if greater percent (float.of_nat 85)
      then 10
      else if greater percent (float.of_nat 75)
      then 5
      else 0

  unfoldable pub load_penalty : Node → ℕ
  load_penalty n =
      let load = float.hundredths n.load_avg_1 in
      let cpus = float.of_nat n.cpu in
      if greater load cpus
      then 20
      else if greater load (float.mul cpus (float.hundredths 80))
      then 10
      else if greater load (float.mul cpus (float.hundredths 60))
      then 5
      else 0

  -- Three tests, one after the other, each of which takes its share.
  unfoldable pub heartbeat_penalty : Time → Node → ℕ
  heartbeat_penalty now n =
      let silent = now - n.last_heartbeat in
      (if ltb (30 * second) silent then 10 else 0)
      + (if ltb (60 * second) silent then 20 else 0)
      + (if ltb (120 * second) silent then 30 else 0)

  unfoldable pub ping_penalty : Node → ℕ
  ping_penalty n =
      if ltb 100000 n.ping_latency
      then 20
      else if ltb 50000 n.ping_latency
      then 10
      else if ltb 20000 n.ping_latency
      then 5
      else 0

  unfoldable pub wifi_penalty : Node → ℕ
  wifi_penalty n =
      if not (ltb 0 n.wifi_signal)
      then 0
      else if ltb n.wifi_signal 30
      then 15
      else if ltb n.wifi_signal 50
      then 10
      else if ltb n.wifi_signal 70
      then 5
      else 0

  unfoldable pub failure_penalty : Node → ℕ
  failure_penalty n =
      if ltb 5 n.failure_count
      then 20
      else if ltb 3 n.failure_count
      then 10
      else if ltb 1 n.failure_count
      then 5
      else 0

  abbrev penalties : Time → Node → ℕ
  penalties now n =
      heartbeat_penalty now n
      + memory_penalty n
      + disk_penalty n
      + load_penalty n
      + ping_penalty n
      + wifi_penalty n
      + failure_penalty n

  -- The score starts at 100 and does not go below 0, where the subtraction stops.
  unfoldable pub calculate_health_score : Time → Node → ℕ
  calculate_health_score now n = if not n.online then 0 else 100 - penalties now n

  -- No score is above 100.
  pub calculate_health_score_le : (now : Time) (n : Node) → calculate_health_score now n ≤ 100
  unfolding calculate_health_score
  calculate_health_score_le now n = ground arith
