-- ===== src/Nodes/Samples.antt =====
-- internal/services/node_samples.go: the readings of a node for the graphs on its page. Numbers of type
-- float64 are the interface Float; `to_int` is the conversion to int.
use asdl_hub.Prelude.{
  ℕ, zero, suc, ◌+◌, ◌-◌, ◌*◌, ◌/◌, ◌≤◌, inl, inr, Bool, true, false, ◌&&◌, ◌||◌, not, Option, none,
  some, List, [], ◌∷◌, ◌++◌, arith, ltb, leb, if◌then◌else◌, Bool-cases, length, take, drop,
  get_elem?, select, length-append,
}
use asdl_hub.Prelude.GoMap.{GoMap, nat_key, find, put}
use asdl_hub.Models.{Ident, Time, Node, minute, hour}
use asdl_hub.Placement.{Float}

abbrev sample_every : Time
sample_every = minute

abbrev sample_keep : Time
sample_keep = 14 * (24 * hour)

-- Whether the node's next sample is due; then it counts as taken.
unfoldable pub sample_due : Ident → Time → GoMap Ident Time → Bool × GoMap Ident Time
sample_due node_id now last = elim (find node_id last) [
  | none ↦ (true, put node_id now last)
  | some t ↦ if ltb (now - t) sample_every then (false, last) else (true, put node_id now last)
]

pub record NodeSample (F : Type 0) : Type 0 where
  pub node_id : Ident
  pub at : Time
  pub cpu_percent : F
  pub memory_percent : F
  pub disk_percent : F
  pub load_1 : F
  pub ping_ms : F
  pub wifi_signal : ℕ

module _ {F : Type 0} (float : Float F) (to_int : F → ℕ) where
  unfoldable pub percent_of_total : ℕ → ℕ → F
  percent_of_total used total =
      if leb total 0
      then float.of_nat 0
      else float.mul (float.div (float.of_nat used) (float.of_nat total)) (float.of_nat 100)

  -- A ping in microseconds is float64 milliseconds in the source.
  abbrev ping_of : ℕ → F
  ping_of us = float.div (float.of_nat us) (float.of_nat 1000)

  abbrev pub sample_of : Node → F → Time → NodeSample F
  sample_of n cpu now = record {
    node_id = n.id;
    at = now;
    cpu_percent = cpu;
    memory_percent = percent_of_total n.memory_used n.memory_total;
    disk_percent = percent_of_total n.disk_used n.disk_total;
    load_1 = float.hundredths n.load_avg_1;
    ping_ms = ping_of n.ping_latency;
    wifi_signal = n.wifi_signal;
  }

  -- `saved` is whether the database took the row.
  unfoldable pub record_sample :
      Bool
      → Node
      → F
      → Time
      → GoMap Ident Time × List (NodeSample F)
      → GoMap Ident Time × List (NodeSample F)
  record_sample saved n cpu now (last, t) =
      let (due, counted) = sample_due n.id now last in
      (counted, if due && saved then t ++ sample_of n cpu now ∷ [] else t)

  unfoldable pub trim_samples : Time → List (NodeSample F) → List (NodeSample F)
  trim_samples now t = select (λ s. not (ltb (s.at + sample_keep) now)) t

  abbrev sum_of : (NodeSample F → F) → List (NodeSample F) → F → F
  sum_of f [] acc = acc
  sum_of f (s ∷ ss) acc = sum_of f ss (float.add acc (f s))

  abbrev mean_of : (NodeSample F → F) → List (NodeSample F) → F
  mean_of f ss = float.div (sum_of f ss (float.of_nat 0)) (float.of_nat (length ss))

  abbrev wifi_sum : List (NodeSample F) → ℕ
  wifi_sum [] = 0
  wifi_sum (s ∷ ss) = s.wifi_signal + wifi_sum ss

  abbrev half : F
  half = float.hundredths 50

  -- The mean of the samples of one point; the instant is that of the middle one. The node is left empty.
  abbrev averaged : Time → List (NodeSample F) → NodeSample F
  averaged middle ss = record {
    node_id = 0;
    at = middle;
    cpu_percent = mean_of (λ s. s.cpu_percent) ss;
    memory_percent = mean_of (λ s. s.memory_percent) ss;
    disk_percent = mean_of (λ s. s.disk_percent) ss;
    load_1 = mean_of (λ s. s.load_1) ss;
    ping_ms = mean_of (λ s. s.ping_ms) ss;
    wifi_signal =
        to_int (float.add (float.div (float.of_nat (wifi_sum ss)) (float.of_nat (length ss))) half);
  }

  abbrev point_at : Option (NodeSample F) → List (NodeSample F) → List (NodeSample F)
  point_at none ss = []
  point_at (some middle) ss = averaged middle.at ss ∷ []

  abbrev point_of : List (NodeSample F) → List (NodeSample F)
  point_of ss = point_at (get_elem? ss (length ss / 2)) ss

  -- The points from number i on; `n` are left.
  unfoldable pub points : List (NodeSample F) → ℕ → ℕ → ℕ → List (NodeSample F)
  points ss most zero i = []
  points ss most (suc n) i =
      let lo = i * length ss / most in
      let hi = (i + 1) * length ss / most in
      point_of (take (hi - lo) (drop lo ss)) ++ points ss most n (suc i)

  unfoldable pub downsample : List (NodeSample F) → ℕ → List (NodeSample F)
  downsample ss most = if ltb most 1 || leb (length ss) most then ss else points ss most most 0

  point_at_le : (o : Option (NodeSample F)) (ss : List (NodeSample F)) → length (point_at o ss) ≤ 1
  point_at_le none ss = omega arith
  point_at_le (some middle) ss = omega arith

  points_le : (ss : List (NodeSample F)) (most n i : ℕ) → length (points ss most n i) ≤ n
  unfolding points
  points_le ss most zero i = omega arith
  points_le ss most (suc n) i =
      let lo = i * length ss / most in
      let hi = (i + 1) * length ss / most in
      let part = take (hi - lo) (drop lo ss) in
      omega (
        arith,
        length-append (point_of part) (points ss most n (suc i)),
        point_at_le (get_elem? part (length part / 2)) part,
        points_le ss most n (suc i),
      )

  -- At most as many points are returned as were asked for, where at least one was.
  pub downsample_le :
      (ss : List (NodeSample F)) (most : ℕ) → 1 ≤ most → length (downsample ss most) ≤ most
  unfolding downsample
  downsample_le ss most some_asked = elim (Bool-cases (ltb most 1 || leb (length ss) most)) [
    | inl few ↦ ground (arith, few)
    | inr many ↦ ground (arith, many, points_le ss most most 0)
  ]
