-- ===== src/Jobs/Queue/Safety.antt =====
-- Jobs that a node runs side by side are within its limit and work on different things.
use asdl_hub.Prelude.{
  ◌≤◌, ◌<◌, ◌≡◌, refl, sym, ap, ◌∙◌, subst, ◌≢◌, ◌⊎◌, inl, inr, Bool, true, false, ◌&&◌, List, [],
  ◌∷◌, arith, ◌==◌, Bool-cases, Option-cases, length, select, In, select-In, In-select,
  In-of_update, DistinctKeys, row_unique, length-select-update, length-select-update_le,
}
use asdl_hub.Models.{
  Ident, Time, Node, Job, Scope, is_pending, is_logs_follow, is_unscoped, same_scope,
  same_scope_iff,
}
use asdl_hub.Models.Capacity.{job_limit}
use asdl_hub.Jobs.Queue.{
  holds_node, busy, Verdict, verdict, scan, started, claim_row, hand_out, next_job, pending_of,
  others_took,
}
use asdl_hub.Jobs.Queue.Claim.{scan-In, pending_of-In, others-DistinctKeys, untaken}

-- The node's running jobs are within its limit, and two of them both have a scope and not the same.
pub record SideBySide (n : Node) (jobs : List Job) : Type 0 where
  pub within : length (select (holds_node n) jobs) ≤ job_limit n
  pub apart :
      (a b : Job)
      → In a jobs
      → In b jobs
      → holds_node n a ≡ true
      → holds_node n b ≡ true
      → a.id ≢ b.id
      → (is_unscoped a.scope ≡ false) × (same_scope a.scope b.scope ≡ false)

same_scope_comm : (a b : Scope) → same_scope a b ≡ false → same_scope b a ≡ false
same_scope_comm a b h = ground (arith, same_scope_iff a b, same_scope_iff b a)

busy_of_In :
    (s : Scope) (r : Job) (running : List Job)
    → In r running
    → busy running s ≡ false
    → same_scope r.scope s ≡ false
unfolding busy
busy_of_In s r [] m h = absurd m
busy_of_In s r (x ∷ xs) (inl e) h = ground arith
busy_of_In s r (x ∷ xs) (inr m) h = ground (arith, busy_of_In s r xs m)

unscoped_of_not_same : (s : Scope) → same_scope s Scope.unscoped ≡ false → is_unscoped s ≡ false
unscoped_of_not_same Scope.unscoped h = h
unscoped_of_not_same (Scope.app a) h = refl
unscoped_of_not_same (Scope.other s) h = refl

-- What a claim of a job that is no log stream has checked.
claim_checks :
    (n : Node) (running : List Job) (c : Job)
    → is_logs_follow c.kind ≡ false
    → verdict n running false c ≡ Verdict.claim
    → (length running < job_limit n)
      × (busy running Scope.unscoped ≡ false)
      × (0 < length running → (is_unscoped c.scope ≡ false) × (busy running c.scope ≡ false))
unfolding verdict
claim_checks n running c k h = ground arith

pos_of_In : (r : Job) (xs : List Job) → In r xs → 0 < length xs
pos_of_In r [] m = absurd m
pos_of_In r (x ∷ xs) m = omega arith

module _ (n : Node) (now : Time) (jobs : List Job) (c : Job)
    (keys : DistinctKeys (λ (j : Job). j.id) jobs) (row : In c jobs) (safe : SideBySide n jobs)
    (fits : verdict n (select (holds_node n) jobs) false c ≡ Verdict.claim) where
  same_row : (x : Job) → In x jobs → (x.id == c.id && is_pending x.status) ≡ true → x ≡ c
  same_row x m p = row_unique (λ (j : Job). j.id) x c jobs keys m row (ground arith)

  stream_added :
      (x : Job)
      → In x jobs
      → (x.id == c.id && is_pending x.status) ≡ true
      → holds_node n (started now x) ≡ true
      → is_logs_follow c.kind ≡ true
      → ⊥
  unfolding holds_node
  stream_added x m p q stream = ground (arith, same_row x m p)

  claim_within : length (select (holds_node n) (claim_row c.id now jobs)) ≤ job_limit n
  claim_within = elim (Bool-cases (is_logs_follow c.kind)) [
    | inl stream ↦
        let none_added =
          length-select-update_le (holds_node n) (λ r. r.id == c.id && is_pending r.status)
            (started now) jobs (λ x m p q. absurd (stream_added x m p q stream)) in
        omega (arith, none_added, safe.within)
    | inr job ↦ omega (
      arith,
      length-select-update (λ (j : Job). j.id) (holds_node n) c.id (λ r. is_pending r.status)
          (started now) jobs keys,
      (claim_checks n _ c job fits).0,
    )
  ]

  -- A row of the new table that holds the node held it before, or is the job just claimed.
  new_or_old :
      (a : Job)
      → In a (claim_row c.id now jobs)
      → holds_node n a ≡ true
      → (In a jobs × (holds_node n a ≡ true))
        ⊎ ((a ≡ started now c) × (is_logs_follow c.kind ≡ false))
  unfolding holds_node
  new_or_old a m h =
      let (b, mb, e) =
        In-of_update (λ r. r.id == c.id && is_pending r.status) (started now) a jobs m in
      elim (Bool-cases (b.id == c.id && is_pending b.status)) [
        | inl taken ↦
            let new : a ≡ started now c = e ∙ rw taken (ap (started now) (same_row b mb taken)) in
            inr (new, ground arith)
        | inr kept ↦
            let old : a ≡ b = e ∙ rw kept refl in inl (subst (λ x. In x jobs) (sym old) mb, h)
      ]

  apart_from_new :
      (b : Job)
      → In b jobs
      → holds_node n b ≡ true
      → is_logs_follow c.kind ≡ false
      → (is_unscoped b.scope ≡ false)
        × (is_unscoped c.scope ≡ false)
        × (same_scope b.scope c.scope ≡ false)
  apart_from_new b m h k =
      let (_, alone, rest) = claim_checks n _ c k fits in
      let mb = In-select (holds_node n) jobs b m h in
      let (scoped, free) = rest (pos_of_In b _ mb) in
      (
        unscoped_of_not_same b.scope (busy_of_In Scope.unscoped b _ mb alone),
        scoped,
        busy_of_In c.scope b _ mb free,
      )

  claim-SideBySide : SideBySide n (claim_row c.id now jobs)
  claim-SideBySide = record {
    within = claim_within;
    apart = λ a b ma mb ha hb ne. elim (new_or_old a ma ha) [
      | inl (old_a, holds_a) ↦ elim (new_or_old b mb hb) [
        | inl (old_b, holds_b) ↦ safe.apart a b old_a old_b holds_a holds_b ne
        | inr (new_b, job) ↦ ground (arith, apart_from_new a old_a holds_a job)
      ]
      | inr (new_a, job) ↦ elim (new_or_old b mb hb) [
        | inl (old_b, holds_b) ↦
            let (_, scoped, free) = apart_from_new b old_b holds_b job in
            ground (arith, same_scope_comm b.scope c.scope free)
        | inr (new_b, _) ↦ absurd (ne (ground arith))
      ]
    ];
  }

module _ (raced : Ident → Bool) (n : Node) (now : Time) (jobs : List Job)
    (spared : (j : Job) → In j jobs → j.node_id ≡ n.id → raced j.id ≡ false) where
  -- What other requests took of other nodes' jobs is none of the jobs that hold this node.
  holding_same :
      (xs : List Job)
      → ((j : Job) → In j xs → j.node_id ≡ n.id → raced j.id ≡ false)
      → select (holds_node n) (others_took raced now xs) ≡ select (holds_node n) xs
  unfolding holds_node
  holding_same [] own = refl
  holding_same (x ∷ xs) own =
      ground (arith, own x (inl refl), holding_same xs (λ j m. own j (inr m)))

  SideBySide-others : SideBySide n jobs → SideBySide n (others_took raced now jobs)
  SideBySide-others safe = record {
    within = subst (λ l. length l ≤ job_limit n) (sym (holding_same jobs spared)) safe.within;
    apart = λ a b ma mb ha hb ne. safe.apart a b (was a ma ha) (was b mb hb) ha hb ne;
  }
    where
      was : (a : Job) → In a (others_took raced now jobs) → holds_node n a ≡ true → In a jobs
      was a m h =
          (select-In (holds_node n) jobs a (
            subst (In a) (holding_same jobs spared)
              (In-select (holds_node n) (others_took raced now jobs) a m h))).0

  -- In a table whose jobs have identifiers of their own, where other requests meanwhile take only jobs of
  -- other nodes, handing out a job keeps the jobs that the node runs side by side within its limit, each with
  -- a scope and no two with the same.
  pub next_job-SideBySide :
      DistinctKeys (λ (j : Job). j.id) jobs
      → SideBySide n jobs
      → SideBySide n (next_job raced n now jobs).1
  unfolding next_job hand_out
  next_job-SideBySide keys safe =
      elim (Option-cases (scan raced n (select (holds_node n) jobs) false (pending_of n jobs))) [
        | inl nothing ↦ rw (nothing, hand_out) (SideBySide-others safe)
        | inr (c, taken) ↦
            let (m, won, fits) = scan-In raced n _ false _ c taken in
            let row = (pending_of-In n jobs c m).0 in
            rw (taken, hand_out)
              (claim-SideBySide n now (others_took raced now jobs) c
                (others-DistinctKeys raced n now jobs keys) (untaken raced n now jobs c row won)
                (SideBySide-others safe)
                (subst (λ l. verdict n l false c ≡ Verdict.claim) (sym (holding_same jobs spared))
                  fits))
      ]
