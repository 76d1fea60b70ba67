-- ===== src/Jobs/Queue/Claim.antt =====
-- What the node that asks is handed, and what stays of the table.
use asdl_hub.Prelude.{
  ℕ, zero, suc, ◌≡◌, refl, sym, ap, ◌∙◌, subst, ◌≢◌, ◌↔◌, ◌⊎◌, inl, inr, Bool, true, false, ◌&&◌,
  Option, none, some, List, [], ◌∷◌, arith, ◌==◌, Bool-cases, Option-cases, take, select, In,
  select-In, In-of_stable_sort, In-of_update, In-update, DistinctKeys, row_unique,
  DistinctKeys-update,
}
use asdl_hub.Models.{Ident, Time, Node, Job, JobStatus, is_pending}
use asdl_hub.Jobs.Queue.{
  holds_node, older, pending_of, Verdict, verdict, scan, started, claim_row, hand_out, next_job,
  others_took,
}

In-take : (n : ℕ) (a : Job) (xs : List Job) → In a (take n xs) → In a xs
In-take zero a xs m = absurd m
In-take (suc n) a [] m = m
In-take (suc n) a (x ∷ xs) (inl e) = inl e
In-take (suc n) a (x ∷ xs) (inr m) = inr (In-take n a xs m)

pub pending_of-In :
    (n : Node) (jobs : List Job) (a : Job)
    → In a (pending_of n jobs)
    → In a jobs × (a.node_id ≡ n.id) × (is_pending a.status ≡ true)
unfolding pending_of
pending_of-In n jobs a m = ground (
  arith,
  select-In (λ j. j.node_id == n.id && is_pending j.status) jobs a
      (In-of_stable_sort older a _ (In-take 100 a _ m)),
)

-- What a held queue lets through, a queue that is not held lets through.
verdict_held :
    (n : Node) (running : List Job) (held : Bool) (c : Job)
    → verdict n running held c ≡ Verdict.claim
    → verdict n running false c ≡ Verdict.claim
unfolding verdict
verdict_held n running true c h = ground arith
verdict_held n running false c h = h

-- A job that the loop takes stands in the list, was lost to no other request, and was claimed by a
-- round of the loop.
pub scan-In :
    (raced : Ident → Bool) (n : Node) (running : List Job) (held : Bool) (js : List Job) (c : Job)
    → scan raced n running held js ≡ some c
    → In c js × (raced c.id ≡ false) × (verdict n running false c ≡ Verdict.claim)
unfolding scan
scan-In raced n running held [] c h = cc
scan-In raced n running held (j ∷ js) c h = ground (
  arith,
  verdict_held n running held j,
  scan-In raced n running held js c,
  scan-In raced n running true js c,
)

-- The claim of a pending row changes that row and no other.
claim_row_In :
    (now : Time) (jobs : List Job) (c : Job)
    → DistinctKeys (λ (j : Job). j.id) jobs
    → In c jobs
    → is_pending c.status ≡ true
    → (x : Job)
    → In x (claim_row c.id now jobs) ↔ ((x ≡ started now c) ⊎ (In x jobs × (x.id ≢ c.id)))
claim_row_In now jobs c keys row waits x = (forth, back)
  where
    test : Job → Bool
    test r = r.id == c.id && is_pending r.status

    unique : (b : Job) → In b jobs → b.id ≡ c.id → b ≡ c
    unique b m e = row_unique (λ (j : Job). j.id) b c jobs keys m row e

    forth : In x (claim_row c.id now jobs) → (x ≡ started now c) ⊎ (In x jobs × (x.id ≢ c.id))
    forth m =
        let (b, mb, e) = In-of_update test (started now) x jobs m in
        elim (Bool-cases (b.id == c.id && is_pending b.status)) [
          | inl hit ↦ inl (e ∙ rw hit (ap (started now) (unique b mb (ground (arith, hit)))))
          | inr miss ↦
              let old : x ≡ b = e ∙ rw miss refl in
              inr (
                subst (λ y. In y jobs) (sym old) mb,
                λ same.
                    let here : b ≡ c = unique b mb (ap (λ (j : Job). j.id) (sym old) ∙ same) in
                    ground (arith, miss, here, waits),
              )
        ]

    hits : test c ≡ true
    hits = ground (arith, waits)

    back : (x ≡ started now c) ⊎ (In x jobs × (x.id ≢ c.id)) → In x (claim_row c.id now jobs)
    back (inl e) =
        subst (λ y. In y (claim_row c.id now jobs)) (rw (hits, test) (sym e))
          (In-update test (started now) c jobs row)
    back (inr (m, other)) =
        let misses : test x ≡ false = ground (arith, other) in
        rw (misses, test) at (In-update test (started now) x jobs m)

module _ (raced : Ident → Bool) (n : Node) (now : Time) (jobs : List Job) where
  abbrev pub chosen : Option Job
  chosen = scan raced n (select (holds_node n) jobs) false (pending_of n jobs)

  abbrev pub others : List Job
  others = others_took raced now jobs

  pub others-DistinctKeys :
      DistinctKeys (λ (j : Job). j.id) jobs → DistinctKeys (λ (j : Job). j.id) others
  others-DistinctKeys keys =
      DistinctKeys-update (λ (j : Job). j.id) (λ r. raced r.id && is_pending r.status) (started now)
        jobs (λ x. refl) keys

  -- A row that nobody took stays.
  pub untaken : (c : Job) → In c jobs → raced c.id ≡ false → In c others
  untaken c m won =
      let kept =
        In-update (λ (r : Job). raced r.id && is_pending r.status) (started now) c jobs m in
      rw won at kept

  -- A node is handed a job of its own that was pending in the table and that no other request took. In a
  -- table whose jobs have identifiers of their own, that row is then running since now, and every other row is
  -- as the other requests left it.
  pub next_job_sound :
      (given : Job)
      → DistinctKeys (λ (j : Job). j.id) jobs
      → (next_job raced n now jobs).0 ≡ some given
      → (c : Job) × In c jobs
        × (c.node_id ≡ n.id)
        × (is_pending c.status ≡ true)
        × (raced c.id ≡ false)
        × (given ≡ record c { status = JobStatus.running; started_at = some now })
        × ((x : Job)
            → In x (next_job raced n now jobs).1
              ↔ ((x ≡ given) ⊎ (In x (others_took raced now jobs) × (x.id ≢ c.id))))
  unfolding next_job hand_out
  next_job_sound given keys h = elim (Option-cases chosen) [
    | inl nothing ↦ cc (nothing)
    | inr (c, taken) ↦
        let (m, won, _) = scan-In raced n _ false _ c taken in
        let (row, owner, waits) = pending_of-In n jobs c m in
        let same : given ≡ started now c = ground arith in
        (
          c,
          row,
          owner,
          waits,
          won,
          same,
          λ x.
              subst (λ t. In x t ↔ ((x ≡ given) ⊎ (In x others × (x.id ≢ c.id))))
                (sym (table c taken))
                (subst
                  (λ g.
                    In x (claim_row c.id now others) ↔ ((x ≡ g) ⊎ (In x others × (x.id ≢ c.id))))
                  (sym same)
                  (claim_row_In now others c (others-DistinctKeys keys) (untaken c row won) waits
                    x)),
        )
  ]
    where
      table :
          (c : Job) → chosen ≡ some c → (next_job raced n now jobs).1 ≡ claim_row c.id now others
      table c taken = ap (λ o. (hand_out now others o).1) taken

  -- A node that is handed nothing leaves the table to the others.
  pub next_job-none :
      (next_job raced n now jobs).0 ≡ none
      → (next_job raced n now jobs).1 ≡ others_took raced now jobs
  unfolding next_job hand_out
  next_job-none h = ground arith
