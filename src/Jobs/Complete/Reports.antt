-- ===== src/Jobs/Complete/Reports.antt =====
-- Which reports the Hub acts on, and that acting on one twice is acting on it once.
use asdl_hub.Prelude.{
  ◌≡◌, refl, sym, ap, ◌∙◌, subst, ◌≢◌, ◌⊎◌, inl, inr, Bool, true, false, Option, none, some, List,
  [], ◌∷◌, ◌++◌, append-nil, arith, ◌==◌, if◌then◌else◌, ==_iff, Option-cases, first, update, In,
  first-In, first_passes, str_eq_iff,
}
use asdl_hub.Models.{Ident, Job, JobStatus, Node, is_deploy, same_status, status_text}
use asdl_hub.Hub.{Hub, job_by_id, update_job}
use asdl_hub.Jobs.LiveLog.{finish}
use asdl_hub.Jobs.Complete.{
  World, Report, Response, reported, complete_migration, complete_deploy, accept, is_repeat,
  authorized, judge, complete,
}
use asdl_hub.Jobs.Complete.Frame.{Grows-complete_deploy, complete_migration_frame}

same_status_refl : (s : JobStatus) → same_status s s ≡ true
same_status_refl s = ground (arith, str_eq_iff (status_text s) (status_text s))

first_append :
    {A : Type 0} (p : A → Bool) (xs ys : List A) (a : A)
    → first p xs ≡ some a
    → first p (xs ++ ys) ≡ some a
first_append p [] ys a h = cc
first_append p (x ∷ xs) ys a h = ground (arith, first_append p xs ys a)

-- The row that a report replaces is found again under its identifier.
first_updated :
    (id : Ident) (new : Job) (js : List Job) (old : Job)
    → new.id ≡ id
    → first (λ j. j.id == id) js ≡ some old
    → first (λ j. j.id == id) (update (λ j. j.id == id) (λ x. new) js) ≡ some new
first_updated id new [] old e h = cc
first_updated id new (j ∷ js) old e h = ground (arith, first_updated id new js old e)

module _ (w : World) (r : Report) (j : Job) (h : Hub) where
  -- The hub when the report itself is written, before a deploy is settled.
  abbrev base : Hub
  base =
      let saved = update_job j.id (λ x. reported w r j) h in
      complete_migration w (reported w r j)
        (record saved { live_logs = finish j.id r.status saved.live_logs })

  base_frame :
      (base.nodes ≡ h.nodes) × (base.jobs ≡ update (λ x. x.id == j.id) (λ x. reported w r j) h.jobs)
  base_frame =
      let saved = update_job j.id (λ x. reported w r j) h in
      let (n, m, _) =
        complete_migration_frame w (reported w r j)
          (record saved { live_logs = finish j.id r.status saved.live_logs }) in
      (n, m)

  accept_nodes_jobs :
      (extra : List Job) × ((accept w r j h).nodes ≡ h.nodes)
      × ((accept w r j h).jobs ≡ update (λ x. x.id == j.id) (λ x. reported w r j) h.jobs ++ extra)
  unfolding accept
  accept_nodes_jobs =
      elim (is_deploy j.kind)
        as (λ b.
          (extra : List Job) × ((if b then complete_deploy w (reported w r j) base else base).nodes
            ≡ h.nodes)
          × ((if b then complete_deploy w (reported w r j) base else base).jobs
              ≡ update (λ x. x.id == j.id) (λ x. reported w r j) h.jobs ++ extra)) [
                | true ↦
                    let grown = Grows-complete_deploy w (reported w r j) base in
                    (
                      grown.added,
                      grown.nodes ∙ base_frame.0,
                      grown.jobs ∙ ap (λ js. js ++ grown.added) base_frame.1,
                    )
                | false ↦ ([], base_frame.0, base_frame.1 ∙ sym (append-nil _))
              ]

  -- The table then has the job as reported, without its environment.
  job-accept : job_by_id j.id h ≡ some j → job_by_id j.id (accept w r j h) ≡ some (reported w r j)
  job-accept found =
      let (extra, _, grown) = accept_nodes_jobs in
      ap (first (λ x. x.id == j.id)) grown
      ∙ first_append (λ x. x.id == j.id) _ extra (reported w r j)
          (first_updated j.id (reported w r j) h.jobs j refl found)

module _ (w : World) (addr job_id : Ident) (r : Report) (h : Hub) where
  -- A report of a job that has just been reported so.
  again :
      (w' : World) (g : Hub) (j : Job)
      → job_by_id job_id g ≡ some (reported w r j)
      → authorized addr (reported w r j) g ≡ true
      → complete w' addr job_id (some r) g ≡ (Response.duplicate, g)
  unfolding complete judge
  again w' g j found allowed = rw (found, judge, allowed, same_status_refl r.status)

  still_allowed :
      (j : Job) (g : Hub)
      → g.nodes ≡ h.nodes
      → authorized addr j h ≡ true
      → authorized addr (reported w r j) g ≡ true
  unfolding authorized
  still_allowed j g same allowed = rw (same, authorized) allowed

  judged :
      (found : Option Job)
      → (judge w addr r h found).0 ≡ Response.accepted
      → (j : Job) × (found ≡ some j)
        × (authorized addr j h ≡ true)
        × (is_repeat r j ≡ false)
        × ((judge w addr r h found).1 ≡ accept w r j h)
  unfolding judge
  judged none e = cc
  judged (some j) e = (j, refl, ground arith, ground arith, ground arith)

  complete_accepted :
      (complete w addr job_id (some r) h).0 ≡ Response.accepted
      → (j : Job) × (job_by_id job_id h ≡ some j)
        × (authorized addr j h ≡ true)
        × (is_repeat r j ≡ false)
        × ((complete w addr job_id (some r) h).1 ≡ accept w r j h)
  unfolding complete
  complete_accepted e = judged (job_by_id job_id h) e

  owner :
      (j : Job)
      → authorized addr j h ≡ true
      → (n : Node) × In n h.nodes × (n.vpn_ip ≡ addr) × (n.id ≡ j.node_id)
  unfolding authorized
  owner j allowed = elim (Option-cases (first (λ n. n.vpn_ip == addr) h.nodes)) [
    | inl missing ↦ cc (missing)
    | inr (n, found) ↦ (
      n,
      first-In _ h.nodes n found,
      ground (arith, first_passes (λ n. n.vpn_ip == addr) h.nodes n found),
      ground arith,
    )
  ]

  refused :
      (found : Option Job)
      → ((judge w addr r h found).0 ≡ Response.accepted) ⊎ ((judge w addr r h found).1 ≡ h)
  unfolding judge
  refused none = inr refl
  refused (some j) = ground arith

  -- Only a request from the address of the node that a job was given to changes anything, and only if
  -- it is no repeat of what that node reported.
  pub only_owner_completes :
      (complete w addr job_id (some r) h).1 ≢ h
      → (j : Job) × (n : Node) × (job_by_id job_id h ≡ some j)
        × In n h.nodes
        × (n.vpn_ip ≡ addr)
        × (n.id ≡ j.node_id)
        × (is_repeat r j ≡ false)
  unfolding complete
  only_owner_completes changed = elim (refused (job_by_id job_id h)) [
    | inl taken ↦
        let (j, found, allowed, fresh, _) = judged (job_by_id job_id h) taken in
        let (n, row, at, node) = owner j allowed in (j, n, found, row, at, node, fresh)
    | inr same ↦ absurd (changed same)
  ]

  -- After a report that the Hub acted on, the table has the job as reported.
  pub reported_row :
      (complete w addr job_id (some r) h).0 ≡ Response.accepted
      → (j : Job) × (job_by_id job_id h ≡ some j)
        × (job_by_id job_id (complete w addr job_id (some r) h).1 ≡ some (reported w r j))
  reported_row e =
      let (j, found, allowed, fresh, after) = complete_accepted e in
      let id_same : j.id ≡ job_id =
        (==_iff j.id job_id).0 (first_passes (λ x. x.id == job_id) h.jobs j found) in
      let row = job-accept w r j h (subst (λ i. job_by_id i h ≡ some j) (sym id_same) found) in
      (
        j,
        found,
        rw after (subst (λ i. job_by_id i (accept w r j h) ≡ some (reported w r j)) id_same row),
      )

  -- A report that the Hub acted on, sent again at any later time, is answered as a duplicate and
  -- changes nothing: the deploy is not settled twice.
  pub complete_twice :
      (w' : World)
      → (complete w addr job_id (some r) h).0 ≡ Response.accepted
      → complete w' addr job_id (some r) (complete w addr job_id (some r) h).1
        ≡ (Response.duplicate, (complete w addr job_id (some r) h).1)
  complete_twice w' e =
      let (j, found, allowed, fresh, after) = complete_accepted e in
      let id_same : j.id ≡ job_id =
        (==_iff j.id job_id).0 (first_passes (λ x. x.id == job_id) h.jobs j found) in
      let (extra, same_nodes, _) = accept_nodes_jobs w r j h in
      let row = job-accept w r j h (subst (λ i. job_by_id i h ≡ some j) (sym id_same) found) in
      rw after (
        again w' (accept w r j h) j
          (subst (λ i. job_by_id i (accept w r j h) ≡ some (reported w r j)) id_same row)
          (still_allowed j (accept w r j h) same_nodes allowed))
