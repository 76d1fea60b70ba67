-- ===== src/Placement/Target.antt =====
-- Where a failover may go.
use asdl_hub.Prelude.{
  ◌≡◌, refl, sym, ap, ◌∙◌, subst, ◌≢◌, inl, inr, true, false, some, List, [], ◌∷◌, map, arith, ◌==◌,
  any, head, In, select-In, In-select, In-of_stable_sort,
}
use asdl_hub.Models.{Ident, Time, Node, Project, Migration, is_available}
use asdl_hub.Hub.{Hub}
use asdl_hub.Deploy.Ports.{fixed_port_clash}
use asdl_hub.Placement.{
  Float, Candidate, Facts, candidate, can_take, placement_candidates, failed_lately, failed_targets,
  rank_placements, precedes, node_of, failover_target,
}

In-map :
    {A B : Type 0} (g : A → B) (b : B) (xs : List A)
    → In b (map g xs)
    → (a : A) × In a xs × (b ≡ g a)
In-map g b [] m = absurd m
In-map g b (x ∷ xs) (inl e) = (x, inl refl, e)
In-map g b (x ∷ xs) (inr m) = let (a, at, e) = In-map g b xs m in (a, inr at, e)

map-In : {A B : Type 0} (g : A → B) (a : A) (xs : List A) → In a xs → In (g a) (map g xs)
map-In g a [] m = m
map-In g a (x ∷ xs) (inl e) = inl (ap g e)
map-In g a (x ∷ xs) (inr m) = inr (map-In g a xs m)

any_of_In : (i : Ident) (is : List Ident) → In i is → any (λ j. j == i) is ≡ true
any_of_In i [] m = absurd m
any_of_In i (j ∷ is) (inl e) = ground (arith, e)
any_of_In i (j ∷ is) (inr m) = ground (arith, any_of_In i is m)

module _ {F : Type 0} (f : Float F) (facts : Facts f) (now : Time) (p : Project) (h : Hub) where
  head_node :
      (cs : List (Candidate F)) (n : Node)
      → node_of f (head cs) ≡ some n
      → (c : Candidate F) × In c cs × (c.node ≡ n)
  head_node [] n e = cc (e)
  head_node (c ∷ cs) n e = (c, inl refl, ground arith)

  abbrev pub MayTake : Node → Type 0
  MayTake n =
      In n h.nodes
      × (is_available n ≡ true)
      × (n.id ≢ p.node_id)
      × (fixed_port_clash h.projects n p ≡ 0)
      × ((m : Migration)
          → In m h.migrations
          → failed_lately f now p m ≡ true
          → m.target_node_id ≢ n.id)

  can_take-MayTake :
      (n : Node) → In n h.nodes → can_take f p (failed_targets f now p h) h n ≡ true → MayTake n
  unfolding can_take failed_targets
  can_take-MayTake n row fits =
      let fresh : any (λ i. i == n.id) (failed_targets f now p h) ≡ false = ground arith in
      (
        row,
        ground arith,
        ground arith,
        ground arith,
        λ m at failed target. cc (
          fresh,
          any_of_In n.id (failed_targets f now p h) (
              subst (λ i. In i (failed_targets f now p h)) target
                (map-In (λ (x : Migration). x.target_node_id) m _
                  (In-select (failed_lately f now p) h.migrations m at failed))),
        ),
      )

  -- An app is only failed over to a node of the table that is online and not in maintenance, that is not
  -- the app's own, on which the app's fixed ports are free, and to which no failover of the app that
  -- was created in the last half hour has failed.
  pub failover_target_sound : (n : Node) → failover_target f facts now p h ≡ some n → MayTake n
  unfolding failover_target rank_placements placement_candidates candidate
  failover_target_sound n e =
      let cands = placement_candidates f facts p (failed_targets f now p h) now h in
      let (c, ranked, same) = head_node (rank_placements f cands) n e in
      let (k, taken, made) =
        In-map (candidate f facts now) c _ (In-of_stable_sort (precedes f) c cands ranked) in
      let (row, fits) = select-In (can_take f p (failed_targets f now p h) h) h.nodes k taken in
      subst MayTake (ap (λ (x : Candidate F). x.node) (sym made) ∙ same)
        (can_take-MayTake k row fits)
