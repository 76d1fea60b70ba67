-- ===== src/Placement.antt =====
-- internal/services/placement.go: the order in which the nodes that could take an app are tried, and
-- failoverTarget of health_service.go. Floating-point numbers are an interface; a node's uptime in percent
-- (uptimeOf) is an argument, `none` where the source has a negative number.
pub mod Order
pub mod Target
pub mod Examples
use asdl_hub.Prelude.{
  ℕ, zero, suc, ◌+◌, ◌-◌, ◌*◌, ◌/◌, ◌%◌, ◌≤◌, ◌<◌, min, max, String, ◌≡◌, refl, sym, ap, ◌∙◌, subst,
  fun_ext, ◌≢◌, ◌↔◌, ◌⊎◌, inl, inr, Bool, true, false, ◌&&◌, ◌||◌, not, Option, none, some, List,
  [], ◌∷◌, ◌++◌, map, append_assoc, append-nil, arith, ltb, leb, ◌==◌, if◌then◌else◌, ltb→lt,
  lt→ltb, leb→le, le→leb, ==_iff, tests, Bool-cases, Option-cases, is_some, length, take, drop,
  get_elem?, select, first, update, any, head, All, In, length-append, length-drop, length-take,
  All_of_In, first-In, first_passes, select-In, In-select, str_eq, str_eq_iff, stable_sort,
  IsSorted, insert_sorted, stable_sort-perm, In-of_stable_sort, In-stable_sort, length-stable_sort,
  stable_sort-IsSorted, In-of_update, In-update, DistinctKeys, row_unique, save_each,
  save_each-select, length-select-update, length-select-update_le,
}
use asdl_hub.Models.{
  Ident, Time, Text, Node, Project, NodeOutage, Migration, minute, hour, is_available,
  is_run_failed,
}
use asdl_hub.Hub.{Hub}
use asdl_hub.Deploy.Markers.{codes}
use asdl_hub.Deploy.Ports.{fixed_port_clash}

-- float64, as far as the ranking uses it, on numbers that are not NaN.
pub record Float (F : Type 0) : Type 0 where
  pub of_nat : ℕ → F
  pub hundredths : ℕ → F
  pub add : F → F → F
  pub sub : F → F → F
  pub mul : F → F → F
  pub div : F → F → F
  pub larger : F → F → F
  pub less : F → F → Bool
  pub less_asym : (a b : F) → less a b ≡ true → less b a ≡ false
  pub not_less_trans : (a b c : F) → less a b ≡ false → less b c ≡ false → less a c ≡ false

-- `<` on strings; the order of code points is that of the bytes in UTF-8.
unfoldable pub text_less : Text → Text → Bool
text_less [] [] = false
text_less [] (d ∷ t) = true
text_less (c ∷ s) [] = false
text_less (c ∷ s) (d ∷ t) = let rest = text_less s t in if ltb c d then true else c == d && rest

pub record Candidate (F : Type 0) : Type 0 where
  pub node : Node
  pub uptime_7d : Option F
  pub outages_today : ℕ
  pub is_master : Bool

abbrev pub failover_cooldown : ℕ
failover_cooldown = 30 * minute

module _ {F : Type 0} (f : Float F) where
  unfoldable pub score : Candidate F → F
  score c =
      let health = f.of_nat c.node.health_score in
      let blended : F = elim c.uptime_7d [
        | none ↦ health
        | some u ↦
            let reliability =
              f.larger (f.of_nat 0)
                (f.sub (f.of_nat 100) (f.mul (f.sub (f.of_nat 100) u) (f.of_nat 3))) in
            f.add (f.mul health (f.hundredths 40)) (f.mul reliability (f.hundredths 60))
      ] in
      f.sub blended (f.mul (f.of_nat 15) (f.of_nat c.outages_today))

  -- The share that is free is below the given hundredths; more used than there is counts as nothing free.
  abbrev pub short_of : ℕ → ℕ → ℕ → Bool
  short_of total used share =
      ltb 0 total && f.less (f.div (f.of_nat (total - used)) (f.of_nat total)) (f.hundredths share)

  unfoldable pub has_headroom : Candidate F → Bool
  has_headroom c =
      if short_of c.node.memory_total c.node.memory_used 10
      then false
      else not (short_of c.node.disk_total c.node.disk_used 5)

  -- The comparison of the sort: headroom, then the master node, then the score, then the name.
  unfoldable pub precedes : Candidate F → Candidate F → Bool
  precedes a b =
      if not (has_headroom a && has_headroom b) && (has_headroom a || has_headroom b)
      then has_headroom a
      else if not (a.is_master && b.is_master) && (a.is_master || b.is_master)
      then a.is_master
      else if f.less (score b) (score a)
      then true
      else if f.less (score a) (score b)
      then false
      else text_less (codes a.node.hostname) (codes b.node.hostname)

  unfoldable pub rank_placements : List (Candidate F) → List (Candidate F)
  rank_placements cands = stable_sort precedes cands

  -- What the gathering of the candidates reads beside the Hub's tables.
  pub record Facts : Type 0 where
    pub uptime : Node → Option F
    pub node_outages : List NodeOutage
    pub master : Option Ident

  -- An outage that was not planned and is open or ended within the last day.
  unfoldable pub recent_outage : Time → Ident → NodeOutage → Bool
  recent_outage now node_id o =
      o.node_id == node_id
      && not o.planned
      && (elim o.ended_at [ none ↦ true | some t ↦ ltb now (t + 24 * hour) ])

  abbrev pub is_the_master : Option Ident → Ident → Bool
  is_the_master none id = false
  is_the_master (some m) id = id == m

  unfoldable pub candidate : Facts → Time → Node → Candidate F
  candidate facts now n = record {
    node = n;
    uptime_7d = facts.uptime n;
    outages_today = length (select (recent_outage now n.id) facts.node_outages);
    is_master = is_the_master facts.master n.id;
  }

  -- Online, not in maintenance, not where the app is, not excluded, and with the app's fixed ports free.
  unfoldable pub can_take : Project → List Ident → Hub → Node → Bool
  can_take p excluded h n =
      is_available n
      && not (n.id == p.node_id)
      && not (any (λ i. i == n.id) excluded)
      && fixed_port_clash h.projects n p == 0

  unfoldable pub placement_candidates :
      Facts → Project → List Ident → Time → Hub → List (Candidate F)
  placement_candidates facts p excluded now h =
      map (candidate facts now) (select (can_take p excluded h) h.nodes)

  -- A failover of the app to the node that failed within the cooldown.
  unfoldable pub failed_lately : Time → Project → Migration → Bool
  failed_lately now p m =
      m.project_id == p.id && is_run_failed m.status && ltb now (m.created_at + failover_cooldown)

  unfoldable pub failed_targets : Time → Project → Hub → List Ident
  failed_targets now p h = map (λ m. m.target_node_id) (select (failed_lately now p) h.migrations)

  abbrev pub node_of : Option (Candidate F) → Option Node
  node_of none = none
  node_of (some c) = some c.node

  unfoldable pub failover_target : Facts → Time → Project → Hub → Option Node
  failover_target facts now p h =
      node_of (head (rank_placements (placement_candidates facts p (failed_targets now p h) now h)))
