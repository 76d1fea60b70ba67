-- ===== src/Outages/Swept.antt =====
-- What the sweeps of node outages leave: none open for a node that is online, one for each that is offline.
use asdl_hub.Prelude.{
  ℕ, suc, ◌≡◌, refl, sym, ap, ◌∙◌, subst, ◌≢◌, inl, inr, Bool, true, false, ◌||◌, not, Option, none,
  some, List, [], ◌∷◌, ◌++◌, arith, ◌==◌, Bool-cases, Option-cases, select, first, any, In,
  In-select, In-of_update,
}
use asdl_hub.Models.{Ident, Time, Node, NodeOutage}
use asdl_hub.Outages.Nodes.{
  is_open, open_at, over, open_outage, close_each, close_outage, close_if_online,
  close_those_online, close_outages_of_online_nodes, open_those_offline,
  open_outages_for_offline_nodes,
}

-- A row that is still open was there, and is none of those that were closed.
still_open_each :
    (now : Time) (uptime : Option ℕ) (os t : List NodeOutage) (x : NodeOutage)
    → In x (close_each now uptime os t)
    → is_open x ≡ true
    → In x t × (In x os → ⊥)
unfolding close_each
still_open_each now uptime [] t x m live = (m, λ k. absurd k)
still_open_each now uptime (o ∷ os) t x m live =
    let (at, others) = still_open_each now uptime os _ x m live in
    let (b, row, e) = In-of_update (λ y. y.id == o.id) (over now uptime o) x t at in
    elim (Bool-cases (b.id == o.id)) [
      | inl hit ↦
          let ended : is_open x ≡ false = ap (λ y. is_open y) (rw hit at e) in
          absurd (cc (ended, live))
      | inr miss ↦
          let same : x ≡ b = rw miss at e in
          (
            subst (λ y. In y t) (sym same) row,
            λ k. elim k [
              | inl p ↦
                  let ids : b.id ≡ o.id = ap (λ (y : NodeOutage). y.id) (sym same ∙ p) in
                  absurd (ground arith)
              | inr q ↦ others q
            ],
          )
    ]

still_open :
    (node_id now : Time) (uptime : Option ℕ) (t : List NodeOutage) (x : NodeOutage)
    → In x (close_outage node_id now uptime t)
    → is_open x ≡ true
    → In x t × (open_at node_id x ≡ false)
unfolding close_outage
still_open node_id now uptime t x m live =
    let (row, kept) = still_open_each now uptime (select (open_at node_id) t) t x m live in
    elim (Bool-cases (open_at node_id x)) [
      | inl of_node ↦ absurd (kept (In-select (open_at node_id) t x row of_node))
      | inr other ↦ (row, other)
    ]

-- The node of the outage is gone or offline, or the row is not its node's.
abbrev Justified : List Node → NodeOutage → NodeOutage → Type 0
Justified nodes o x =
    (n : Node)
    → first (λ m. m.id == o.node_id) nodes ≡ some n
    → n.online ≡ true
    → open_at o.node_id x ≡ false

still_open_if :
    (nodes : List Node) (o x : NodeOutage) (t : List NodeOutage)
    → In x (close_if_online nodes o t)
    → is_open x ≡ true
    → In x t × Justified nodes o x
unfolding close_if_online
still_open_if nodes o x t m live = elim (Option-cases (first (λ n. n.id == o.node_id) nodes)) [
  | inl gone ↦ (rw (close_if_online, gone) at m, λ n found up. cc (gone, found))
  | inr (n, found) ↦ elim (Bool-cases n.online) [
    | inl up ↦
        let (row, other) =
          still_open o.node_id _ none t x (rw (close_if_online, found, up) at m) live in
        (row, λ k at_k up_k. other)
    | inr down ↦ (
      rw (close_if_online, found, down) at m,
      λ k at_k up_k. absurd (ground (arith, at_k, up_k, found, down)),
    )
  ]
]

still_open_those :
    (nodes : List Node) (os t : List NodeOutage) (x : NodeOutage)
    → In x (close_those_online nodes os t)
    → is_open x ≡ true
    → In x t × ((o : NodeOutage) → In o os → Justified nodes o x)
unfolding close_those_online
still_open_those nodes [] t x m live = (m, λ o k. absurd k)
still_open_those nodes (o ∷ os) t x m live =
    let (at, later) = still_open_those nodes os _ x m live in
    let (row, here) = still_open_if nodes o x t at live in
    (
      row,
      λ p k. elim k [ inl e ↦ subst (λ q. Justified nodes q x) (sym e) here | inr q ↦ later p q ],
    )

-- After the sweep, an outage that is open belongs to no node that is online.
pub no_open_outage_online :
    (nodes : List Node) (t : List NodeOutage) (x : NodeOutage) (n : Node)
    → In x (close_outages_of_online_nodes nodes t)
    → is_open x ≡ true
    → first (λ m. m.id == x.node_id) nodes ≡ some n
    → n.online ≡ false
unfolding close_outages_of_online_nodes
no_open_outage_online nodes t x n m live found =
    let (row, closed) = still_open_those nodes (select is_open t) t x m live in
    elim (Bool-cases n.online) [
      | inl up ↦
          let other = closed x (In-select is_open t x row live) n found up in
          absurd (ground (arith, other, live))
      | inr down ↦ down
    ]

any-append : (p : NodeOutage → Bool) (s t : List NodeOutage) → any p (s ++ t) ≡ (any p s || any p t)
any-append p [] t = refl
any-append p (x ∷ s) t = ground (arith, any-append p s t)

any_front : (p : NodeOutage → Bool) (s t : List NodeOutage) → any p s ≡ true → any p (s ++ t) ≡ true
any_front p s t h = ground (arith, any-append p s t)

any_last :
    (p : NodeOutage → Bool) (s : List NodeOutage) (x : NodeOutage)
    → p x ≡ true
    → any p (s ++ x ∷ []) ≡ true
any_last p s x h = ground (arith, any-append p s (x ∷ []))

opened :
    (next_id : Ident) (n : Node) (t : List NodeOutage)
    → any (open_at n.id) (open_outage next_id n t) ≡ true
unfolding open_outage
opened next_id n t = elim (Bool-cases (any (open_at n.id) t)) [
  | inl already ↦ rw already already
  | inr free ↦ rw free (any_last (open_at n.id) t _ (ground arith))
]

stays_open :
    (p : NodeOutage → Bool) (next_id : Ident) (n : Node) (t : List NodeOutage)
    → any p t ≡ true
    → any p (open_outage next_id n t) ≡ true
unfolding open_outage
stays_open p next_id n t live = elim (Bool-cases (any (open_at n.id) t)) [
  | inl already ↦ rw already live
  | inr free ↦ rw free (any_front p t _ live)
]

stay_open :
    (p : NodeOutage → Bool) (next_id : Ident) (ns : List Node) (t : List NodeOutage)
    → any p t ≡ true
    → any p (open_those_offline next_id ns t) ≡ true
unfolding open_those_offline
stay_open p next_id [] t live = live
stay_open p next_id (n ∷ ns) t live = elim (Bool-cases (not (n.last_heartbeat == 0))) [
  | inl seen ↦
      rw (open_those_offline, seen) (stay_open p (suc next_id) ns _ (stays_open p next_id n t live))
  | inr never ↦ rw (open_those_offline, never) (stay_open p (suc next_id) ns t live)
]

opened_each :
    (next_id : Ident) (ns : List Node) (t : List NodeOutage) (n : Node)
    → In n ns
    → n.last_heartbeat ≢ 0
    → any (open_at n.id) (open_those_offline next_id ns t) ≡ true
unfolding open_those_offline
opened_each next_id [] t n m seen = absurd m
opened_each next_id (k ∷ ns) t n (inl e) seen =
    let heard : not (k.last_heartbeat == 0) ≡ true =
      ground (arith, ap (λ (x : Node). x.last_heartbeat) e) in
    rw (open_those_offline, heard)
      (stay_open (open_at n.id) (suc next_id) ns _ (
        subst (λ x. any (open_at x.id) (open_outage next_id k t) ≡ true) (sym e)
          (opened next_id k t)))
opened_each next_id (k ∷ ns) t n (inr m) seen = opened_each (suc next_id) ns _ n m seen

-- After the sweep, every offline node that has ever sent a heartbeat has an open outage.
pub offline_has_outage :
    (next_id : Ident) (nodes : List Node) (t : List NodeOutage) (n : Node)
    → In n nodes
    → n.online ≡ false
    → n.last_heartbeat ≢ 0
    → any (open_at n.id) (open_outages_for_offline_nodes next_id nodes t) ≡ true
unfolding open_outages_for_offline_nodes
offline_has_outage next_id nodes t n row down seen =
    opened_each next_id (select (λ m. not m.online) nodes) t n
      (In-select (λ m. not m.online) nodes n row (ap not down)) seen
