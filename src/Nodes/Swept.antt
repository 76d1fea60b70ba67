-- ===== src/Nodes/Swept.antt =====
-- internal/services/node_service.go: which nodes the sweep marks offline.
use asdl_hub.Prelude.{
  suc, ◌-◌, ◌≤◌, ◌<◌, ◌≡◌, refl, sym, ap, ◌∙◌, inl, inr, Bool, true, false, ◌&&◌, List, [], ◌∷◌,
  ◌++◌, append_assoc, append-nil, arith, ltb, lt→ltb, Bool-cases, select, update, DistinctKeys,
  save_each, save_each-select, select-select,
}
use asdl_hub.Models.{Ident, Time, Node}
use asdl_hub.Hub.{Notice, node_offline}
use asdl_hub.Nodes.{Fleet}
use asdl_hub.Nodes.Handlers.{offline_grace, is_silent, mark_offline, sweep_each, sweep_offline}

abbrev went_silent : Node → Node
went_silent n = record n { online = false }

abbrev pub offline_notices : List Node → List Notice
offline_notices [] = []
offline_notices (n ∷ ns) = node_offline 0 n.id ∷ offline_notices ns

sweep_each-nodes :
    (next_id : Ident) (now : Time) (ns : List Node) (f : Fleet)
    → (sweep_each next_id now ns f).hub.nodes
      ≡ save_each
          (λ (n : Node). n.id)
          (λ r x. went_silent r)
          (select (is_silent now) ns)
          f.hub.nodes
unfolding sweep_each
sweep_each-nodes next_id now [] f = refl
sweep_each-nodes next_id now (n ∷ ns) f = elim (Bool-cases (is_silent now n)) [
  | inl silent ↦
      rw (sweep_each, silent) (sweep_each-nodes (suc next_id) now ns (mark_offline next_id n f))
  | inr fresh ↦ rw (sweep_each, fresh) (sweep_each-nodes (suc next_id) now ns f)
]

sweep_each-notices :
    (next_id : Ident) (now : Time) (ns : List Node) (f : Fleet)
    → (sweep_each next_id now ns f).hub.notices
      ≡ f.hub.notices ++ offline_notices (select (is_silent now) ns)
unfolding sweep_each
sweep_each-notices next_id now [] f = sym (append-nil f.hub.notices)
sweep_each-notices next_id now (n ∷ ns) f = elim (Bool-cases (is_silent now n)) [
  | inl silent ↦
      rw (sweep_each, silent)
        (sweep_each-notices (suc next_id) now ns (mark_offline next_id n f)
          ∙ append_assoc f.hub.notices (node_offline 0 n.id ∷ []) _)
  | inr fresh ↦ rw (sweep_each, fresh) (sweep_each-notices (suc next_id) now ns f)
]

abbrev pub goes_offline : Time → Node → Bool
goes_offline now n = n.online && is_silent now n

-- In a table whose nodes have identifiers of their own, the sweep changes no node and tells nobody in the
-- two minutes after the Hub started; later it marks offline the nodes that are online and were silent for
-- more than 90 seconds, changes no other node, and sends one notice for each.
pub sweep_exact :
    (next_id : Ident) (now started : Time) (f : Fleet)
    → DistinctKeys (λ (n : Node). n.id) f.hub.nodes
    → let swept = sweep_offline next_id now started f in
      (now - started < offline_grace
        → (swept.hub.nodes ≡ f.hub.nodes) × (swept.hub.notices ≡ f.hub.notices))
      × (offline_grace ≤ now - started
          → (swept.hub.nodes
              ≡ update (goes_offline now) (λ n. record n { online = false }) f.hub.nodes)
            × (swept.hub.notices
                ≡ f.hub.notices ++ offline_notices (select (goes_offline now) f.hub.nodes)))
unfolding sweep_offline
sweep_exact next_id now started f keys = (
  (λ early.
      let grace : ltb (now - started) offline_grace ≡ true = lt→ltb _ _ early in
      rw grace (refl, refl)),
  (λ later.
      let over : ltb (now - started) offline_grace ≡ false = ground (arith, later) in
      let both = select-select (is_silent now) (λ n. n.online) f.hub.nodes in
      rw over (
        sweep_each-nodes next_id now (select (λ n. n.online) f.hub.nodes) _
            ∙ ap (λ l. save_each (λ (n : Node). n.id) (λ r x. went_silent r) l f.hub.nodes) both
            ∙ save_each-select (λ (n : Node). n.id) (λ r x. went_silent r) (goes_offline now)
                f.hub.nodes keys (λ x. refl),
        sweep_each-notices next_id now (select (λ n. n.online) f.hub.nodes) _
            ∙ ap (λ l. f.hub.notices ++ offline_notices l) both,
      )),
)
