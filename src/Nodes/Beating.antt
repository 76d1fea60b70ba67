-- ===== src/Nodes/Beating.antt =====
-- internal/services/node_service.go: a node that sends heartbeats in time is not marked offline.
use asdl_hub.Prelude.{
  suc, ◌+◌, ◌-◌, ◌≤◌, ◌≡◌, refl, ◌≢◌, inl, inr, Bool, true, false, some, List, [], ◌∷◌, arith, ltb,
  ◌==◌, if◌then◌else◌, Bool-cases, select, update, All,
}
use asdl_hub.Models.{Ident, Time, Node}
use asdl_hub.Placement.{Float}
use asdl_hub.Nodes.{Fleet, node_by_address}
use asdl_hub.Nodes.Handlers.{
  NodeReport, heartbeat, scored, as_reported, offline_grace, heartbeat_timeout, is_silent,
  mark_offline, sweep_each, sweep_offline,
}

-- Every row of the node is online since the heartbeat at `t`.
abbrev pub OnlineSince : Ident → Time → List Node → Type 0
OnlineSince i t ns = All (λ n. n.id ≡ i → (n.online ≡ true) × (n.last_heartbeat ≡ t)) ns

save-OnlineSince :
    (i : Ident) (t : Time) (r : Node) (ns : List Node)
    → (r.id ≡ i → (r.online ≡ true) × (r.last_heartbeat ≡ t))
    → OnlineSince i t ns
    → OnlineSince i t (update (λ x. x.id == r.id) (λ x. r) ns)
save-OnlineSince i t r [] h o = tt
save-OnlineSince i t r (n ∷ ns) h o = (
  elim (n.id == r.id)
      as (λ b.
        let m : Node = if b then r else n in
        m.id ≡ i → (m.online ≡ true) × (m.last_heartbeat ≡ t)) [ true ↦ h | false ↦ o.0 ],
  save-OnlineSince i t r ns h o.1,
)

sweep_each-OnlineSince :
    (i : Ident) (t : Time) (next_id : Ident) (now : Time) (ns : List Node) (f : Fleet)
    → now ≤ t + heartbeat_timeout
    → OnlineSince i t ns
    → OnlineSince i t f.hub.nodes
    → OnlineSince i t (sweep_each next_id now ns f).hub.nodes
unfolding sweep_each
sweep_each-OnlineSince i t next_id now [] f k o h = h
sweep_each-OnlineSince i t next_id now (n ∷ ns) f k o h = elim (Bool-cases (is_silent now n)) [
  | inr fresh ↦ rw (sweep_each, fresh) (sweep_each-OnlineSince i t (suc next_id) now ns f k o.1 h)
  | inl silent ↦
      let other : n.id ≢ i = λ e. ground (arith, silent, (o.0 e).1) in
      rw (sweep_each, silent)
        (sweep_each-OnlineSince i t (suc next_id) now ns (mark_offline next_id n f) k o.1 (
          save-OnlineSince i t (record n { online = false }) f.hub.nodes (λ e. absurd (other e)) h))
]

online-OnlineSince :
    (i : Ident) (t : Time) (p : Node → Bool) (ns : List Node)
    → OnlineSince i t ns
    → OnlineSince i t (select p ns)
online-OnlineSince i t p [] o = tt
online-OnlineSince i t p (n ∷ ns) o =
    elim (p n) as (λ b. OnlineSince i t (if b then n ∷ select p ns else select p ns)) [
      | true ↦ (o.0, online-OnlineSince i t p ns o.1)
      | false ↦ online-OnlineSince i t p ns o.1
    ]

-- A sweep: the next identifier, the moment, and when the Hub started.
abbrev pub Sweep : Type 0
Sweep = Ident × Time × Time

unfoldable pub sweep_all : List Sweep → Fleet → Fleet
sweep_all [] f = f
sweep_all ((next_id, now, started) ∷ ss) f = sweep_all ss (sweep_offline next_id now started f)

sweep_offline-OnlineSince :
    (i : Ident) (t : Time) (next_id : Ident) (now started : Time) (f : Fleet)
    → now ≤ t + heartbeat_timeout
    → OnlineSince i t f.hub.nodes
    → OnlineSince i t (sweep_offline next_id now started f).hub.nodes
unfolding sweep_offline
sweep_offline-OnlineSince i t next_id now started f k h =
    elim (Bool-cases (ltb (now - started) offline_grace)) [
      | inl early ↦ rw early h
      | inr later ↦ rw later (
          sweep_each-OnlineSince i t next_id now (select (λ n. n.online) f.hub.nodes) _ k
            (online-OnlineSince i t (λ n. n.online) f.hub.nodes h) h)
    ]

sweep_all-OnlineSince :
    (i : Ident) (t : Time) (ss : List Sweep) (f : Fleet)
    → All (λ (s : Sweep). s.1 ≤ t + heartbeat_timeout) ss
    → OnlineSince i t f.hub.nodes
    → OnlineSince i t (sweep_all ss f).hub.nodes
unfolding sweep_all
sweep_all-OnlineSince i t [] f k h = h
sweep_all-OnlineSince i t ((next_id, now, started) ∷ ss) f k h =
    sweep_all-OnlineSince i t ss (sweep_offline next_id now started f) k.1
      (sweep_offline-OnlineSince i t next_id now started f k.0 h)

saved-OnlineSince :
    (i : Ident) (t : Time) (r : Node) (ns : List Node)
    → r.id ≡ i
    → (r.online ≡ true) × (r.last_heartbeat ≡ t)
    → OnlineSince i t (update (λ x. x.id == r.id) (λ x. r) ns)
saved-OnlineSince i t r [] e h = tt
saved-OnlineSince i t r (n ∷ ns) e h = (
  elim (Bool-cases (n.id == r.id)) [
    | inl same ↦ rw same (λ x. h)
    | inr other ↦ rw other (λ x. absurd (ground (arith, x, e, other)))
  ],
  saved-OnlineSince i t r ns e h,
)

-- After a heartbeat from the address of a node, sweeps in the 90 seconds that follow leave every row of that
-- node online.
pub beating_stays_online :
    {F : Type 0} (float : Float F) (addr : Ident) (req : NodeReport) (t : Time) (f : Fleet)
    (n : Node) (ss : List Sweep)
    → node_by_address addr f ≡ some n
    → All (λ (s : Sweep). s.1 ≤ t + heartbeat_timeout) ss
    → OnlineSince n.id t (sweep_all ss (heartbeat float addr req t f).1).hub.nodes
unfolding heartbeat
beating_stays_online float addr req t f n ss found times = sweep_all-OnlineSince n.id t ss _ times (
    rw (heartbeat, found)
      (saved-OnlineSince n.id t (scored float t (as_reported req t n)) _ refl (refl, refl)))
