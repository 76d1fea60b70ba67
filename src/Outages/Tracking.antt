-- ===== src/Outages/Tracking.antt =====
-- internal/services/node_uptime.go and app_outages.go: since when outages are recorded, which a setting keeps,
-- and the latest heartbeats of node_outages.go that are kept.
use asdl_hub.Prelude.{
  String, ◌≡◌, refl, sym, ap, ◌∙◌, subst, inl, inr, Bool, true, false, ◌||◌, Option, none, some,
  List, [], ◌∷◌, arith, ◌==◌, if◌then◌else◌, ==_iff, Bool-cases, Option-cases, first, any, All,
  str_eq, str_eq_iff, DistinctKeys,
}
use asdl_hub.Models.{Ident, Time, Node, NodeOutage, AppOutage}
use asdl_hub.Outages.Apps.{open_app_outage}
use asdl_hub.Outages.Nodes.{open_outages_for_offline_nodes}
use asdl_hub.Nodes.{Heartbeat}

-- The time of the last change of a setting, which nothing reads, is left out.
pub record Setting : Type 0 where
  pub key : String
  pub value : String

-- The library's Format and Parse of an instant, in the format RFC 3339; the instant in UTC.
pub record Rfc3339 : Type 0 where
  pub format : Time → String
  pub parse : String → Option Time

abbrev has_key : String → Setting → Bool
has_key k s = str_eq s.key k

-- Save: the row of the key is rewritten, or made where there is none.
abbrev pub save_setting : String → String → List Setting → List Setting
save_setting k v [] = record { key = k; value = v } ∷ []
save_setting k v (s ∷ t) =
    let rest = save_setting k v t in if has_key k s then record s { value = v } ∷ t else s ∷ rest

abbrev stored_instant : Rfc3339 → Option Setting → Option Time
stored_instant rfc none = none
stored_instant rfc (some s) = rfc.parse s.value

abbrev since_or_now : Rfc3339 → String → Time → List Setting → Option Time → Time × List Setting
since_or_now rfc k now t (some since) = (since, t)
since_or_now rfc k now t none = (now, save_setting k (rfc.format now) t)

-- The instant at which tracking began, under a key; the first call records its own.
unfoldable pub tracking_since : Rfc3339 → String → Time → List Setting → Time × List Setting
tracking_since rfc k now t = since_or_now rfc k now t (stored_instant rfc (first (has_key k) t))

abbrev setting_tracked_since : String
setting_tracked_since = "outage_tracking_since"

abbrev setting_app_tracked_since : String
setting_app_tracked_since = "app_outage_tracking_since"

abbrev pub outage_tracking_since : Rfc3339 → Time → List Setting → Time × List Setting
outage_tracking_since rfc = tracking_since rfc setting_tracked_since

abbrev pub app_tracking_since : Rfc3339 → Time → List Setting → Time × List Setting
app_tracking_since rfc = tracking_since rfc setting_app_tracked_since

-- openAppOutage and openOutagesForOfflineNodes start the clock before they look at the outages.
abbrev pub open_tracked_app_outage :
    Rfc3339 → Ident → Ident → Time → List Setting × List AppOutage → List Setting × List AppOutage
open_tracked_app_outage rfc next_id project_id since (settings, t) =
    ((app_tracking_since rfc since settings).1, open_app_outage next_id project_id since t)

abbrev pub open_tracked_outages :
    Rfc3339
    → Ident
    → Time
    → List Node
    → List Setting × List NodeOutage
    → List Setting × List NodeOutage
open_tracked_outages rfc next_id now nodes (settings, t) =
    ((outage_tracking_since rfc now settings).1, open_outages_for_offline_nodes next_id nodes t)

-- Every row goes but the newest of each node; the newest is the last that was made.
unfoldable pub trim_heartbeats : List Heartbeat → List Heartbeat
trim_heartbeats [] = []
trim_heartbeats (x ∷ xs) =
    let rest = trim_heartbeats xs in if any (λ y. y.node_id == x.node_id) xs then rest else x ∷ rest

-- The value that was saved is the value that is read.
stored-save_setting :
    (rfc : Rfc3339) (k v : String) (t : List Setting)
    → stored_instant rfc (first (has_key k) (save_setting k v t)) ≡ rfc.parse v
stored-save_setting rfc k v [] = rw ((str_eq_iff k k).1 refl) refl
stored-save_setting rfc k v (s ∷ t) = elim (Bool-cases (has_key k s)) [
  | inl hit ↦ rw (hit, hit) refl
  | inr miss ↦ rw (miss, miss) (stored-save_setting rfc k v t)
]

-- A call that finds an instant returns it and changes nothing.
since_found :
    (rfc : Rfc3339) (k : String) (now since : Time) (t : List Setting)
    → stored_instant rfc (first (has_key k) t) ≡ some since
    → tracking_since rfc k now t ≡ (since, t)
unfolding tracking_since
since_found rfc k now since t e = rw e refl

since_missing :
    (rfc : Rfc3339) (k : String) (now : Time) (t : List Setting)
    → stored_instant rfc (first (has_key k) t) ≡ none
    → tracking_since rfc k now t ≡ (now, save_setting k (rfc.format now) t)
unfolding tracking_since
since_missing rfc k now t e = rw e refl

-- Once a call was made whose instant can be read back, every later call gives that instant, as it was written,
-- or the one recorded before, and changes nothing.
pub tracking_since_settled :
    (rfc : Rfc3339) (k : String) (now written : Time) (t : List Setting)
    → rfc.parse (rfc.format now) ≡ some written
    → (since : Time) × ((later : Time)
        → tracking_since rfc k later (tracking_since rfc k now t).1
          ≡ (since, (tracking_since rfc k now t).1))
tracking_since_settled rfc k now written t readable =
    elim (Option-cases (stored_instant rfc (first (has_key k) t))) [
      | inl missing ↦ (
        written,
        λ later. rw (since_missing rfc k now t missing) (
            since_found rfc k later written (save_setting k (rfc.format now) t)
              (stored-save_setting rfc k (rfc.format now) t ∙ readable)),
      )
      | inr (since, e) ↦
          (since, λ later. rw (since_found rfc k now since t e) (since_found rfc k later since t e))
    ]

abbrev newer : Option Heartbeat → Option Heartbeat → Option Heartbeat
newer none o = o
newer (some x) o = some x

-- The newest heartbeat of a node.
unfoldable pub latest : Ident → List Heartbeat → Option Heartbeat
latest i [] = none
latest i (x ∷ xs) = newer (latest i xs) (if x.node_id == i then some x else none)

any_moved :
    (i j : Ident) (t : List Heartbeat)
    → (i == j) ≡ true
    → any (λ y. y.node_id == i) t ≡ true
    → any (λ y. y.node_id == j) t ≡ true
any_moved i j t same h = subst (λ k. any (λ y. y.node_id == k) t ≡ true) ((==_iff i j).0 same) h

none_left :
    (i : Ident) (t : List Heartbeat)
    → any (λ y. y.node_id == i) t ≡ false
    → All (λ y. (y.node_id == i) ≡ false) t
none_left i [] h = tt
none_left i (x ∷ xs) h = (ground (arith, h), none_left i xs (ground (arith, h)))

newer-none : (o : Option Heartbeat) → newer o none ≡ o
newer-none none = refl
newer-none (some x) = refl

newer_kept :
    (l o : Option Heartbeat) (x : Heartbeat) → newer (newer l (some x)) o ≡ newer l (some x)
newer_kept none o x = refl
newer_kept (some y) o x = refl

-- A node that has a heartbeat later in the table has its newest there.
latest_hides :
    (i : Ident) (t : List Heartbeat) (o : Option Heartbeat)
    → any (λ y. y.node_id == i) t ≡ true
    → newer (latest i t) o ≡ latest i t
unfolding latest
latest_hides i [] o h = absurd (ground (arith, h))
latest_hides i (x ∷ xs) o h = elim (Bool-cases (x.node_id == i)) [
  | inl hit ↦ rw hit (newer_kept (latest i xs) o x)
  | inr miss ↦ rw (miss, newer-none (latest i xs)) (latest_hides i xs o (ground (arith, h, miss)))
]

hidden_row :
    (i : Ident) (x : Heartbeat) (xs : List Heartbeat)
    → any (λ y. y.node_id == x.node_id) xs ≡ true
    → any (λ y. y.node_id == i) (x ∷ xs) ≡ any (λ y. y.node_id == i) xs
hidden_row i x xs again = elim (Bool-cases (x.node_id == i)) [
  | inl hit ↦ rw hit (sym (any_moved x.node_id i xs hit again))
  | inr miss ↦ rw miss refl
]

any-trim :
    (i : Ident) (t : List Heartbeat)
    → any (λ y. y.node_id == i) (trim_heartbeats t) ≡ any (λ y. y.node_id == i) t
unfolding trim_heartbeats
any-trim i [] = refl
any-trim i (x ∷ xs) = elim (Bool-cases (any (λ y. y.node_id == x.node_id) xs)) [
  | inl again ↦ rw again (any-trim i xs ∙ sym (hidden_row i x xs again))
  | inr last_one ↦ rw last_one (ap (λ b. (x.node_id == i) || b) (any-trim i xs))
]

-- The trimmed table has at most one heartbeat of a node, and the newest one of each.
pub trim_heartbeats_exact :
    (t : List Heartbeat)
    → DistinctKeys (λ (x : Heartbeat). x.node_id) (trim_heartbeats t)
      × ((i : Ident) → latest i (trim_heartbeats t) ≡ latest i t)
unfolding trim_heartbeats latest
trim_heartbeats_exact [] = (tt, λ i. refl)
trim_heartbeats_exact (x ∷ xs) =
    let (distinct, same) = trim_heartbeats_exact xs in
    elim (Bool-cases (any (λ y. y.node_id == x.node_id) xs)) [
      | inl again ↦ rw again (distinct, λ i. same i ∙ sym (hidden i again))
      | inr last_one ↦ rw last_one (
        (none_left x.node_id (trim_heartbeats xs) (any-trim x.node_id xs ∙ last_one), distinct),
        λ i. rw (same i) refl,
      )
    ]
  where
    hidden :
        (i : Ident)
        → any (λ y. y.node_id == x.node_id) xs ≡ true
        → newer (latest i xs) (if x.node_id == i then some x else none) ≡ latest i xs
    hidden i again = elim (Bool-cases (x.node_id == i)) [
      | inl hit ↦ rw hit (latest_hides i xs (some x) (any_moved x.node_id i xs hit again))
      | inr miss ↦ rw miss (newer-none (latest i xs))
    ]
