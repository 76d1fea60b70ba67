-- ===== src/Outages/Apps.antt =====
-- internal/services/app_outages.go: the table of the stretches in which an app did not answer.
use asdl_hub.Prelude.{
  ◌-◌, ◌/◌, ◌≤◌, ◌≡◌, refl, ◌∙◌, inl, inr, Bool, ◌&&◌, not, none, some, List, [], ◌∷◌, ◌++◌, ltb,
  ◌==◌, if◌then◌else◌, Bool-cases, is_some, length, select, update, any, DistinctKeys, save_each,
  save_each-select,
}
use asdl_hub.Prelude.GoMap.{GoMap, nat_key, find, put}
use asdl_hub.Models.{Ident, Time, AppOutage, second}
use asdl_hub.Outages.Open.{add-OneOpen, update-OneOpen}

abbrev pub is_open : AppOutage → Bool
is_open o = not (is_some o.ended_at)

abbrev pub open_for : Ident → AppOutage → Bool
open_for id o = o.project_id == id && is_open o

-- `next_id` is the identifier that the database gives the row.
unfoldable pub open_app_outage : Ident → Ident → Time → List AppOutage → List AppOutage
open_app_outage next_id project_id since t =
    if any (open_for project_id) t
    then t
    else t
      ++ record {
        id = next_id;
        project_id = project_id;
        started_at = since;
        ended_at = none;
        seconds = 0;
      }
        ∷ []

-- The row `o` as it was read sets the length; the row `x` is the one that is written.
abbrev pub over : Time → AppOutage → AppOutage → AppOutage
over now o x = record x { ended_at = some now; seconds = (now - o.started_at) / second }

unfoldable pub close_each : Time → List AppOutage → List AppOutage → List AppOutage
close_each now [] t = t
close_each now (o ∷ os) t = close_each now os (update (λ x. x.id == o.id) (over now o) t)

unfoldable pub close_app_outage : Ident → Time → List AppOutage → List AppOutage
close_app_outage project_id now t = close_each now (select (open_for project_id) t) t

-- The earliest start of each app's open outages.
unfoldable pub keep_earliest : AppOutage → GoMap Ident Time → GoMap Ident Time
keep_earliest o out = elim (find o.project_id out) [
  | none ↦ put o.project_id o.started_at out
  | some t ↦ if ltb o.started_at t then put o.project_id o.started_at out else out
]

unfoldable pub collect_open : List AppOutage → GoMap Ident Time → GoMap Ident Time
collect_open [] out = out
collect_open (o ∷ os) out = collect_open os (keep_earliest o out)

unfoldable pub open_app_outages : List AppOutage → GoMap Ident Time
open_app_outages t = collect_open (select is_open t) []

abbrev owner : AppOutage → Ident
owner o = o.project_id

abbrev pub OneOpenEach : List AppOutage → Type 0
OneOpenEach t = (id : Ident) → length (select (open_for id) t) ≤ 1

close_each-OneOpen :
    (now : Time) (os t : List AppOutage) → OneOpenEach t → OneOpenEach (close_each now os t)
unfolding close_each
close_each-OneOpen now [] t one = one
close_each-OneOpen now (o ∷ os) t one = close_each-OneOpen now os _ (
    update-OneOpen owner is_open (λ x. x.id == o.id) (over now o) t (λ x. ((λ e. cc (e)), refl))
      one)

-- An app has at most one open outage, whatever is opened and closed.
pub outages-OneOpenEach :
    (next_id project_id : Ident) (now : Time) (t : List AppOutage)
    → OneOpenEach t
    → OneOpenEach (open_app_outage next_id project_id now t)
      × OneOpenEach (close_app_outage project_id now t)
unfolding open_app_outage close_app_outage
outages-OneOpenEach next_id project_id now t one = (
  elim (Bool-cases (any (open_for project_id) t)) [
    | inl already ↦ rw already one
    | inr free ↦ rw free (add-OneOpen owner is_open _ t free one)
  ],
  close_each-OneOpen now (select (open_for project_id) t) t one,
)

-- In a table whose rows have identifiers of their own, closing an app's outage ends its open rows, with
-- their length in whole seconds, and changes no other row.
pub close_exact :
    (project_id : Ident) (now : Time) (t : List AppOutage)
    → DistinctKeys (λ (o : AppOutage). o.id) t
    → close_app_outage project_id now t ≡ update (open_for project_id) (λ o. over now o o) t
unfolding close_app_outage close_each
close_exact project_id now t keys =
    same (select (open_for project_id) t) t
    ∙ save_each-select (λ (o : AppOutage). o.id) (over now) (open_for project_id) t keys (λ o. refl)
  where
    same :
        (os t : List AppOutage)
        → close_each now os t ≡ save_each (λ (o : AppOutage). o.id) (over now) os t
    same [] t = refl
    same (o ∷ os) t = same os (update (λ x. x.id == o.id) (over now o) t)
