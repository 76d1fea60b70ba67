-- ===== src/Jobs/LiveLog.antt =====
-- internal/services/job_logs.go: the output of running jobs, kept in memory for the browsers that
-- watch. A watcher's channel is the list of the events that it has not read, at most 256.
mod Slices
pub mod Output
mod Examples
use asdl_hub.Prelude.{
  ℕ, zero, suc, ◌+◌, ◌-◌, ◌*◌, ◌/◌, ◌%◌, ◌≤◌, ◌<◌, min, max, String, ◌≡◌, refl, sym, ap, ◌∙◌, subst,
  fun_ext, ◌≢◌, ◌↔◌, ◌⊎◌, inl, inr, Bool, true, false, ◌&&◌, ◌||◌, not, Option, none, some, List,
  [], ◌∷◌, ◌++◌, map, append_assoc, append-nil, arith, ltb, leb, ◌==◌, if◌then◌else◌, ltb→lt,
  lt→ltb, leb→le, le→leb, ==_iff, tests, Bool-cases, Option-cases, is_some, length, take, drop,
  get_elem?, select, first, update, any, head, All, In, length-append, length-drop, length-take,
  All_of_In, first-In, first_passes, select-In, In-select, str_eq, str_eq_iff, stable_sort,
  IsSorted, insert_sorted, stable_sort-perm, In-of_stable_sort, In-stable_sort, length-stable_sort,
  stable_sort-IsSorted, In-of_update, In-update, DistinctKeys, row_unique, length-select-update,
  length-select-update_le,
}
use asdl_hub.Prelude.GoMap.{GoMap, nat_key, find, put, remove}
use asdl_hub.Models.{Ident, JobStatus}

abbrev pub max_live_log : ℕ
max_live_log = 1024 * 1024

abbrev pub channel_capacity : ℕ
channel_capacity = 256

pub record LiveEvent : Type 0 where
  pub chunk : List ℕ
  pub done : Bool
  pub status : JobStatus

pub record Watcher : Type 0 where
  pub chan : Ident
  pub unread : List LiveEvent

pub record LiveLog : Type 0 where
  pub buf : List ℕ
  pub total : ℕ
  pub done : Bool
  pub status : JobStatus
  pub subs : List Watcher

abbrev pub empty_log : LiveLog
empty_log = record { buf = []; total = 0; done = false; status = JobStatus.other ""; subs = [] }

abbrev pub LogHub : Type 0
LogHub = GoMap Ident LiveLog

-- `get`: a job that the map lacks gets an empty log.
unfoldable pub get : Ident → LogHub → LiveLog
get id h = elim (find id h) [ none ↦ empty_log | some l ↦ l ]

-- select { case ch <- ev: default: }
unfoldable pub offer : LiveEvent → Watcher → Watcher
offer ev w =
    if ltb (length w.unread) channel_capacity then record w { unread = w.unread ++ ev ∷ [] } else w

abbrev pub keep_last : List ℕ → List ℕ
keep_last b = if ltb max_live_log (length b) then drop (length b - max_live_log) b else b

-- The output that is new: what follows the bytes already seen.
abbrev pub unseen : ℕ → ℕ → List ℕ → List ℕ
unseen total offset chunk = if ltb offset total then drop (total - offset) chunk else chunk

abbrev add_output : List ℕ → LiveLog → LiveLog
add_output fresh l = record l {
  total = l.total + length fresh;
  buf = keep_last (l.buf ++ fresh);
  subs = map (offer (record { chunk = fresh; done = false; status = JobStatus.other "" })) l.subs;
}

-- The body of `Append` after the lock and the look-up.
unfoldable pub append_log : ℕ → List ℕ → LiveLog → LiveLog
append_log offset chunk l =
    if l.done
    then l
    else if ltb offset l.total && leb (length chunk) (l.total - offset)
    then l
    else add_output (unseen l.total offset chunk) l

unfoldable pub append : Ident → ℕ → List ℕ → LogHub → LogHub
append id offset chunk h = put id (append_log offset chunk (get id h)) h

unfoldable pub total : Ident → LogHub → ℕ
total id h = elim (find id h) [ none ↦ 0 | some l ↦ l.total ]

unfoldable pub finish_log : JobStatus → LiveLog → LiveLog
finish_log status l = record l {
  done = true;
  status = status;
  subs = map (offer (record { chunk = []; done = true; status = status })) l.subs;
}

unfoldable pub finish : Ident → JobStatus → LogHub → LogHub
finish id status h = elim (find id h) [ none ↦ h | some l ↦ put id (finish_log status l) h ]

-- What time.AfterFunc runs once `finishedLinger` has passed.
unfoldable pub forget : Ident → LogHub → LogHub
forget id h = remove id h

-- The output so far and whether the job is over; a watcher on a fresh channel joins if it is not.
unfoldable pub subscribe : Ident → Ident → LogHub → (List ℕ × Bool × JobStatus) × LogHub
subscribe id chan h =
    let l = get id h in
    if l.done then ((l.buf, true, l.status), put id l h) else (
      (l.buf, false, JobStatus.other ""),
      put id (record l { subs = record { chan = chan; unread = [] } ∷ l.subs }) h,
    )

-- The `cancel` that Subscribe returns.
unfoldable pub cancel : Ident → Ident → LogHub → LogHub
cancel id chan h = elim (find id h) [
  | none ↦ h
  | some l ↦ put id (record l { subs = select (λ w. not (w.chan == chan)) l.subs }) h
]
