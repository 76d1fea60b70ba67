-- ===== src/Auth/LoginLimiter/Window.antt =====
-- The sliding window of `recent`: what cutting expired times off the front keeps.
use asdl_hub.Prelude.{
  ℕ, zero, suc, ◌+◌, ◌-◌, ◌≤◌, ◌<◌, ◌≡◌, refl, ◌&&◌, ◌||◌, some, List, [], ◌∷◌, ◌++◌, arith, ltb,
  leb, if◌then◌else◌, length, get_elem?, All, Bool-cases, inl, inr, ◌∙◌, append-nil,
}
use asdl_hub.Prelude.GoMap.{put, find-put, find-remove}
use asdl_hub.Auth.LoginLimiter.{
  Key, key_same, key_same_iff, key_eq, Limiter, login_window, times_of, store_recent, cut_expired,
  recent, prune, add_failure, longer_wait,
}

pub length-cut_expired : (now : ℕ) (ts : List ℕ) → length (cut_expired now ts) ≤ length ts
unfolding cut_expired
length-cut_expired now [] = omega arith
length-cut_expired now (t ∷ ts) = ground (arith, length-cut_expired now ts)

-- A cut that shortens nothing changes nothing.
pub cut_expired_same :
    (now : ℕ) (ts : List ℕ) → length ts ≤ length (cut_expired now ts) → cut_expired now ts ≡ ts
unfolding cut_expired
cut_expired_same now [] h = refl
cut_expired_same now (t ∷ ts) h = ground (arith, length-cut_expired now ts)

-- A later cut takes an earlier one with it, also when times were added in between.
pub cut_expired-append :
    (now now' : ℕ) (ts us : List ℕ)
    → now ≤ now'
    → cut_expired now' (cut_expired now ts ++ us) ≡ cut_expired now' (ts ++ us)
unfolding cut_expired
cut_expired-append now now' [] us h = refl
cut_expired-append now now' (t ∷ ts) us h = ground (arith, cut_expired-append now now' ts us h)

pub cut_expired-cut_expired :
    (now now' : ℕ) (ts : List ℕ)
    → now ≤ now'
    → cut_expired now' (cut_expired now ts) ≡ cut_expired now' ts
unfolding cut_expired
cut_expired-cut_expired now now' [] h = refl
cut_expired-cut_expired now now' (t ∷ ts) h = ground (arith, cut_expired-cut_expired now now' ts h)

-- Two lists that no later cut tells apart stay so when a time is added.
pub cut_expired_ext :
    (now : ℕ) (ts us vs : List ℕ)
    → cut_expired now ts ≡ cut_expired now us
    → cut_expired now (ts ++ vs) ≡ cut_expired now (us ++ vs)
cut_expired_ext now ts us vs h =
    rw (← cut_expired-append now now ts vs (omega arith), h)
      (cut_expired-append now now us vs (omega arith))

-- Two limiters that no login from `now` on can tell apart, but for the key's history.
abbrev pub Agrees : ℕ → Limiter → (Key → List ℕ) → Type 0
Agrees now l h =
    (k : Key) (now' : ℕ) → now ≤ now' → cut_expired now' (times_of k l) ≡ cut_expired now' (h k)

-- What the map holds after `store_recent`.
times_of-store_recent :
    (k j : Key) (cut : ℕ) (times kept : List ℕ) (l : Limiter)
    → times_of j (store_recent k cut times kept l)
      ≡ (if ltb 0 cut && key_same k j then kept else times_of j l)
unfolding times_of store_recent
times_of-store_recent k j cut times [] l = ground (arith, find-remove k j l.failures)
times_of-store_recent k j cut times (t ∷ ts) l = ground (arith, find-put k j (t ∷ ts) l.failures)

pub recent_times :
    (k : Key) (now : ℕ) (l : Limiter) → (recent k now l).0 ≡ cut_expired now (times_of k l)
unfolding recent
recent_times k now l = refl

-- `recent` stores the times of its key without those that have expired.
pub times_of-recent :
    (k j : Key) (now : ℕ) (l : Limiter)
    → times_of j (recent k now l).1
      ≡ (if key_same k j then cut_expired now (times_of j l) else times_of j l)
unfolding recent
times_of-recent k j now l = ground (
  arith,
  key_same_iff k j,
  times_of-store_recent k j (length (times_of k l) - length (cut_expired now (times_of k l)))
      (times_of k l) (cut_expired now (times_of k l)) l,
  cut_expired_same now (times_of k l),
)

-- No login from `now` on tells the limiter from what `recent` makes of it.
pub recent_unseen :
    (k j : Key) (now now' : ℕ) (l : Limiter)
    → now ≤ now'
    → cut_expired now' (times_of j (recent k now l).1) ≡ cut_expired now' (times_of j l)
recent_unseen k j now now' l h =
    ground (arith, times_of-recent k j now l, cut_expired-cut_expired now now' (times_of j l))

pub prune_unseen :
    (m : List (Key × List ℕ)) (j : Key) (now now' : ℕ) (l : Limiter)
    → now ≤ now'
    → cut_expired now' (times_of j (prune m now l)) ≡ cut_expired now' (times_of j l)
unfolding prune
prune_unseen [] j now now' l h = refl
prune_unseen ((k, ts) ∷ m) j now now' l h =
    prune_unseen m j now now' (recent k now l).1 h ∙ recent_unseen k j now now' l h

times_of-put :
    (k j : Key) (ts : List ℕ) (l : Limiter)
    → times_of j (record { failures = put k ts l.failures })
      ≡ (if key_same k j then ts else times_of j l)
unfolding times_of
times_of-put k j ts l = ground (arith, find-put k j ts l.failures)

times_of-add_failure :
    (k j : Key) (now : ℕ) (l : Limiter)
    → times_of j (add_failure k now l)
      ≡ (if key_same k j then cut_expired now (times_of j l) ++ now ∷ [] else times_of j l)
unfolding add_failure
times_of-add_failure k j now l = ground (
  arith,
  key_same_iff k j,
  recent_times k now l,
  times_of-recent k j now l,
  times_of-put k j ((recent k now l).0 ++ now ∷ []) (recent k now l).1,
)

-- A failure adds its time to those of its key.
pub add_failure_unseen :
    (k j : Key) (now now' : ℕ) (l : Limiter)
    → now ≤ now'
    → cut_expired now' (times_of j (add_failure k now l))
      ≡ cut_expired now' (times_of j l ++ (if key_same k j then now ∷ [] else []))
add_failure_unseen k j now now' l h = ground (
  arith,
  times_of-add_failure k j now l,
  cut_expired-append now now' (times_of j l) (now ∷ []) h,
  append-nil (times_of j l),
)

-- All the times that are left are inside the window.
abbrev pub AllFresh : ℕ → List ℕ → Type 0
AllFresh now = All (λ t. now < t + login_window)

get_elem?-AllFresh :
    (now : ℕ) (times : List ℕ) (i : ℕ)
    → i < length times
    → AllFresh now times
    → (t : ℕ) × (get_elem? times i ≡ some t) × (now < t + login_window)
get_elem?-AllFresh now [] i h fresh = absurd (omega arith)
get_elem?-AllFresh now (t ∷ ts) zero h fresh = (t, refl, fresh.0)
get_elem?-AllFresh now (t ∷ ts) (suc i) h fresh = get_elem?-AllFresh now ts i (omega arith) fresh.1

-- A round of the loop finds a wait when the limit is reached, and keeps a wait found before.
pub longer_wait_pos :
    (cap now wait : ℕ) (times : List ℕ)
    → 0 < cap
    → AllFresh now times
    → ltb 0 (longer_wait cap times now wait) ≡ (leb cap (length times) || ltb 0 wait)
unfolding longer_wait
longer_wait_pos cap now wait times h fresh = elim (Bool-cases (leb cap (length times))) [
  | inl reached ↦
      let (t, found, inside) =
        get_elem?-AllFresh now times (length times - cap) (ground arith) fresh in
      rw (reached, found) (ground arith)
  | inr below ↦ rw below refl
]
