-- ===== src/Auth/LoginLimiter/History.antt =====
-- The login attempts that a limiter has seen, and the independent count of the failures that matter.
use asdl_hub.Prelude.{
  ℕ, ◌+◌, ◌≤◌, ◌<◌, ◌≡◌, refl, Bool, true, false, List, [], ◌∷◌, ◌++◌, arith, ltb, if◌then◌else◌,
  length, All, Bool-cases, inl, inr, ◌∙◌, append-nil,
}
use asdl_hub.Prelude.GoMap.{find-remove}
use asdl_hub.Auth.LoginLimiter.{
  Key, ip, key_same, key_eq, Limiter, login_window, limiter_max_keys, times_of, cut_expired, prune,
  add_failure, failed, succeeded, user_key, text_eq,
}
use asdl_hub.Auth.LoginLimiter.Window.{AllFresh, cut_expired_ext, prune_unseen, add_failure_unseen}

-- A wrong password at an instant, from an address for a username; a login that succeeded.
pub data Attempt : Type 0 where
  failure : ℕ → List ℕ → List ℕ → Attempt
  success : List ℕ → Attempt

-- The attempts come one after the other, none before `start` and none after `now`.
abbrev pub Chronological : ℕ → ℕ → List Attempt → Type 0
Chronological start now [] = start ≤ now
Chronological start now (failure t addr name ∷ es) = (start ≤ t) × Chronological t now es
Chronological start now (success name ∷ es) = Chronological start now es

-- Failures of an address inside the window that ends now.
abbrev pub ip_failures : ℕ → List ℕ → List Attempt → ℕ
ip_failures now addr [] = 0
ip_failures now addr (failure t a name ∷ es) =
    (if text_eq a addr then (if ltb now (t + login_window) then 1 else 0) else 0)
    + ip_failures now addr es
ip_failures now addr (success name ∷ es) = ip_failures now addr es

abbrev pub add_time : Key → Key → ℕ → List ℕ → List ℕ
add_time k j t ts = ts ++ (if key_same k j then t ∷ [] else [])

abbrev pub count_fresh : ℕ → List ℕ → ℕ
count_fresh now [] = 0
count_fresh now (t ∷ ts) = (if ltb now (t + login_window) then 1 else 0) + count_fresh now ts

pub count_fresh-append :
    (now : ℕ) (ts us : List ℕ)
    → count_fresh now (ts ++ us) ≡ count_fresh now ts + count_fresh now us
count_fresh-append now [] us = omega arith
count_fresh-append now (t ∷ ts) us = omega (arith, count_fresh-append now ts us)

pub count_fresh-add_time :
    (now : ℕ) (k j : Key) (t : ℕ) (ts : List ℕ)
    → count_fresh now (add_time k j t ts)
      ≡ count_fresh now ts
        + (if key_same k j then (if ltb now (t + login_window) then 1 else 0) else 0)
count_fresh-add_time now k j t ts = elim (Bool-cases (key_same k j)) [
  | inl same ↦ rw (same, count_fresh-append now ts (t ∷ [])) (ground arith)
  | inr other ↦ rw (other, append-nil ts) (omega arith)
]

-- Times in the order in which they came, none after `last`.
abbrev pub Ascending : ℕ → List ℕ → Type 0
Ascending last [] = Unit
Ascending last (t ∷ ts) = (t ≤ last) × All (λ u. t ≤ u) ts × Ascending last ts

Ascending-later : (m n : ℕ) (ts : List ℕ) → m ≤ n → Ascending m ts → Ascending n ts
Ascending-later m n [] h k = tt
Ascending-later m n (t ∷ ts) h k = (omega arith, k.1, Ascending-later m n ts h k.2)

All-append_one :
    (b t : ℕ) (ts : List ℕ) → b ≤ t → All (λ u. b ≤ u) ts → All (λ u. b ≤ u) (ts ++ t ∷ [])
All-append_one b t [] h k = (h, tt)
All-append_one b t (u ∷ ts) h k = (k.0, All-append_one b t ts h k.1)

pub Ascending-append_one :
    (last t : ℕ) (ts : List ℕ) → last ≤ t → Ascending last ts → Ascending t (ts ++ t ∷ [])
Ascending-append_one last t [] h k = (omega arith, tt, tt)
Ascending-append_one last t (u ∷ ts) h k =
    (omega arith, All-append_one u t ts (omega arith) k.1, Ascending-append_one last t ts h k.2)

Ascending-add_time :
    (k j : Key) (last t : ℕ) (ts : List ℕ)
    → last ≤ t
    → Ascending last ts
    → Ascending t (add_time k j t ts)
Ascending-add_time k j last t ts h asc = elim (Bool-cases (key_same k j)) [
  | inl same ↦ rw same (Ascending-append_one last t ts h asc)
  | inr other ↦ rw (other, append-nil ts) (Ascending-later last t ts h asc)
]

-- Of times in order, the cut keeps the fresh ones and no other.
fresh_from :
    (now b : ℕ) (ts : List ℕ)
    → now < b + login_window
    → All (λ u. b ≤ u) ts
    → AllFresh now ts × (count_fresh now ts ≡ length ts)
fresh_from now b [] h k = (tt, refl)
fresh_from now b (t ∷ ts) h k = ground (arith, fresh_from now b ts h k.1)

pub cut_expired_fresh :
    (now last : ℕ) (ts : List ℕ)
    → Ascending last ts
    → AllFresh now (cut_expired now ts) × (length (cut_expired now ts) ≡ count_fresh now ts)
unfolding cut_expired
cut_expired_fresh now last [] asc = (tt, refl)
cut_expired_fresh now last (t ∷ ts) asc = ground (
  arith,
  cut_expired_fresh now last ts asc.2,
  λ (h : now < t + login_window). fresh_from now t ts h asc.1,
)

pruned_unseen :
    (full : Bool) (j : Key) (t now : ℕ) (l : Limiter)
    → t ≤ now
    → cut_expired now (times_of j (if full then prune l.failures t l else l))
      ≡ cut_expired now (times_of j l)
pruned_unseen true j t now l h = prune_unseen l.failures j t now l h
pruned_unseen false j t now l h = refl

Chronological-le : (start now : ℕ) (es : List Attempt) → Chronological start now es → start ≤ now
Chronological-le start now [] h = h
Chronological-le start now (failure t addr name ∷ es) h =
    omega (arith, Chronological-le t now es h.1)
Chronological-le start now (success name ∷ es) h = Chronological-le start now es h

Ascending-if :
    (cleared : Bool) (last : ℕ) (ts : List ℕ)
    → Ascending last ts
    → Ascending last (if cleared then [] else ts)
Ascending-if true last ts asc = tt
Ascending-if false last ts asc = asc

module _ (to_lower : ℕ → ℕ) where
  -- The limiter after the attempts.
  abbrev pub replay : Limiter → List Attempt → Limiter
  replay l [] = l
  replay l (failure t addr name ∷ es) = replay (failed to_lower addr name t l) es
  replay l (success name ∷ es) = replay (succeeded to_lower name l) es

  -- Failures of a username inside the window that ends now, since it last logged in.
  abbrev pub user_failures : ℕ → List ℕ → ℕ → List Attempt → ℕ
  user_failures now name n [] = n
  user_failures now name n (failure t a u ∷ es) =
      user_failures now name
        (n
          + (if key_same (user_key to_lower u) (user_key to_lower name)
              then (if ltb now (t + login_window) then 1 else 0)
              else 0))
        es
  user_failures now name n (success u ∷ es) =
      user_failures now name
        (if key_same (user_key to_lower u) (user_key to_lower name) then 0 else n) es

  -- Every failure time of a key since it was last cleared.
  abbrev pub kept_times : Key → List ℕ → List Attempt → List ℕ
  kept_times j ts [] = ts
  kept_times j ts (failure t addr name ∷ es) =
      kept_times j (add_time (user_key to_lower name) j t (add_time (ip addr) j t ts)) es
  kept_times j ts (success name ∷ es) =
      kept_times j (if key_same (user_key to_lower name) j then [] else ts) es

  failed_unseen :
      (addr name : List ℕ) (j : Key) (t now : ℕ) (l : Limiter) (ts : List ℕ)
      → t ≤ now
      → cut_expired now (times_of j l) ≡ cut_expired now ts
      → cut_expired now (times_of j (failed to_lower addr name t l))
        ≡ cut_expired now (add_time (user_key to_lower name) j t (add_time (ip addr) j t ts))
  unfolding failed
  failed_unseen addr name j t now l ts h e =
      let pruned = if ltb limiter_max_keys (length l.failures) then prune l.failures t l else l in
      let of_ip = add_failure (ip addr) t pruned in
      add_failure_unseen (user_key to_lower name) j t now of_ip h
      ∙ cut_expired_ext now (times_of j of_ip) (add_time (ip addr) j t ts) _ (
          add_failure_unseen (ip addr) j t now pruned h
          ∙ cut_expired_ext now (times_of j pruned) ts _ (pruned_unseen _ j t now l h ∙ e))

  succeeded_unseen :
      (name : List ℕ) (j : Key) (now : ℕ) (l : Limiter) (ts : List ℕ)
      → cut_expired now (times_of j l) ≡ cut_expired now ts
      → cut_expired now (times_of j (succeeded to_lower name l))
        ≡ cut_expired now (if key_same (user_key to_lower name) j then [] else ts)
  unfolding succeeded times_of
  succeeded_unseen name j now l ts e =
      ground (arith, find-remove (user_key to_lower name) j l.failures)

  -- What the limiter holds for a key is, from now on, what was kept.
  pub replay_unseen :
      (j : Key) (start now : ℕ) (es : List Attempt) (l : Limiter) (ts : List ℕ)
      → Chronological start now es
      → cut_expired now (times_of j l) ≡ cut_expired now ts
      → cut_expired now (times_of j (replay l es)) ≡ cut_expired now (kept_times j ts es)
  replay_unseen j start now [] l ts h e = e
  replay_unseen j start now (failure t addr name ∷ es) l ts h e =
      replay_unseen j t now es (failed to_lower addr name t l) _ h.1
        (failed_unseen addr name j t now l ts (Chronological-le t now es h.1) e)
  replay_unseen j start now (success name ∷ es) l ts h e =
      replay_unseen j start now es (succeeded to_lower name l) _ h
        (succeeded_unseen name j now l ts e)

  pub kept_times-Ascending :
      (j : Key) (start now : ℕ) (es : List Attempt) (ts : List ℕ)
      → Chronological start now es
      → Ascending start ts
      → Ascending now (kept_times j ts es)
  kept_times-Ascending j start now [] ts h asc = Ascending-later start now ts h asc
  kept_times-Ascending j start now (failure t addr name ∷ es) ts h asc =
      kept_times-Ascending j t now es _ h.1 (
        Ascending-add_time (user_key to_lower name) j t t _ (omega arith)
          (Ascending-add_time (ip addr) j start t ts h.0 asc))
  kept_times-Ascending j start now (success name ∷ es) ts h asc =
      kept_times-Ascending j start now es _ h (Ascending-if _ start ts asc)
