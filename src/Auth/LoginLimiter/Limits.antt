-- ===== src/Auth/LoginLimiter/Limits.antt =====
-- The limiter against the independent count: when a login is refused, and for how long.
use asdl_hub.Prelude.{
  ℕ, ◌+◌, ◌≡◌, refl, ap, Bool, true, false, List, [], ◌∷◌, arith, ltb, leb, if◌then◌else◌, length,
  ◌∙◌, ◌||◌,
}
use asdl_hub.Prelude.GoMap.{find}
use asdl_hub.Auth.LoginLimiter.{
  Key, ip, key_same, key_eq, login_window, login_failures_per_ip, login_failures_per_user,
  new_limiter, times_of, cut_expired, recent, blocked, user_key,
}
use asdl_hub.Auth.LoginLimiter.Window.{AllFresh, recent_times, recent_unseen, longer_wait_pos}
use asdl_hub.Auth.LoginLimiter.History.{
  Attempt, failure, success, Chronological, ip_failures, user_failures, replay, kept_times,
  replay_unseen, kept_times-Ascending, count_fresh, cut_expired_fresh, add_time,
  count_fresh-add_time,
}

count_fresh-if :
    (now : ℕ) (cleared : Bool) (ts : List ℕ)
    → count_fresh now (if cleared then [] else ts) ≡ (if cleared then 0 else count_fresh now ts)
count_fresh-if now true ts = refl
count_fresh-if now false ts = refl

nothing_stored : (j : Key) (now : ℕ) → cut_expired now (times_of j new_limiter) ≡ cut_expired now []
unfolding new_limiter times_of find
nothing_stored j now = refl

module _ (to_lower : ℕ → ℕ) where
  count_fresh-ip :
      (addr : List ℕ) (now : ℕ) (es : List Attempt) (ts : List ℕ)
      → count_fresh now (kept_times to_lower (ip addr) ts es)
        ≡ count_fresh now ts + ip_failures now addr es
  unfolding user_key
  count_fresh-ip addr now [] ts = omega arith
  count_fresh-ip addr now (failure t a u ∷ es) ts = omega (
    arith,
    count_fresh-ip addr now es _,
    count_fresh-add_time now (user_key to_lower u) (ip addr) t (add_time (ip a) (ip addr) t ts),
    count_fresh-add_time now (ip a) (ip addr) t ts,
  )
  count_fresh-ip addr now (success u ∷ es) ts = count_fresh-ip addr now es ts

  count_fresh-user :
      (name : List ℕ) (now : ℕ) (es : List Attempt) (ts : List ℕ)
      → count_fresh now (kept_times to_lower (user_key to_lower name) ts es)
        ≡ user_failures to_lower now name (count_fresh now ts) es
  unfolding user_key
  count_fresh-user name now [] ts = refl
  count_fresh-user name now (failure t a u ∷ es) ts =
      count_fresh-user name now es _
      ∙ ap (λ n. user_failures to_lower now name n es)
          (count_fresh-add_time now (user_key to_lower u) (user_key to_lower name) t _
            ∙ ap
                (λ (n : ℕ).
                  n
                  + (if key_same (user_key to_lower u) (user_key to_lower name)
                      then (if ltb now (t + login_window) then 1 else 0)
                      else 0))
                (count_fresh-add_time now (ip a) (user_key to_lower name) t ts ∙ omega arith))
  count_fresh-user name now (success u ∷ es) ts =
      count_fresh-user name now es _
      ∙ ap (λ n. user_failures to_lower now name n es)
          (count_fresh-if now (key_same (user_key to_lower u) (user_key to_lower name)) ts)

  -- What `recent` finds for a key after the attempts.
  fresh_times :
      (j : Key) (start now : ℕ) (es : List Attempt)
      → Chronological start now es
      → let ts = cut_expired now (times_of j (replay to_lower new_limiter es)) in
        AllFresh now ts × (length ts ≡ count_fresh now (kept_times to_lower j [] es))
  fresh_times j start now es h =
      rw (replay_unseen to_lower j start now es new_limiter [] h (nothing_stored j now)) (
        cut_expired_fresh now now (kept_times to_lower j [] es)
          (kept_times-Ascending to_lower j start now es [] h tt))

  -- After any attempts in the order of the clock, a login is refused exactly when its address has
  -- failed at least 8 times in the last 15 minutes, or its username at least 20 times in them since
  -- it last logged in.
  pub blocked_exact :
      (addr name : List ℕ) (start now : ℕ) (es : List Attempt)
      → Chronological start now es
      → (blocked to_lower addr name now (replay to_lower new_limiter es)).0.0 ≡ (
          leb login_failures_per_user (user_failures to_lower now name 0 es)
          || leb login_failures_per_ip (ip_failures now addr es))
  unfolding blocked
  blocked_exact addr name start now es h =
      let l = replay to_lower new_limiter es in
      let (ip_fresh, ip_count) = fresh_times (ip addr) start now es h in
      let (user_fresh, user_count) = fresh_times (user_key to_lower name) start now es h in
      rw
        (
          recent_times (ip addr) now l,
          recent_times (user_key to_lower name) now (recent (ip addr) now l).1,
          recent_unseen (ip addr) (user_key to_lower name) now now l (omega arith),
          longer_wait_pos login_failures_per_user now _ _ (omega arith) user_fresh,
          longer_wait_pos login_failures_per_ip now 0 _ (omega arith) ip_fresh,
          user_count,
          ip_count,
          count_fresh-user name now es [],
          count_fresh-ip addr now es [],
        )
        (ground arith)
