-- ===== src/Auth/LoginLimiter/Examples.antt =====
-- Tests of the limiter, and its theorems at a concrete history.
use asdl_hub.Prelude.{
  ℕ, ◌+◌, ◌*◌, ◌≡◌, refl, true, ◌&&◌, ◌||◌, List, [], ◌∷◌, arith, leb, if◌then◌else◌,
}
use asdl_hub.Auth.LoginLimiter.{
  minute, login_failures_per_ip, login_failures_per_user, new_limiter, blocked, failed, succeeded,
  user_key, trim_space, recent, times_of, longer_wait, add_failure, cut_expired, store_recent,
  prune,
}
use asdl_hub.Prelude.GoMap.{find, put, remove}
use asdl_hub.Auth.LoginLimiter.History.{
  Attempt, failure, success, replay, ip_failures, user_failures,
}
use asdl_hub.Auth.LoginLimiter.Limits.{blocked_exact}

-- The case table for ASCII letters.
abbrev ascii_lower : ℕ → ℕ
ascii_lower c = if leb 65 c && leb c 90 then c + 32 else c

abbrev addr : List ℕ
addr = 49 ∷ []

abbrev bob : List ℕ
bob = 66 ∷ 111 ∷ 98 ∷ []

-- Seven failures, a success and an eighth failure, a minute apart.
abbrev guesses : List Attempt
guesses =
    failure (1 * minute) addr bob
    ∷ failure (2 * minute) addr bob
    ∷ failure (3 * minute) addr bob
    ∷ failure (4 * minute) addr bob
    ∷ failure (5 * minute) addr bob
    ∷ failure (6 * minute) addr bob
    ∷ failure (7 * minute) addr bob
    ∷ success bob
    ∷ failure (8 * minute) addr bob
    ∷ []

-- The success did not clear the count of the address.
guesses-blocked :
    (blocked ascii_lower addr bob (9 * minute) (replay ascii_lower new_limiter guesses)).0
    ≡ (true, 7 * minute)
unfolding blocked failed succeeded user_key trim_space recent times_of longer_wait add_failure
    cut_expired store_recent prune find put remove new_limiter
guesses-blocked = refl

blocked_exact_example :
    (blocked ascii_lower addr bob (9 * minute) (replay ascii_lower new_limiter guesses)).0.0 ≡ (
      leb login_failures_per_user (user_failures ascii_lower (9 * minute) bob 0 guesses)
      || leb login_failures_per_ip (ip_failures (9 * minute) addr guesses))
blocked_exact_example = blocked_exact ascii_lower addr bob 0 (9 * minute) guesses (omega arith)
