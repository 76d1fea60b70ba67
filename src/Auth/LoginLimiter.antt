-- ===== src/Auth/LoginLimiter.antt =====
-- internal/api/middleware/loginlimit.go: the limit on failed logins. Instants are nanoseconds
-- since the zero time, and a text that is walked is the list of its code points. The letters'
-- case table of Go's `unicode` package is the parameter `to_lower`.
pub mod Window
pub mod History
pub mod Limits
mod Examples
use asdl_hub.Prelude.{
  ℕ, zero, suc, ◌+◌, ◌-◌, ◌*◌, ◌≡◌, ◌↔◌, Bool, true, false, ◌&&◌, ◌||◌, Option, none, some, List,
  [], ◌∷◌, ◌++◌, map, arith, ltb, leb, ◌==◌, if◌then◌else◌, length, get_elem?, ==_iff, ap,
}
use mathlib.Core.List.{reverse}
use asdl_hub.Prelude.GoMap.{GoMap, KeyEq, find, put, remove}

abbrev pub minute : ℕ
minute = 60000000000

abbrev pub login_window : ℕ
login_window = 15 * minute

abbrev pub login_failures_per_ip : ℕ
login_failures_per_ip = 8

abbrev pub login_failures_per_user : ℕ
login_failures_per_user = 20

abbrev pub limiter_max_keys : ℕ
limiter_max_keys = 10000

-- The keys "ip:…" and "user:…" of the source; the prefix is the constructor.
pub data Key : Type 0 where
  ip user : List ℕ → Key

abbrev pub text_eq : List ℕ → List ℕ → Bool
text_eq [] [] = true
text_eq [] (d ∷ t) = false
text_eq (c ∷ s) [] = false
text_eq (c ∷ s) (d ∷ t) = c == d && text_eq s t

pub text_eq_iff : (s t : List ℕ) → (text_eq s t ≡ true) ↔ (s ≡ t)
text_eq_iff [] [] = ground arith
text_eq_iff [] (d ∷ t) = ground arith
text_eq_iff (c ∷ s) [] = ground arith
text_eq_iff (c ∷ s) (d ∷ t) = ground (arith, text_eq_iff s t)

abbrev pub key_same : Key → Key → Bool
key_same (ip s) (ip t) = text_eq s t
key_same (ip s) (user t) = false
key_same (user s) (ip t) = false
key_same (user s) (user t) = text_eq s t

pub key_same_iff : (a b : Key) → (key_same a b ≡ true) ↔ (a ≡ b)
key_same_iff (ip s) (ip t) = ground (arith, text_eq_iff s t)
key_same_iff (ip s) (user t) = ground arith
key_same_iff (user s) (ip t) = ground arith
key_same_iff (user s) (user t) = ground (arith, text_eq_iff s t)

instance abbrev pub key_eq : KeyEq Key
key_eq = record { same = key_same; same_iff = key_same_iff }

-- White space as unicode.IsSpace has it, which strings.TrimSpace cuts off both ends.
abbrev is_space : ℕ → Bool
is_space c =
    (leb 9 c && leb c 13)
    || c == 32
    || c == 0x85
    || c == 0xa0
    || c == 0x1680
    || (leb 0x2000 c && leb c 0x200a)
    || c == 0x2028
    || c == 0x2029
    || c == 0x202f
    || c == 0x205f
    || c == 0x3000

trim_left : List ℕ → List ℕ
trim_left [] = []
trim_left (c ∷ s) = let rest = trim_left s in if is_space c then rest else c ∷ s

unfoldable pub trim_space : List ℕ → List ℕ
unfolding trim_left
trim_space s = reverse (trim_left (reverse (trim_left s)))

pub record Limiter : Type 0 where
  pub failures : GoMap Key (List ℕ)

unfoldable pub new_limiter : Limiter
new_limiter = record { failures = [] }

-- A missing key reads as the empty slice.
unfoldable pub times_of : Key → Limiter → List ℕ
times_of k l = elim (find k l.failures) [ none ↦ [] | some ts ↦ ts ]

-- The loop of `recent`: the times that are not after the cutoff are cut off the front.
unfoldable pub cut_expired : ℕ → List ℕ → List ℕ
cut_expired now [] = []
cut_expired now (t ∷ ts) =
    let rest = cut_expired now ts in if leb (t + login_window) now then rest else t ∷ ts

-- `if i > 0`: what is left is stored, or the key is deleted when nothing is left.
unfoldable pub store_recent : Key → ℕ → List ℕ → List ℕ → Limiter → Limiter
store_recent k cut times [] l = if ltb 0 cut then record { failures = remove k l.failures } else l
store_recent k cut times (t ∷ ts) l =
    if ltb 0 cut then record { failures = put k (t ∷ ts) l.failures } else l

unfoldable pub recent : Key → ℕ → Limiter → List ℕ × Limiter
recent k now l =
    let times = times_of k l in
    let kept = cut_expired now times in
    (kept, store_recent k (length times - length kept) times kept l)

-- One round of the loop of `Blocked`: `times[len(times)-c.max].Add(loginWindow).Sub(l.now())`,
-- when there are that many, if it is longer than `wait`.
unfoldable pub longer_wait : ℕ → List ℕ → ℕ → ℕ → ℕ
longer_wait cap times now wait =
    if leb cap (length times)
    then elim (get_elem? times (length times - cap)) [
      | none ↦ wait
      | some t ↦ let w = t + login_window - now in if ltb wait w then w else wait
    ]
    else wait

-- `for k := range l.failures { l.recent(k) }`.
unfoldable pub prune : List (Key × List ℕ) → ℕ → Limiter → Limiter
prune [] now l = l
prune ((k, ts) ∷ rest) now l = prune rest now (recent k now l).1

unfoldable pub add_failure : Key → ℕ → Limiter → Limiter
add_failure k now l =
    let (times, l') = recent k now l in record { failures = put k (times ++ now ∷ []) l'.failures }

module _ (to_lower : ℕ → ℕ) where
  unfoldable pub user_key : List ℕ → Key
  user_key name = user (map to_lower (trim_space name))

  unfoldable pub blocked : List ℕ → List ℕ → ℕ → Limiter → (Bool × ℕ) × Limiter
  blocked addr name now l =
      let (by_ip, l₁) = recent (ip addr) now l in
      let wait₁ = longer_wait login_failures_per_ip by_ip now 0 in
      let (by_user, l₂) = recent (user_key name) now l₁ in
      let wait₂ = longer_wait login_failures_per_user by_user now wait₁ in
      ((ltb 0 wait₂, wait₂), l₂)

  unfoldable pub failed : List ℕ → List ℕ → ℕ → Limiter → Limiter
  failed addr name now l =
      let pruned = if ltb limiter_max_keys (length l.failures) then prune l.failures now l else l in
      add_failure (user_key name) now (add_failure (ip addr) now pruned)

  unfoldable pub succeeded : List ℕ → Limiter → Limiter
  succeeded name l = record { failures = remove (user_key name) l.failures }
