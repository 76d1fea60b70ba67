-- ===== src/Outages/Instants.antt =====
-- internal/services/node_uptime.go: the time that counts as down, against the instants at which something
-- was down.
use asdl_hub.Prelude.{
  ℕ, zero, suc, ◌+◌, ◌-◌, ◌≤◌, min, max, ◌≡◌, refl, sym, Bool, true, false, ◌&&◌, ◌||◌, none, some,
  List, [], ◌∷◌, arith, ltb, leb, if◌then◌else◌, any,
}
use asdl_hub.Models.{Time}
use asdl_hub.Outages.Uptime.{Stretch, clipped, total_down, down_time}

abbrev pub one_if : Bool → ℕ
one_if b = if b then 1 else 0

-- Of the `n` instants from `from` on, how many pass a test.
unfoldable pub count : (Time → Bool) → Time → ℕ → ℕ
count p from zero = 0
count p from (suc n) = count p from n + one_if (p (from + n))

-- The stretch goes on at the instant; an open one goes on until now.
abbrev pub covers : Time → Stretch → Time → Bool
covers now (started, ended) t = leb started t && ltb t (elim ended [ none ↦ now | some e ↦ e ])

abbrev pub covered : Time → List Stretch → Time → Bool
covered now os t = any (λ o. covers now o t) os

-- No instant lies in two of the stretches.
abbrev pub Disjoint : Time → List Stretch → Type 0
Disjoint now [] = Unit
Disjoint now (o ∷ os) =
    ((t : Time) → covers now o t ≡ true → covered now os t ≡ false) × Disjoint now os

count-interval :
    (s e from n : ℕ) → count (λ t. leb s t && ltb t e) from n ≡ min e (from + n) - max s from
unfolding count
count-interval s e from zero = omega arith
count-interval s e from (suc n) = ground (arith, count-interval s e from n)

count-or :
    (p q : Time → Bool) (from n : ℕ)
    → ((t : Time) → p t ≡ true → q t ≡ false)
    → count (λ t. p t || q t) from n ≡ count p from n + count q from n
unfolding count
count-or p q from zero apart = omega arith
count-or p q from (suc n) apart = ground (arith, count-or p q from n apart, apart (from + n))

count_le : (p : Time → Bool) (from n : ℕ) → count p from n ≤ n
unfolding count
count_le p from zero = omega arith
count_le p from (suc n) = ground (arith, count_le p from n)

count-none : (from n : ℕ) → count (λ t. false) from n ≡ 0
unfolding count
count-none from zero = refl
count-none from (suc n) = omega (arith, count-none from n)

clipped-count :
    (from n : ℕ) (o : Stretch) → clipped from (from + n) o ≡ count (covers (from + n) o) from n
unfolding clipped
clipped-count from n (s, none) = sym (count-interval s (from + n) from n)
clipped-count from n (s, some e) = sym (count-interval s e from n)

total_down-count :
    (from n : ℕ) (os : List Stretch)
    → Disjoint (from + n) os
    → total_down from (from + n) os ≡ count (covered (from + n) os) from n
unfolding total_down
total_down-count from n [] d = sym (count-none from n)
total_down-count from n (o ∷ os) d = omega (
  arith,
  clipped-count from n o,
  total_down-count from n os d.1,
  count-or (covers (from + n) o) (covered (from + n) os) from n d.0,
)

-- Where no two outages overlap, the time that counts as down in a window is the number of instants of the
-- window at which some outage goes on.
pub down_time_counts :
    (os : List Stretch) (from n : ℕ)
    → Disjoint (from + n) os
    → down_time os from (from + n) ≡ count (covered (from + n) os) from n
unfolding down_time
down_time_counts os from n d =
    omega (arith, total_down-count from n os d, count_le (covered (from + n) os) from n)
