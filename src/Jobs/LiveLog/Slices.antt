-- ===== src/Jobs/LiveLog/Slices.antt =====
-- Slices of a list by native numbers.
use native.Mathlib.Nat.{suc-add, zero-add}
use asdl_hub.Prelude.{
  ℕ, zero, suc, ◌+◌, ◌-◌, ◌≤◌, ◌≡◌, refl, ap, List, [], ◌∷◌, ◌++◌, arith, length, take, drop,
}

take-nil : (n : ℕ) → take {A = ℕ} n [] ≡ []
take-nil zero = refl
take-nil (suc n) = refl

drop-nil : (n : ℕ) → drop {A = ℕ} n [] ≡ []
drop-nil zero = refl
drop-nil (suc n) = refl

pub take-add : (a k : ℕ) (xs : List ℕ) → take (a + k) xs ≡ take a xs ++ take k (drop a xs)
take-add zero k xs = rw zero-add
take-add (suc a) k [] = rw (take-nil (suc a + k), take-nil k)
take-add (suc a) k (x ∷ xs) = rw (suc-add, take-add a k xs)

pub drop-append_le : (n : ℕ) (xs ys : List ℕ) → n ≤ length xs → drop n (xs ++ ys) ≡ drop n xs ++ ys
drop-append_le zero xs ys h = refl
drop-append_le (suc n) [] ys h = absurd (omega arith)
drop-append_le (suc n) (x ∷ xs) ys h = drop-append_le n xs ys (omega arith)

pub drop-drop : (m n : ℕ) (xs : List ℕ) → drop m (drop n xs) ≡ drop (n + m) xs
drop-drop m zero xs = rw zero-add
drop-drop m (suc n) [] = rw (drop-nil (suc n + m), drop-nil m)
drop-drop m (suc n) (x ∷ xs) = rw (suc-add, drop-drop m n xs)

pub drop-take : (m n : ℕ) (xs : List ℕ) → drop m (take n xs) ≡ take (n - m) (drop m xs)
drop-take zero n xs = ap (λ (k : ℕ). take k xs) (omega arith)
drop-take (suc m) zero xs = rw (none_left m) refl
  where
    none_left : (k : ℕ) → 0 - suc k ≡ 0
    none_left k = omega arith
drop-take (suc m) (suc n) [] = rw (take-nil (suc n - suc m))
drop-take (suc m) (suc n) (x ∷ xs) = rw (one_less n m, drop-take m n xs)
  where
    one_less : (a b : ℕ) → suc a - suc b ≡ a - b
    one_less a b = omega arith

pub take_all : (n : ℕ) (xs : List ℕ) → length xs ≤ n → take n xs ≡ xs
take_all zero [] h = refl
take_all zero (x ∷ xs) h = absurd (omega arith)
take_all (suc n) [] h = refl
take_all (suc n) (x ∷ xs) h = ap (λ r. x ∷ r) (take_all n xs (omega arith))
