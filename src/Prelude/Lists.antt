-- ===== src/Prelude/Lists.antt =====
-- Lists counted by the native numbers, tests over lists, and what the components need of them.
use Prim.Native.Nat.{ℕ, zero, suc, ◌+◌, ◌-◌, ◌≤◌, min}
use mathlib.Core.Path.{◌≡◌, refl, sym, subst}
use mathlib.Core.Logic.{◌⊎◌, inl, inr}
use mathlib.Core.Bool.{Bool, true, false, ◌||◌, ◌&&◌}
use mathlib.Core.List.{List, [], ◌∷◌, ◌++◌}
use mathlib.Core.Option.{Option, none, some}
use native.Mathlib.Omega.{arith}
use asdl_hub.Prelude.Tests.{if◌then◌else◌, Bool-cases}

module _ {ℓ} {A : Type ℓ} where
  abbrev pub length : List A → ℕ
  length [] = 0
  length (x ∷ xs) = suc (length xs)

  abbrev pub take : ℕ → List A → List A
  take zero xs = []
  take (suc n) [] = []
  take (suc n) (x ∷ xs) = x ∷ take n xs

  abbrev pub drop : ℕ → List A → List A
  drop zero xs = xs
  drop (suc n) [] = []
  drop (suc n) (x ∷ xs) = drop n xs

  abbrev pub get_elem? : List A → ℕ → Option A
  get_elem? [] i = none
  get_elem? (x ∷ xs) zero = some x
  get_elem? (x ∷ xs) (suc i) = get_elem? xs i

  -- The rows that a test keeps, in their order.
  abbrev pub select : (A → Bool) → List A → List A
  select p [] = []
  select p (x ∷ xs) = let rest = select p xs in if p x then x ∷ rest else rest

  -- The first row that a test finds.
  abbrev pub first : (A → Bool) → List A → Option A
  first p [] = none
  first p (x ∷ xs) = let rest = first p xs in if p x then some x else rest

  -- An SQL UPDATE: the rows that a test finds are rewritten.
  abbrev pub update : (A → Bool) → (A → A) → List A → List A
  update p f [] = []
  update p f (x ∷ xs) = (if p x then f x else x) ∷ update p f xs

  abbrev pub any : (A → Bool) → List A → Bool
  any p [] = false
  any p (x ∷ xs) = p x || any p xs

  abbrev pub head : List A → Option A
  head [] = none
  head (x ∷ xs) = some x

module _ {ℓ} {A : Type ℓ} where
  -- Every element has the property.
  abbrev pub All {κ} : (A → Type κ) → List A → Type κ
  All P [] = Unit
  All P (x ∷ xs) = P x × All P xs

module _ {A : Type 0} where
  -- The element stands in the list.
  abbrev pub In : A → List A → Type 0
  In a [] = ⊥
  In a (x ∷ xs) = (a ≡ x) ⊎ In a xs

module _ {ℓ} {A : Type ℓ} where
  pub length-append : (xs ys : List A) → length (xs ++ ys) ≡ length xs + length ys
  length-append [] ys = omega arith
  length-append (x ∷ xs) ys = omega (arith, length-append xs ys)

  pub length-drop : (n : ℕ) (xs : List A) → length (drop n xs) ≡ length xs - n
  length-drop zero xs = omega arith
  length-drop (suc n) [] = omega arith
  length-drop (suc n) (x ∷ xs) = omega (arith, length-drop n xs)

  pub length-take : (n : ℕ) (xs : List A) → length (take n xs) ≡ min n (length xs)
  length-take zero xs = omega arith
  length-take (suc n) [] = omega arith
  length-take (suc n) (x ∷ xs) = omega (arith, length-take n xs)

module _ {A : Type 0} where
  pub All_of_In {κ} : (P : A → Type κ) (a : A) (xs : List A) → In a xs → All P xs → P a
  All_of_In P a [] m h = absurd m
  All_of_In P a (x ∷ xs) (inl e) h = subst P (sym e) h.0
  All_of_In P a (x ∷ xs) (inr m) h = All_of_In P a xs m h.1

  -- What `first` returns is a row of the list that passes the test.
  pub first-In : (p : A → Bool) (xs : List A) (a : A) → first p xs ≡ some a → In a xs
  first-In p [] a h = cc
  first-In p (x ∷ xs) a h = elim (Bool-cases (p x)) [
    | inl passes ↦ inl (ground arith)
    | inr fails ↦ inr (first-In p xs a (ground arith))
  ]

  pub first_passes : (p : A → Bool) (xs : List A) (a : A) → first p xs ≡ some a → p a ≡ true
  first_passes p [] a h = cc
  first_passes p (x ∷ xs) a h = ground (arith, first_passes p xs a)

  pub select-In : (p : A → Bool) (xs : List A) (a : A) → In a (select p xs) → In a xs × (p a ≡ true)
  select-In p [] a m = absurd m
  select-In p (x ∷ xs) a m = elim (Bool-cases (p x)) [
    | inl passes ↦ ground (arith, select-In p xs a)
    | inr fails ↦ ground (arith, select-In p xs a)
  ]

  pub In-select : (p : A → Bool) (xs : List A) (a : A) → In a xs → p a ≡ true → In a (select p xs)
  In-select p [] a m h = absurd m
  In-select p (x ∷ xs) a (inl e) h = ground arith
  In-select p (x ∷ xs) a (inr m) h = ground (arith, In-select p xs a m h)

  pub length-select_In :
      (p : A → Bool) (xs : List A) (a : A) → In a xs → p a ≡ true → 1 ≤ length (select p xs)
  length-select_In p [] a m h = absurd m
  length-select_In p (x ∷ xs) a (inl e) h = ground arith
  length-select_In p (x ∷ xs) a (inr m) h = ground (arith, length-select_In p xs a m h)

  -- What is selected lacks the test that its selection rules out.
  pub All-select_not :
      (q p : A → Bool) (xs : List A)
      → ((x : A) → q x ≡ true → p x ≡ false)
      → All (λ s. q s ≡ false) (select p xs)
  All-select_not q p [] h = tt
  All-select_not q p (x ∷ xs) h =
      let rest = All-select_not q p xs h in
      elim (Bool-cases (p x)) [
        | inl stays ↦ rw stays (elim (Bool-cases (q x)) [
          | inl bad ↦ absurd (ground (arith, h x bad))
          | inr fine ↦ (fine, rest)
        ])
        | inr goes ↦ rw goes rest
      ]

  pub select-select :
      (p q : A → Bool) (xs : List A) → select p (select q xs) ≡ select (λ x. q x && p x) xs
  select-select p q [] = refl
  select-select p q (x ∷ xs) = ground (arith, select-select p q xs)
