-- ===== src/Prelude/Sorting.antt =====
-- Go's sort.SliceStable and SQL's ORDER BY: a stable sort by a strict order given as a test.
use Prim.Native.Nat.{suc}
use mathlib.Core.Path.{◌≡◌, refl, ap, ◌∙◌}
use mathlib.Core.Logic.{◌⊎◌, inl, inr}
use mathlib.Core.Bool.{Bool, true, false}
use mathlib.Core.List.{List, [], ◌∷◌, Perm}
use mathlib.Core.List.Perm
use native.Mathlib.Omega.{arith}
use asdl_hub.Prelude.Tests.{if◌then◌else◌, Bool-cases}
use asdl_hub.Prelude.Lists.{All, In, length}

module _ {A : Type 0} (less : A → A → Bool) where
  -- The new element stands before those that are not less than it.
  pub insert_sorted : A → List A → List A
  insert_sorted x [] = x ∷ []
  insert_sorted x (y ∷ ys) =
      let later = insert_sorted x ys in if less y x then y ∷ later else x ∷ y ∷ ys

  unfoldable pub stable_sort : List A → List A
  unfolding insert_sorted
  stable_sort [] = []
  stable_sort (x ∷ xs) = insert_sorted x (stable_sort xs)

  -- No element is less than one that stands before it.
  abbrev pub IsSorted : List A → Type 0
  IsSorted [] = Unit
  IsSorted (x ∷ xs) = All (λ y. less y x ≡ false) xs × IsSorted xs

  insert_sorted-perm : (x : A) (ys : List A) → Perm (insert_sorted x ys) (x ∷ ys)
  unfolding insert_sorted
  insert_sorted-perm x [] = Perm.refl _
  insert_sorted-perm x (y ∷ ys) =
      elim (less y x)
        as (λ b. Perm (if b then y ∷ insert_sorted x ys else x ∷ y ∷ ys) (x ∷ y ∷ ys)) [
          | true ↦ Perm.trans (Perm.cons y (insert_sorted-perm x ys)) (Perm.swap x y ys)
          | false ↦ Perm.refl _
        ]

  pub stable_sort-perm : (xs : List A) → Perm (stable_sort xs) xs
  unfolding stable_sort
  stable_sort-perm [] = Perm.refl _
  stable_sort-perm (x ∷ xs) =
      Perm.trans (insert_sorted-perm x (stable_sort xs)) (Perm.cons x (stable_sort-perm xs))

  insert_sorted-In : (x a : A) (ys : List A) → In a (insert_sorted x ys) → (a ≡ x) ⊎ In a ys
  unfolding insert_sorted
  insert_sorted-In x a [] m = m
  insert_sorted-In x a (y ∷ ys) m = ground (arith, insert_sorted-In x a ys)

  In-insert_sorted : (x a : A) (ys : List A) → (a ≡ x) ⊎ In a ys → In a (insert_sorted x ys)
  unfolding insert_sorted
  In-insert_sorted x a [] m = m
  In-insert_sorted x a (y ∷ ys) m = ground (arith, In-insert_sorted x a ys)

  pub In-of_stable_sort : (a : A) (xs : List A) → In a (stable_sort xs) → In a xs
  unfolding stable_sort
  In-of_stable_sort a [] m = m
  In-of_stable_sort a (x ∷ xs) m = elim (insert_sorted-In x a (stable_sort xs) m) [
    | inl e ↦ inl e
    | inr n ↦ inr (In-of_stable_sort a xs n)
  ]

  pub In-stable_sort : (a : A) (xs : List A) → In a xs → In a (stable_sort xs)
  unfolding stable_sort
  In-stable_sort a [] m = m
  In-stable_sort a (x ∷ xs) (inl e) = In-insert_sorted x a (stable_sort xs) (inl e)
  In-stable_sort a (x ∷ xs) (inr m) =
      In-insert_sorted x a (stable_sort xs) (inr (In-stable_sort a xs m))

  length-insert_sorted : (x : A) (ys : List A) → length (insert_sorted x ys) ≡ suc (length ys)
  unfolding insert_sorted
  length-insert_sorted x [] = refl
  length-insert_sorted x (y ∷ ys) = ground (arith, length-insert_sorted x ys)

  pub length-stable_sort : (xs : List A) → length (stable_sort xs) ≡ length xs
  unfolding stable_sort
  length-stable_sort [] = refl
  length-stable_sort (x ∷ xs) =
      length-insert_sorted x (stable_sort xs) ∙ ap suc (length-stable_sort xs)

  -- What a sort by `less` relies on: a strict weak order.
  module _ (asym : (a b : A) → less a b ≡ true → less b a ≡ false)
      (not_less_trans : (a b c : A) → less a b ≡ false → less b c ≡ false → less a c ≡ false) where
    All-not_less :
        (x y : A) (zs : List A)
        → less y x ≡ false
        → All (λ z. less z y ≡ false) zs
        → All (λ z. less z x ≡ false) zs
    All-not_less x y [] h k = tt
    All-not_less x y (z ∷ zs) h k = (not_less_trans z y x k.0 h, All-not_less x y zs h k.1)

    All-insert_sorted :
        (x y : A) (zs : List A)
        → less x y ≡ false
        → All (λ z. less z y ≡ false) zs
        → All (λ z. less z y ≡ false) (insert_sorted x zs)
    unfolding insert_sorted
    All-insert_sorted x y [] h k = (h, tt)
    All-insert_sorted x y (z ∷ zs) h k = ground (arith, All-insert_sorted x y zs h k.1)

    insert_sorted-IsSorted : (x : A) (ys : List A) → IsSorted ys → IsSorted (insert_sorted x ys)
    unfolding insert_sorted
    insert_sorted-IsSorted x [] h = (tt, tt)
    insert_sorted-IsSorted x (y ∷ ys) h = elim (Bool-cases (less y x)) [
      | inl lower ↦ ground (
        arith,
        asym y x,
        All-insert_sorted x y ys (asym y x lower) h.0,
        insert_sorted-IsSorted x ys h.1,
      )
      | inr higher ↦ ground (arith, All-not_less x y ys higher h.0)
    ]

    pub stable_sort-IsSorted : (xs : List A) → IsSorted (stable_sort xs)
    unfolding stable_sort
    stable_sort-IsSorted [] = tt
    stable_sort-IsSorted (x ∷ xs) =
        insert_sorted-IsSorted x (stable_sort xs) (stable_sort-IsSorted xs)
