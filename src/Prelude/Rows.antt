-- ===== src/Prelude/Rows.antt =====
-- A table as the list of its rows, whose primary keys are distinct, under an update of one row.
use Prim.Native.Nat.{ℕ, suc, ◌≤◌}
use mathlib.Core.Path.{◌≡◌, refl, sym, ap, ◌∙◌, subst}
use mathlib.Core.Logic.{◌≢◌, inl, inr}
use mathlib.Core.Bool.{Bool, true, false, ◌&&◌}
use mathlib.Core.List.{List, [], ◌∷◌}
use native.Mathlib.Omega.{arith}
use asdl_hub.Prelude.Tests.{◌==◌, ==_iff, if◌then◌else◌, Bool-cases}
use asdl_hub.Prelude.Lists.{All, In, update, select, length}

module _ {A : Type 0} where
  -- A row of the updated table is the image of a row.
  pub In-of_update :
      (p : A → Bool) (f : A → A) (a : A) (xs : List A)
      → In a (update p f xs)
      → (b : A) × In b xs × (a ≡ (if p b then f b else b))
  In-of_update p f a [] m = absurd m
  In-of_update p f a (x ∷ xs) (inl e) = (x, inl refl, e)
  In-of_update p f a (x ∷ xs) (inr m) = let (b, n, e) = In-of_update p f a xs m in (b, inr n, e)

  pub In-update :
      (p : A → Bool) (f : A → A) (b : A) (xs : List A)
      → In b xs
      → In (if p b then f b else b) (update p f xs)
  In-update p f b [] m = m
  In-update p f b (x ∷ xs) (inl e) = inl (ap (λ (r : A). if p r then f r else r) e)
  In-update p f b (x ∷ xs) (inr m) = inr (In-update p f b xs m)

  -- An update that makes no row pass a test adds none.
  pub length-select-update_le :
      (q : A → Bool) (p : A → Bool) (f : A → A) (xs : List A)
      → ((x : A) → In x xs → p x ≡ true → q (f x) ≡ true → q x ≡ true)
      → length (select q (update p f xs)) ≤ length (select q xs)
  length-select-update_le q p f [] h = omega arith
  length-select-update_le q p f (x ∷ xs) h =
      ground (arith, h x (inl refl), length-select-update_le q p f xs (λ y m. h y (inr m)))

module _ {A : Type 0} (key : A → ℕ) where
  abbrev pub DistinctKeys : List A → Type 0
  DistinctKeys [] = Unit
  DistinctKeys (x ∷ xs) = All (λ r. (key r == key x) ≡ false) xs × DistinctKeys xs

  absent_ne :
      (i : ℕ) (b : A) (xs : List A) → All (λ r. (key r == i) ≡ false) xs → In b xs → key b ≢ i
  absent_ne i b [] h m = absurd m
  absent_ne i b (x ∷ xs) h (inl e) = λ p. ground (arith, ap key e)
  absent_ne i b (x ∷ xs) h (inr m) = absent_ne i b xs h.1 m

  -- Two rows with one key are one row.
  pub row_unique :
      (a b : A) (xs : List A) → DistinctKeys xs → In a xs → In b xs → key a ≡ key b → a ≡ b
  row_unique a b [] d m n e = absurd m
  row_unique a b (x ∷ xs) d (inl p) (inl q) e = p ∙ sym q
  row_unique a b (x ∷ xs) d (inl p) (inr n) e =
      absurd (absent_ne (key x) b xs d.0 n (sym e ∙ ap key p))
  row_unique a b (x ∷ xs) d (inr m) (inl q) e = absurd (absent_ne (key x) a xs d.0 m (e ∙ ap key q))
  row_unique a b (x ∷ xs) d (inr m) (inr n) e = row_unique a b xs d.1 m n e

  update_absent :
      (i : ℕ) (p : A → Bool) (f : A → A) (xs : List A)
      → All (λ r. (key r == i) ≡ false) xs
      → update (λ r. key r == i && p r) f xs ≡ xs
  update_absent i p f [] h = refl
  update_absent i p f (x ∷ xs) h = ground (arith, update_absent i p f xs h.1)

  -- An update of one row adds at most that row to those that pass a test.
  pub length-select-update :
      (q : A → Bool) (i : ℕ) (p : A → Bool) (f : A → A) (xs : List A)
      → DistinctKeys xs
      → length (select q (update (λ r. key r == i && p r) f xs)) ≤ suc (length (select q xs))
  length-select-update q i p f [] d = omega arith
  length-select-update q i p f (x ∷ xs) d = elim (Bool-cases (key x == i)) [
    | inl same ↦
        let gone =
          update_absent i p f xs
            (subst (λ k. All (λ r. (key r == k) ≡ false) xs) ((==_iff (key x) i).0 same) d.0) in
        ground (arith, gone)
    | inr other ↦ ground (arith, length-select-update q i p f xs d.1)
  ]

module _ {A : Type 0} (key : A → ℕ) where
  absent-update :
      (k : ℕ) (p : A → Bool) (f : A → A) (xs : List A)
      → ((x : A) → key (f x) ≡ key x)
      → All (λ r. (key r == k) ≡ false) xs
      → All (λ r. (key r == k) ≡ false) (update p f xs)
  absent-update k p f [] same h = h
  absent-update k p f (x ∷ xs) same h = (
    elim (p x) as (λ b. (key (if b then f x else x) == k) ≡ false) [
      | true ↦ ground (arith, same x, h.0)
      | false ↦ h.0
    ],
    absent-update k p f xs same h.1,
  )

  -- An update that keeps the keys keeps them distinct.
  pub DistinctKeys-update :
      (p : A → Bool) (f : A → A) (xs : List A)
      → ((x : A) → key (f x) ≡ key x)
      → DistinctKeys key xs
      → DistinctKeys key (update p f xs)
  DistinctKeys-update p f [] same d = d
  DistinctKeys-update p f (x ∷ xs) same d = (
    subst (λ k. All (λ r. (key r == k) ≡ false) (update p f xs))
        (elim (p x) as (λ b. key x ≡ key (if b then f x else x)) [
          | true ↦ sym (same x)
          | false ↦ refl
        ])
        (absent-update (key x) p f xs same d.0),
    DistinctKeys-update p f xs same d.1,
  )

  select-absent :
      (k : ℕ) (p : A → Bool) (xs : List A)
      → ((x : A) → p x ≡ true → key x ≡ k)
      → All (λ r. (key r == k) ≡ false) xs
      → length (select p xs) ≡ 0
  select-absent k p [] own h = refl
  select-absent k p (x ∷ xs) own h = ground (arith, own x, h.0, select-absent k p xs own h.1)

  -- At most one row has a key.
  pub length-select_unique :
      (k : ℕ) (p : A → Bool) (xs : List A)
      → ((x : A) → p x ≡ true → key x ≡ k)
      → DistinctKeys key xs
      → length (select p xs) ≤ 1
  length-select_unique k p [] own d = omega arith
  length-select_unique k p (x ∷ xs) own d = elim (Bool-cases (p x)) [
    | inl hit ↦
        let gone =
          select-absent k p xs own
            (subst (λ j. All (λ r. (key r == j) ≡ false) xs) (own x hit) d.0) in
        ground (arith, gone)
    | inr miss ↦ ground (arith, length-select_unique k p xs own d.1)
  ]

module _ {A : Type 0} (key : A → ℕ) where
  -- Rows that were read at once are written back one after another: `f r x` is what the row x with the
  -- key of the read row r becomes.
  abbrev pub save_each : (A → A → A) → List A → List A → List A
  save_each f [] t = t
  save_each f (r ∷ rs) t = save_each f rs (update (λ x. key x == key r) (f r) t)

  save_absent :
      (r : A) (f : A → A) (t : List A)
      → All (λ x. (key x == key r) ≡ false) t
      → update (λ x. key x == key r) f t ≡ t
  save_absent r f [] h = refl
  save_absent r f (x ∷ t) h = ground (arith, save_absent r f t h.1)

  -- A row whose key none of the written rows has stays at the head.
  save_each-head :
      (f : A → A → A) (x : A) (rs t : List A)
      → All (λ r. (key r == key x) ≡ false) rs
      → save_each f rs (x ∷ t) ≡ x ∷ save_each f rs t
  save_each-head f x [] t h = refl
  save_each-head f x (r ∷ rs) t h =
      let other : (key x == key r) ≡ false = ground (arith, h.0) in
      rw other (save_each-head f x rs (update (λ y. key y == key r) (f r) t) h.1)

  All-select : (P : A → Type 0) (p : A → Bool) (xs : List A) → All P xs → All P (select p xs)
  All-select P p [] h = h
  All-select P p (x ∷ xs) h =
      elim (p x) as (λ b. All P (if b then x ∷ select p xs else select p xs)) [
        | true ↦ (h.0, All-select P p xs h.1)
        | false ↦ All-select P p xs h.1
      ]

  -- The rows that pass a test, read at once and written back one by one, are rewritten in place.
  pub save_each-select :
      (f : A → A → A) (p : A → Bool) (xs : List A)
      → DistinctKeys key xs
      → ((x : A) → key (f x x) ≡ key x)
      → save_each f (select p xs) xs ≡ update p (λ x. f x x) xs
  save_each-select f p [] d same = refl
  save_each-select f p (x ∷ xs) d same =
      let others = All-select (λ r. (key r == key x) ≡ false) p xs d.0 in
      let rest = save_each-select f p xs d.1 same in
      elim (Bool-cases (p x)) [
        | inl hit ↦
            let written : update (λ y. key y == key x) (f x) (x ∷ xs) ≡ f x x ∷ xs =
              ground (arith, save_absent x (f x) xs d.0) in
            let kept =
              save_each-head f (f x x) (select p xs) xs (
                subst (λ k. All (λ r. (key r == k) ≡ false) (select p xs)) (sym (same x)) others) in
            rw hit (ap (save_each f (select p xs)) written ∙ kept ∙ ap (λ r. f x x ∷ r) rest)
        | inr miss ↦ rw (miss, save_each-head f x (select p xs) xs others, rest) refl
      ]
