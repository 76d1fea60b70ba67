-- ===== src/Prelude/GoMap.antt =====
-- Go's `map[K]V` as an association list with one entry for a key. The source never depends on the
-- order in which a map is walked.
use Prim.Native.Nat.{ℕ}
use mathlib.Core.Path.{◌≡◌, refl}
use mathlib.Core.Logic.{◌↔◌}
use mathlib.Core.Bool.{Bool, true}
use mathlib.Core.Option.{Option, none, some}
use mathlib.Core.List.{List, [], ◌∷◌}
use native.Mathlib.Omega.{arith}
use asdl_hub.Prelude.Tests.{if◌then◌else◌, ◌==◌, ==_iff}

pub record KeyEq (K : Type 0) : Type 0 where
  pub same : K → K → Bool
  pub same_iff : (a b : K) → (same a b ≡ true) ↔ (a ≡ b)

instance abbrev pub nat_key : KeyEq ℕ
nat_key = record { same = ◌==◌; same_iff = ==_iff }

abbrev pub GoMap : Type 0 → Type 0 → Type 0
GoMap K V = List (K × V)

module _ {K V : Type 0} ⦃e : KeyEq K⦄ where
  unfoldable pub find : K → GoMap K V → Option V
  find k [] = none
  find k ((j, v) ∷ m) = let rest = find k m in if e.same j k then some v else rest

  -- delete(m, k)
  unfoldable pub remove : K → GoMap K V → GoMap K V
  remove k [] = []
  remove k ((j, v) ∷ m) = let rest = remove k m in if e.same j k then rest else (j, v) ∷ rest

  -- m[k] = v
  unfoldable pub put : K → V → GoMap K V → GoMap K V
  put k v m = (k, v) ∷ remove k m

  find_hit : (j k : K) (v : V) (m : GoMap K V) → j ≡ k → find k ((j, v) ∷ m) ≡ some v
  unfolding find
  find_hit j k v m h = ground (arith, e.same_iff j k)

  pub find-remove :
      (k j : K) (m : GoMap K V) → find j (remove k m) ≡ (if e.same k j then none else find j m)
  unfolding find remove
  find-remove k j [] = ground arith
  find-remove k j ((i, v) ∷ m) =
      ground (arith, find-remove k j m, e.same_iff i k, e.same_iff i j, e.same_iff k j)

  pub find-put :
      (k j : K) (v : V) (m : GoMap K V)
      → find j (put k v m) ≡ (if e.same k j then some v else find j m)
  unfolding find put
  find-put k j v m = ground (arith, find-remove k j m)

pub find-empty : {K V : Type 0} ⦃e : KeyEq K⦄ (k : K) → find {K = K} {V = V} k [] ≡ none
unfolding find
find-empty k = refl

pub ruleset map_laws = (find-empty, find-remove, find-put)
