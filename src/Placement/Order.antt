-- ===== src/Placement/Order.antt =====
-- The comparison is a strict weak order, so the sort puts the best candidate first.
use asdl_hub.Prelude.{
  ◌≡◌, refl, sym, subst, inl, inr, true, false, some, List, [], ◌∷◌, arith, Bool-cases, head, In,
  All_of_In, IsSorted, In-of_stable_sort, In-stable_sort, stable_sort-IsSorted,
}
use asdl_hub.Models.{Text}
use asdl_hub.Deploy.Markers.{codes}
use asdl_hub.Placement.{Float, Candidate, text_less, score, has_headroom, precedes, rank_placements}

text_less_asym : (s t : Text) → text_less s t ≡ true → text_less t s ≡ false
unfolding text_less
text_less_asym [] [] h = refl
text_less_asym [] (d ∷ t) h = refl
text_less_asym (c ∷ s) [] h = cc (h)
text_less_asym (c ∷ s) (d ∷ t) h = ground (arith, text_less_asym s t)

not_text_less_trans :
    (s t u : Text) → text_less s t ≡ false → text_less t u ≡ false → text_less s u ≡ false
unfolding text_less
not_text_less_trans s t [] h k = without s
  where
    without : (s : Text) → text_less s [] ≡ false
    without [] = refl
    without (c ∷ s) = refl
not_text_less_trans [] [] (e ∷ u) h k = cc (k)
not_text_less_trans [] (d ∷ t) (e ∷ u) h k = cc (h)
not_text_less_trans (c ∷ s) [] (e ∷ u) h k = cc (k)
not_text_less_trans (c ∷ s) (d ∷ t) (e ∷ u) h k = ground (arith, not_text_less_trans s t u)

module _ {F : Type 0} (f : Float F) where
  precedes_asym : (a b : Candidate F) → precedes f a b ≡ true → precedes f b a ≡ false
  unfolding precedes
  precedes_asym a b h = ground (
    arith,
    f.less_asym (score f a) (score f b),
    f.less_asym (score f b) (score f a),
    text_less_asym (codes a.node.hostname) (codes b.node.hostname),
  )

  not_precedes_trans :
      (a b c : Candidate F)
      → precedes f a b ≡ false
      → precedes f b c ≡ false
      → precedes f a c ≡ false
  unfolding precedes
  not_precedes_trans a b c h k = ground (
    arith,
    f.not_less_trans (score f a) (score f b) (score f c),
    f.not_less_trans (score f c) (score f b) (score f a),
    f.not_less_trans (score f b) (score f c) (score f a),
    f.not_less_trans (score f c) (score f a) (score f b),
    f.not_less_trans (score f a) (score f c) (score f b),
    f.not_less_trans (score f b) (score f a) (score f c),
    not_text_less_trans (codes a.node.hostname) (codes b.node.hostname) (codes c.node.hostname),
  )

  head_sorted :
      (cs : List (Candidate F)) (b c : Candidate F)
      → IsSorted (precedes f) cs
      → head cs ≡ some b
      → In c cs
      → precedes f c b ≡ false
  head_sorted [] b c sorted h m = absurd m
  head_sorted (x ∷ cs) b c sorted h m =
      let same : x ≡ b = ground arith in
      subst (λ y. precedes f c y ≡ false) same
        (elim m [
          | inl here ↦ subst (λ y. precedes f y x ≡ false) (sym here) (irreflexive x)
          | inr later ↦ All_of_In (λ y. precedes f y x ≡ false) c cs later sorted.0
        ])
    where
      irreflexive : (y : Candidate F) → precedes f y y ≡ false
      irreflexive y = elim (Bool-cases (precedes f y y)) [
        | inl less ↦ precedes_asym y y less
        | inr same ↦ same
      ]

  head-In : (cs : List (Candidate F)) (b : Candidate F) → head cs ≡ some b → In b cs
  head-In [] b h = cc (h)
  head-In (x ∷ cs) b h = inl (ground arith)

  -- The first of the ranked candidates is one of them. It has headroom if any has; it is the master node
  -- if that one is a candidate with the same headroom; and no candidate with the same headroom that is
  -- the master node just as it is has a higher score.
  pub first_is_best :
      (cands : List (Candidate F)) (best c : Candidate F)
      → head (rank_placements f cands) ≡ some best
      → In c cands
      → In best cands
        × (has_headroom f c ≡ true → has_headroom f best ≡ true)
        × (has_headroom f c ≡ has_headroom f best → c.is_master ≡ true → best.is_master ≡ true)
        × (has_headroom f c ≡ has_headroom f best
            → c.is_master ≡ best.is_master
            → f.less (score f best) (score f c) ≡ false)
  unfolding rank_placements precedes
  first_is_best cands best c e m =
      let sorted = stable_sort-IsSorted (precedes f) precedes_asym not_precedes_trans cands in
      let after =
        head_sorted (rank_placements f cands) best c sorted e
          (In-stable_sort (precedes f) c cands m) in
      (
        In-of_stable_sort (precedes f) best cands (head-In (rank_placements f cands) best e),
        λ room. ground (arith, after),
        λ same master. ground (arith, after),
        λ same master. ground (arith, after),
      )
