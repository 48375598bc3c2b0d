-- ===== src/Fusion/Order.antt =====
-- The order of the fused ranking of backend/src/app/domain/fusion.py.
use normeon_german_technical.Prelude.{
  ℕ, ◌≡◌, ◌<◌, ◌≤◌, false, some, List, [], ◌∷◌, length, Eq, All, ok, arith,
}
use normeon_german_technical.Prelude.Dict.{Dict, lookup}
use normeon_german_technical.Prelude.Sort.{IsSorted, IsOrder, sort-IsSorted}
use normeon_german_technical.Scalar.{FloatOps, FloatLaws}
use normeon_german_technical.Fusion.{before, tally, fuse, zip, rrf}
use normeon_german_technical.Fusion.Scores.{rank_of}
use normeon_german_technical.Fusion.Appearance.{appearance, place_in, lookup-first_seen}

module _ {K F : Type 0} ⦃e : Eq K⦄ {fl : FloatOps F} (laws : FloatLaws fl) where
  before-IsOrder : (seen : Dict K ℕ) → IsOrder (before fl seen)
  unfolding before
  before-IsOrder seen = record {
    asymm = λ (a, x) (b, y) h. ground (
      arith,
      laws.eq_lem (fl.neg x) (fl.neg y),
      laws.eq_lem (fl.neg y) (fl.neg x),
      laws.asymm (fl.neg x) (fl.neg y),
    );
    trans = λ (a, x) (b, y) (c, z) h j. ground (
      arith,
      laws.eq_lem (fl.neg y) (fl.neg x),
      laws.eq_lem (fl.neg z) (fl.neg y),
      laws.eq_lem (fl.neg z) (fl.neg x),
      laws.trans (fl.neg x) (fl.neg y) (fl.neg z),
      laws.trans (fl.neg y) (fl.neg z) (fl.neg x),
      laws.trans (fl.neg z) (fl.neg x) (fl.neg y),
    );
  }

  -- Scores never rise down the list, and equal scores stand in the order of `ids`.
  abbrev pub IsRanked : List K → Dict K F → Type 0
  IsRanked ids [] = Unit
  IsRanked ids ((a, x) ∷ rest) =
      All
        (λ (entry : K × F).
          (fl.lt x entry.1 ≡ false)
          × (fl.lt entry.1 x ≡ false → place_in ids a ≤ place_in ids entry.0))
        rest
      × IsRanked ids rest

  before-All :
      (ids : List K) (seen : Dict K ℕ) (a : K) (x : F) (rest : Dict K F)
      → ((d : K) → lookup d seen ≡ rank_of 0 d ids)
      → All (λ entry. before fl seen entry (a, x) ≡ false) rest
      → All
          (λ (entry : K × F).
            (fl.lt x entry.1 ≡ false)
            × (fl.lt entry.1 x ≡ false → place_in ids a ≤ place_in ids entry.0))
          rest
  unfolding before
  before-All ids seen a x [] num _ = tt
  before-All ids seen a x ((b, y) ∷ rest) num (h, hs) = (
    (
      ground (arith, laws.eq_lem (fl.neg y) (fl.neg x), laws.lt-neg y x),
      λ not_less. ground (
        arith,
        num a,
        num b,
        laws.eq_lem (fl.neg y) (fl.neg x),
        laws.lt-neg y x,
        laws.lt-neg x y,
      ),
    ),
    before-All ids seen a x rest num hs,
  )

  IsSorted-IsRanked :
      (ids : List K) (seen : Dict K ℕ) (l : Dict K F)
      → ((d : K) → lookup d seen ≡ rank_of 0 d ids)
      → IsSorted (before fl seen) l
      → IsRanked ids l
  IsSorted-IsRanked ids seen [] num _ = tt
  IsSorted-IsRanked ids seen ((a, x) ∷ rest) num (h, s) =
      (before-All ids seen a x rest num h, IsSorted-IsRanked ids seen rest num s)

  pub fuse-IsRanked :
      (k : ℕ) (pairs : List (F × List K)) → IsRanked (appearance [] pairs) (fuse fl k pairs)
  unfolding fuse
  fuse-IsRanked k pairs =
      IsSorted-IsRanked (appearance [] pairs) (tally fl k pairs).first_seen _
        (lookup-first_seen fl k pairs)
        (sort-IsSorted (before-IsOrder (tally fl k pairs).first_seen) (tally fl k pairs).scores)

  -- Where no score is NaN, the list that `rrf` returns for a `k` above 0 and one weight per ranking
  -- is in descending order of score, and ids of equal score stand in the order in which they first
  -- appear when the rankings are read one after the other.
  pub rrf-IsRanked :
      (rankings : List (List K)) (k : ℕ) (weights : List F)
      → 0 < k
      → length weights ≡ length rankings
      → (out : Dict K F) × (rrf fl rankings k (some weights) ≡ ok out)
        × IsRanked (appearance [] (zip weights rankings)) out
  unfolding rrf
  rrf-IsRanked rankings k weights pos same =
      (fuse fl k (zip weights rankings), ground arith, fuse-IsRanked k (zip weights rankings))
