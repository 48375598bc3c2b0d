-- ===== src/Fusion/Scores.antt =====
-- The fused score of an id against the formula of backend/src/app/domain/fusion.py.
use normeon_german_technical.Prelude.{
  ℕ, ◌+◌, ◌≡◌, ◌<◌, refl, Bool, true, false, ◌||◌, Option, none, some, List, [], ◌∷◌, length,
  if◌then◌else◌, Eq, ◌==◌, contains, Distinct, ok, arith,
}
use normeon_german_technical.Prelude.Dict.{
  Dict, keys, lookup, get_or, is_key, lookup-insert, insert-keys-Distinct,
}
use normeon_german_technical.Prelude.Sort.{lookup-sort, sort-keys-Distinct}
use normeon_german_technical.Scalar.{FloatOps}
use normeon_german_technical.Fusion.{
  Tally, count_hit, count_ranking, count_rankings, fuse, zip, rrf,
}

module _ {K : Type 0} ⦃e : Eq K⦄ where
  -- The position of the first occurrence, counted from `rank`.
  abbrev pub rank_of : ℕ → K → List K → Option ℕ
  rank_of rank d [] = none
  rank_of rank d (x ∷ xs) = if d == x then some rank else rank_of (rank + 1) d xs

  rank_of-contains :
      (rank : ℕ) (d : K) (xs : List K)
      → elim (rank_of rank d xs) [ none ↦ false | some _ ↦ true ] ≡ contains xs d
  rank_of-contains rank d [] = refl
  rank_of-contains rank d (x ∷ xs) = ground (arith, rank_of-contains (rank + 1) d xs)

module _ {K F : Type 0} ⦃e : Eq K⦄ where
  -- Some ranking lists the id.
  abbrev pub is_ranked : K → List (F × List K) → Bool
  is_ranked d [] = false
  is_ranked d ((_, ranking) ∷ rest) = contains ranking d || is_ranked d rest

module _ {K F : Type 0} ⦃e : Eq K⦄ (fl : FloatOps F) (k : ℕ) where
  -- What one ranking adds: `weight / (k + rank)`, and nothing for an id that it does not list.
  abbrev pub add_share : K → F → F × List K → F
  add_share d total (weight, ranking) = elim (rank_of 1 d ranking) [
    | none ↦ total
    | some rank ↦ fl.add total (fl.div_int weight (k + rank))
  ]

  -- The sum of the shares, in the order of the rankings.
  abbrev pub rrf_score : K → F → List (F × List K) → F
  rrf_score d total [] = total
  rrf_score d total (pair ∷ rest) = rrf_score d (add_share d total pair) rest

  lookup-count_ranking :
      (weight : F) (rank : ℕ) (counted ranking : List K) (t : Tally K F) (d : K)
      → lookup d (count_ranking fl k weight rank counted ranking t).scores ≡ (
          if contains counted d then lookup d t.scores else elim (rank_of rank d ranking) [
            | none ↦ lookup d t.scores
            | some r ↦ some (fl.add (get_or d fl.zero t.scores) (fl.div_int weight (k + r)))
          ])
  unfolding count_ranking
  lookup-count_ranking weight rank counted [] t d = ground arith
  lookup-count_ranking weight rank counted (x ∷ xs) t d = ground (
    arith,
    lookup-count_ranking weight (rank + 1) (if contains counted x then counted else x ∷ counted) xs
        (if contains counted x then t else count_hit fl k weight rank x t) d,
    lookup-insert d x (fl.add (get_or x fl.zero t.scores) (fl.div_int weight (k + rank))) t.scores,
  )

  lookup-count_rankings :
      (pairs : List (F × List K)) (t : Tally K F) (d : K)
      → lookup d (count_rankings fl k pairs t).scores ≡ (
          if is_key d t.scores || is_ranked d pairs
          then some (rrf_score d (get_or d fl.zero t.scores) pairs)
          else none)
  unfolding count_rankings
  lookup-count_rankings [] t d = ground arith
  lookup-count_rankings ((weight, ranking) ∷ rest) t d = ground (
    arith,
    lookup-count_rankings rest (count_ranking fl k weight 1 [] ranking t) d,
    lookup-count_ranking weight 1 [] ranking t d,
    rank_of-contains 1 d ranking,
  )

  hit-keys-Distinct :
      (counted : Bool) (weight : F) (rank : ℕ) (x : K) (t : Tally K F)
      → Distinct (keys t.scores)
      → Distinct (keys (if counted then t else count_hit fl k weight rank x t).scores)
  unfolding count_hit
  hit-keys-Distinct true weight rank x t u = u
  hit-keys-Distinct false weight rank x t u = insert-keys-Distinct x _ t.scores u

  count_ranking-keys-Distinct :
      (weight : F) (rank : ℕ) (counted ranking : List K) (t : Tally K F)
      → Distinct (keys t.scores)
      → Distinct (keys (count_ranking fl k weight rank counted ranking t).scores)
  unfolding count_ranking
  count_ranking-keys-Distinct weight rank counted [] t u = u
  count_ranking-keys-Distinct weight rank counted (x ∷ xs) t u =
      count_ranking-keys-Distinct weight (rank + 1) _ xs _
        (hit-keys-Distinct (contains counted x) weight rank x t u)

  pub count_rankings-keys-Distinct :
      (pairs : List (F × List K)) (t : Tally K F)
      → Distinct (keys t.scores)
      → Distinct (keys (count_rankings fl k pairs t).scores)
  unfolding count_rankings
  count_rankings-keys-Distinct [] t u = u
  count_rankings-keys-Distinct ((weight, ranking) ∷ rest) t u =
      count_rankings-keys-Distinct rest _ (count_ranking-keys-Distinct weight 1 [] ranking t u)

  pub fuse-keys-Distinct : (pairs : List (F × List K)) → Distinct (keys (fuse fl k pairs))
  unfolding fuse
  fuse-keys-Distinct pairs = sort-keys-Distinct _ _ (count_rankings-keys-Distinct pairs _ tt)

  pub lookup-fuse :
      (pairs : List (F × List K)) (d : K)
      → lookup d (fuse fl k pairs)
        ≡ (if is_ranked d pairs then some (rrf_score d fl.zero pairs) else none)
  unfolding fuse
  lookup-fuse pairs d =
      rw (lookup-sort _ _ d (count_rankings-keys-Distinct pairs _ tt))
        (lookup-count_rankings pairs _ d)

  -- With `k` above 0 and one weight per ranking, `rrf` returns a list that holds no id twice, and
  -- exactly the ids that some ranking lists, each with the sum of `weight / (k + rank)` over the
  -- rankings that list it, `rank` the 1-based place of its first occurrence there, added up from 0.0
  -- in the order of the rankings.
  pub rrf_scores :
      (rankings : List (List K)) (weights : List F)
      → 0 < k
      → length weights ≡ length rankings
      → (out : Dict K F) × (rrf fl rankings k (some weights) ≡ ok out)
        × Distinct (keys out)
        × ((d : K)
            → lookup d out ≡ (
                if is_ranked d (zip weights rankings)
                then some (rrf_score d fl.zero (zip weights rankings))
                else none))
  unfolding rrf
  rrf_scores rankings weights pos same = (
    fuse fl k (zip weights rankings),
    ground arith,
    fuse-keys-Distinct (zip weights rankings),
    lookup-fuse (zip weights rankings),
  )
