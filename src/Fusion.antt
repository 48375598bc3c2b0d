-- ===== src/Fusion.antt =====
-- Reciprocal Rank Fusion: backend/src/app/domain/fusion.py.
pub mod Scores
pub mod Appearance
pub mod Order
mod Tests
use normeon_german_technical.Prelude.{
  ℕ, zero, suc, ◌+◌, ◌≡◌, Bool, true, false, Option, none, some, List, [], ◌∷◌, leb, ltb, length,
  if◌then◌else◌, Eq, ◌==◌, nat_eq, contains, Result, ok, err, ◌>>=◌,
}
use normeon_german_technical.Prelude.Dict.{Dict, keys, lookup, insert, get_or, set_default}
use normeon_german_technical.Prelude.Sort.{sort}
use normeon_german_technical.Scalar.{FloatOps}

-- The two `ValueError`s of `rrf`.
pub data FusionError : Type 0 where
  bad_k bad_weights : FusionError

-- `[1.0] * n`
unfoldable pub replicate : {F : Type 0} → ℕ → F → List F
replicate zero x = []
replicate (suc n) x = x ∷ replicate n x

-- `zip(weights, rankings)`
unfoldable pub zip : {F R : Type 0} → List F → List R → List (F × R)
zip (w ∷ ws) (r ∷ rs) = (w, r) ∷ zip ws rs
zip _ _ = []

-- The two dicts that the loops fill.
pub record Tally (K F : Type 0) : Type 0 where
  pub scores : Dict K F
  pub first_seen : Dict K ℕ

module _ {K F : Type 0} ⦃e : Eq K⦄ (fl : FloatOps F) where
  -- The body of the inner loop, past the `continue`.
  pub count_hit : ℕ → F → ℕ → K → Tally K F → Tally K F
  count_hit k weight rank doc_id t = record {
    scores =
        insert doc_id (fl.add (get_or doc_id fl.zero t.scores) (fl.div_int weight (k + rank)))
          t.scores;
    first_seen = set_default doc_id (length t.first_seen) t.first_seen;
  }

  -- The inner loop: `rank` counts from 1, `counted` holds the ids that this ranking has had.
  pub count_ranking : ℕ → F → ℕ → List K → List K → Tally K F → Tally K F
  unfolding count_hit
  count_ranking k weight rank counted [] t = t
  count_ranking k weight rank counted (doc_id ∷ ranking) t =
      count_ranking k weight (rank + 1)
        (if contains counted doc_id then counted else doc_id ∷ counted) ranking
        (if contains counted doc_id then t else count_hit k weight rank doc_id t)

  -- The outer loop.
  pub count_rankings : ℕ → List (F × List K) → Tally K F → Tally K F
  unfolding count_ranking
  count_rankings k [] t = t
  count_rankings k ((weight, ranking) ∷ rest) t =
      count_rankings k rest (count_ranking k weight 1 [] ranking t)

  -- `<` on the sort keys `(-score, first_seen[id])`.
  pub before : Dict K ℕ → K × F → K × F → Bool
  before first_seen (a, x) (b, y) =
      if fl.eq (fl.neg x) (fl.neg y)
      then ltb (get_or a 0 first_seen) (get_or b 0 first_seen)
      else fl.lt (fl.neg x) (fl.neg y)

  abbrev pub tally : ℕ → List (F × List K) → Tally K F
  tally k pairs = count_rankings k pairs (record { scores = []; first_seen = [] })

  pub fuse : ℕ → List (F × List K) → List (K × F)
  unfolding count_rankings before sort
  fuse k pairs = sort (before (tally k pairs).first_seen) (tally k pairs).scores

  -- `weights=None` is a weight of 1.0 for each ranking.
  pub resolve_weights : Option (List F) → List (List K) → Result FusionError (List F)
  unfolding replicate
  resolve_weights none rankings = ok (replicate (length rankings) fl.one)
  resolve_weights (some weights) rankings =
      if length weights == length rankings then ok weights else err bad_weights

  unfoldable pub rrf : List (List K) → ℕ → Option (List F) → Result FusionError (List (K × F))
  unfolding fuse resolve_weights zip nat_eq
  rrf rankings k weights =
      if leb k 0
      then err bad_k
      else (do applied ← resolve_weights weights rankings; ok (fuse k (zip applied rankings)))
