-- ===== src/Fusion/Tests.antt =====
-- A run of `rrf`, and the theorems at concrete rankings.
use normeon_german_technical.Prelude.{
  ℕ, ◌≡◌, refl, none, some, List, [], ◌∷◌, if◌then◌else◌, ok, err, arith, nat_eq, Distinct,
}
use normeon_german_technical.Prelude.Dict.{Dict, keys, lookup}
use normeon_german_technical.Scalar.Fixed.{Fixed, pos, fixed, fixed-FloatLaws}
use normeon_german_technical.Fusion.{rrf, zip, bad_k, bad_weights}
use normeon_german_technical.Fusion.Scores.{is_ranked, rrf_score, rrf_scores}
use normeon_german_technical.Fusion.Appearance.{appearance}
use normeon_german_technical.Fusion.Order.{IsRanked, rrf-IsRanked}

abbrev rankings : List (List ℕ)
rankings = (7 ∷ 8 ∷ 9 ∷ []) ∷ (8 ∷ 5 ∷ 8 ∷ []) ∷ [] ∷ []

abbrev weights : List Fixed
weights = pos 1000000 ∷ pos 1000000 ∷ pos 2000000 ∷ []

rrf_run :
    rrf fixed rankings 60 none
    ≡ ok ((8, pos 32522) ∷ (7, pos 16393) ∷ (5, pos 16129) ∷ (9, pos 15873) ∷ [])
unfolding rrf
rrf_run = refl

rrf_errors :
    (rrf fixed rankings 0 none ≡ err bad_k) × (rrf fixed rankings 60 (some []) ≡ err bad_weights)
unfolding rrf
rrf_errors = (refl, refl)

rrf_scores_example :
    (out : Dict ℕ Fixed) × (rrf fixed rankings 60 (some weights) ≡ ok out)
    × Distinct (keys out)
    × ((d : ℕ)
        → lookup d out ≡ (
            if is_ranked d (zip weights rankings)
            then some (rrf_score fixed 60 d fixed.zero (zip weights rankings))
            else none))
rrf_scores_example = rrf_scores fixed 60 rankings weights (omega arith) refl

rrf-IsRanked_example :
    (out : Dict ℕ Fixed) × (rrf fixed rankings 60 (some weights) ≡ ok out)
    × IsRanked fixed-FloatLaws (appearance [] (zip weights rankings)) out
rrf-IsRanked_example = rrf-IsRanked fixed-FloatLaws rankings 60 weights (omega arith) refl
