-- ===== src/Eval/Metrics/Averages.antt =====
-- The averages of floats in backend/src/app/eval/metrics.py. Their sum, which `sum` compensates, is a
-- parameter.
use normeon_german_technical.Prelude.{
  ℕ, Option, none, some, List, [], ◌∷◌, length, nat_eq, list_eq, option_eq,
}
use normeon_german_technical.Scalar.{FloatOps}
use normeon_german_technical.Eval.{EvalQuestion, QuestionRun}
use normeon_german_technical.Eval.Metrics.{first_rank, count_matches, gold_bearing_runs, runs_by_id}

module _ {F : Type 0} (fl : FloatOps F) (sum : List F → F) where
  -- `sum(xs) / len(xs)`, or `None` on no value
  abbrev pub average : List F → Option F
  average [] = none
  average (x ∷ xs) = some (fl.div_int (sum (x ∷ xs)) (length (x ∷ xs)))

  -- `1.0 / rank if rank is not None else 0.0`
  abbrev pub reciprocal : Option ℕ → F
  reciprocal none = fl.zero
  reciprocal (some rank) = fl.ratio 1 rank

  abbrev pub reciprocal_ranks : List (EvalQuestion × QuestionRun F) → List F
  reciprocal_ranks [] = []
  reciprocal_ranks ((question, run) ∷ pairs) =
      reciprocal (first_rank question run.retrieved) ∷ reciprocal_ranks pairs

  unfoldable pub mean_reciprocal_rank : List EvalQuestion → List (QuestionRun F) → Option F
  unfolding gold_bearing_runs runs_by_id
  mean_reciprocal_rank questions results =
      average (reciprocal_ranks (gold_bearing_runs (runs_by_id [] results) questions))

  -- The precisions of the runs that retrieved something.
  abbrev pub precisions : List (EvalQuestion × QuestionRun F) → List F
  precisions [] = []
  precisions ((question, run) ∷ pairs) = elim run.retrieved [
    | [] ↦ precisions pairs
    | r ∷ rs ↦ fl.ratio (count_matches question (r ∷ rs)) (length (r ∷ rs)) ∷ precisions pairs
  ]

  unfoldable pub precision_at_k : List EvalQuestion → List (QuestionRun F) → Option F
  unfolding gold_bearing_runs runs_by_id
  precision_at_k questions results =
      average (precisions (gold_bearing_runs (runs_by_id [] results) questions))

  abbrev pub costs : List (QuestionRun F) → List F
  costs [] = []
  costs (r ∷ rs) = elim r.cost_usd [ none ↦ costs rs | some cost ↦ cost ∷ costs rs ]

  unfoldable pub cost_per_query_avg : List (QuestionRun F) → Option F
  cost_per_query_avg results = average (costs results)
