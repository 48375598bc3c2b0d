-- ===== src/Eval/Tests.antt =====
-- The theorems about the evaluation on one question.
use normeon_german_technical.Eval.Scoring.Rescoring.{HaveScores, rescore_stale-HaveScores, AreKnown}
use normeon_german_technical.Eval.Metrics.Abstentions.{
  abstention_rates_lem, share, completed, count_answerable, count_unanswerable,
  count_abstained_rightly, count_abstained_wrongly,
}
use normeon_german_technical.Eval.{
  List, EvalQuestion, GoldMatchable, QuestionRun, ScoredQuestionRun, code_lookup, judge_result,
}
use normeon_german_technical.Eval.Agreement.{in_category, select_human_review_sample}
use normeon_german_technical.Eval.Agreement.Sample.{in_category-select_human_review_sample}
use normeon_german_technical.Prelude.{
  take, ok, ◌+◌, ◌≡◌, refl, txt, false, none, some, [], ◌∷◌, length,
}
use normeon_german_technical.Eval.Scoring.{Characters, Judge, Run, score_layer2, rescore_stale}
use normeon_german_technical.Eval.Scoring.Merging.{IsSound}
use normeon_german_technical.Scalar.Fixed.{Fixed, pos, fixed}
use normeon_german_technical.Eval.Metrics.{
  questions_by_id, rate, recall_at_k, citation_precision, correct_abstention_rate,
  false_abstention_rate, answer_accuracy, runs_by_id, scored_by_id, question_outcomes, gold_hits,
  first_rank,
}
use normeon_german_technical.Eval.Metrics.Rates.{
  recall_at_k-question_outcomes, metrics-AreRates, IsRate, AreScored, first_rank-IsFirstRank,
  IsFirstRank,
}

abbrev passage : GoldMatchable
passage = record {
  filename = txt "norm.pdf";
  page_from = 3;
  page_to = 4;
  section_path = some (txt "4.1");
}

abbrev question : EvalQuestion
question = record {
  id = txt "Q001";
  category = code_lookup;
  question = txt "Was fordert REQ-7?";
  expected_answer_points = txt "10 mm" ∷ [];
  gold_sources = record { document = txt "norm.pdf"; section = none; page = some 5 } ∷ [];
  should_abstain = false;
}

abbrev run : QuestionRun Fixed
run = record {
  question_id = txt "Q001";
  abstained = false;
  citations = passage ∷ [];
  invented_citations = 1;
  retrieved = passage ∷ [];
  retrieval_ms = pos 4;
  generation_ms = pos 5;
  total_ms = pos 9;
  cost_usd = none;
  error = none;
}

abbrev scored : ScoredQuestionRun
scored = record {
  question_id = txt "Q001";
  answer = txt "10 mm [S1]";
  layer1 = record { points_found = txt "10 mm" ∷ []; points_missing = [] };
  layer2 = judge_result 2 (txt "richtig");
}

scored-AreScored : AreScored (scored_by_id [] (scored ∷ [])) (question ∷ [])
unfolding scored_by_id
scored-AreScored = ((scored, refl), tt)

recall_at_k-question_outcomes_example :
    recall_at_k fixed (question ∷ []) (run ∷ [])
    ≡ rate fixed (
        gold_hits (
          question_outcomes
            (runs_by_id [] (run ∷ []))
            (scored_by_id [] (scored ∷ []))
            (question ∷ [])))
recall_at_k-question_outcomes_example =
    recall_at_k-question_outcomes fixed (question ∷ []) (run ∷ []) (scored ∷ []) scored-AreScored

metrics-AreRates_example :
    IsRate fixed (recall_at_k fixed (question ∷ []) (run ∷ []))
    × IsRate fixed (citation_precision fixed (question ∷ []) (run ∷ []))
    × IsRate fixed (correct_abstention_rate fixed (question ∷ []) (run ∷ []))
    × IsRate fixed (false_abstention_rate fixed (question ∷ []) (run ∷ []))
    × IsRate fixed (answer_accuracy fixed (scored ∷ []))
metrics-AreRates_example = metrics-AreRates fixed (question ∷ []) (run ∷ []) (scored ∷ [])

abstention_rates_lem_example :
    (correct_abstention_rate fixed (question ∷ []) (run ∷ [])
      ≡ share fixed
          (count_abstained_rightly (completed (run ∷ []) (question ∷ [])))
          (count_unanswerable (completed (run ∷ []) (question ∷ []))))
    × (false_abstention_rate fixed (question ∷ []) (run ∷ [])
        ≡ share fixed
            (count_abstained_wrongly (completed (run ∷ []) (question ∷ [])))
            (count_answerable (completed (run ∷ []) (question ∷ []))))
    × (count_unanswerable (completed (run ∷ []) (question ∷ []))
          + count_answerable (completed (run ∷ []) (question ∷ []))
        ≡ length (completed (run ∷ []) (question ∷ [])))
abstention_rates_lem_example = abstention_rates_lem fixed (question ∷ []) (run ∷ [])

first_rank-IsFirstRank_example :
    IsFirstRank question (passage ∷ []) (first_rank question (passage ∷ []))
first_rank-IsFirstRank_example = first_rank-IsFirstRank question (passage ∷ [])

abbrev chars : Characters
chars = record { lower = λ t. t; is_digit = λ c. false }

abbrev judge : Judge
judge = record {
  template = txt "{{ANSWER}}";
  complete = λ n system user. ok user;
  read_json = λ text. ok (1, txt "teilweise");
}

judge-IsSound : IsSound judge
unfolding score_layer2
judge-IsSound n q answer = (1, txt "teilweise", refl)

-- A run whose answer is not the one that was scored.
abbrev new_run : Run
new_run = record { question_id = txt "Q001"; answer = txt "12 mm [S1]" }

question-AreKnown : AreKnown (question ∷ []) (new_run ∷ [])
unfolding questions_by_id
question-AreKnown = (refl, tt)

rescore_stale-HaveScores_example :
    HaveScores
      (rescore_stale chars judge (new_run ∷ []) (scored ∷ []) (question ∷ [])).0
      (new_run ∷ [])
rescore_stale-HaveScores_example =
    rescore_stale-HaveScores chars judge (new_run ∷ []) (scored ∷ []) (question ∷ []) (refl, tt)
      question-AreKnown judge-IsSound

abbrev five : List EvalQuestion
five = question ∷ question ∷ question ∷ question ∷ question ∷ []

in_category-select_human_review_sample_example :
    in_category code_lookup (select_human_review_sample five)
    ≡ take 3 (in_category code_lookup five)
in_category-select_human_review_sample_example =
    in_category-select_human_review_sample code_lookup five
