-- ===== src/Eval.antt =====
-- The records of the evaluation harness: backend/src/app/eval/models.py and the scores of
-- backend/src/app/eval/scoring.py, with the fields that the metrics read.
pub mod Agreement
pub mod Metrics
pub mod Scoring
mod Tests
use normeon_german_technical.Prelude.{
  ℕ, Text, Bool, true, false, Option, List, [], ◌==◌, nat_eq, list_eq,
}

pub record GoldSource : Type 0 where
  pub document : Text
  pub section : Option Text
  pub page : Option ℕ

pub data Category : Type 0 where
  requirement_lookup cross_reference code_lookup unanswerable conflict : Category

pub record EvalQuestion : Type 0 where
  pub id : Text
  pub category : Category
  pub question : Text
  pub expected_answer_points : List Text
  pub gold_sources : List GoldSource
  pub should_abstain : Bool

-- The fields that `CitationRecord` and `RetrievedRecord` share.
pub record GoldMatchable : Type 0 where
  pub filename : Text
  pub page_from : ℕ
  pub page_to : ℕ
  pub section_path : Option Text

pub record QuestionRun (F : Type 0) : Type 0 where
  pub question_id : Text
  pub abstained : Bool
  pub citations : List GoldMatchable
  pub invented_citations : ℕ
  pub retrieved : List GoldMatchable
  pub retrieval_ms : F
  pub generation_ms : F
  pub total_ms : F
  pub cost_usd : Option F
  pub error : Option Text

pub record Layer1Result : Type 0 where
  pub points_found : List Text
  pub points_missing : List Text

-- `Layer1Result.all_present`
abbrev pub all_present : Layer1Result → Bool
all_present layer1 = layer1.points_missing == []

-- `JudgeResult | JudgeError`
pub data Layer2 : Type 0 where
  judge_result : ℕ → Text → Layer2
  judge_error : Text → Text → Layer2

pub record ScoredQuestionRun : Type 0 where
  pub question_id : Text
  pub answer : Text
  pub layer1 : Layer1Result
  pub layer2 : Layer2
