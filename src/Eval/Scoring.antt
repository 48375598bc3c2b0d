-- ===== src/Eval/Scoring.antt =====
-- backend/src/app/eval/scoring.py. `str.lower`, the class `\d`, the judge's template and the reading
-- of its JSON are parameters, and so is the judge: what its n-th call returns or raises.
pub mod Merging
pub mod Rescoring
use normeon_german_technical.Prelude.Words.{split, join}
use normeon_german_technical.Prelude.{
  ℕ, zero, suc, ◌+◌, ◌-◌, Text, txt, Bool, true, false, not, ◌&&◌, ◌||◌, Option, none, some, List,
  [], ◌∷◌, ◌++◌, map, keep, length, contains, ◌==◌, Result, ok, err, nat_eq, list_eq, if◌then◌else◌,
}
use normeon_german_technical.Prelude.Dict.{Dict, lookup}
use normeon_german_technical.Prelude.Digits.{show}
use normeon_german_technical.Prompts.{occurs}
use normeon_german_technical.Citations.{starts_with}
use normeon_german_technical.Chunking.{from_keys}
use normeon_german_technical.Eval.{
  GoldSource, EvalQuestion, Layer1Result, Layer2, judge_result, judge_error, ScoredQuestionRun,
}
use normeon_german_technical.Eval.Metrics.{questions_by_id, scored_by_id}

-- `str.lower` and the class `\d` of `re`.
pub record Characters : Type 0 where
  pub lower : Text → Text
  pub is_digit : ℕ → Bool

-- `(?=\d)` at the start of a text
abbrev pub before_digit : Characters → Text → Bool
before_digit chars [] = false
before_digit chars (c ∷ text) = chars.is_digit c

-- `re.sub(r"(?<=\d),(?=\d)", ".", text)`, behind a digit or not.
abbrev pub dot_commas : Characters → Bool → Text → Text
dot_commas chars behind_digit [] = []
dot_commas chars behind_digit (c ∷ text) =
    (if c == b',' && behind_digit && before_digit chars text then b'.' else c)
    ∷ dot_commas chars (chars.is_digit c) text

-- `_normalize`; runs of white space become one space, and none is left at the ends.
unfoldable pub normalize : Characters → Text → Text
unfolding split nat_eq
normalize chars text =
    join (txt " ")
      (split (dot_commas chars false (map (λ c. if c == 160 then b' ' else c) (chars.lower text))))

-- `score_layer1`
unfoldable pub score_layer1 : Characters → List Text → Text → Layer1Result
unfolding normalize occurs nat_eq list_eq
score_layer1 chars expected_answer_points answer =
    let found =
      keep (λ p. occurs (normalize chars p) (normalize chars answer)) expected_answer_points in
    record {
      points_found = found;
      points_missing = keep (λ p. not (contains found p)) expected_answer_points;
    }

-- `_format_points`
abbrev pub format_points : List Text → Text
format_points [] = txt "(keine)"
format_points (p ∷ points) = join (txt "\n") (map (λ q. txt "- " ++ q) (p ∷ points))

-- `filter(None, [source.section, f"S. {source.page}" if source.page else None])`
abbrev pub location_parts : Option Text → Option ℕ → List Text
location_parts section page =
    (elim section [ none ↦ [] | some [] ↦ [] | some (c ∷ s) ↦ (c ∷ s) ∷ [] ])
    ++ (elim page [ none ↦ [] | some zero ↦ [] | some (suc n) ↦ (txt "S. " ++ show (suc n)) ∷ [] ])

-- A line of `_format_gold_sources`
abbrev pub source_line : GoldSource → Text
source_line source = elim (join (txt ", ") (location_parts source.section source.page)) [
  | [] ↦ txt "- " ++ source.document
  | c ∷ location ↦ txt "- " ++ (source.document ++ (txt " (" ++ ((c ∷ location) ++ txt ")")))
]

abbrev pub format_gold_sources : List GoldSource → Text
format_gold_sources [] = txt "(keine)"
format_gold_sources (g ∷ golds) = join (txt "\n") (map source_line (g ∷ golds))

-- `text.replace(pattern, new)`, for a pattern of `suc n` characters: the first number is what is left
-- of a match.
abbrev pub replace_from : ℕ → ℕ → Text → Text → Text → Text
replace_from skip n pattern new [] = []
replace_from (suc skip) n pattern new (c ∷ text) = replace_from skip n pattern new text
replace_from zero n pattern new (c ∷ text) =
    let matched = replace_from n n pattern new text in
    let rest = replace_from zero n pattern new text in
    if starts_with pattern (c ∷ text) then new ++ matched else c ∷ rest

abbrev pub replace : Text → Text → Text → Text
replace pattern new text = replace_from 0 (length pattern - 1) pattern new text

-- `render_judge_prompt`
unfoldable pub render_judge_prompt : Text → EvalQuestion → Text → Text
unfolding show nat_eq
render_judge_prompt template question answer = replace (txt "{{ANSWER}}") answer (
    replace (txt "{{GOLD_SOURCES}}") (format_gold_sources question.gold_sources) (
      replace (txt "{{EXPECTED_POINTS}}") (format_points question.expected_answer_points) (
        replace (txt "{{SHOULD_ABSTAIN}}")
          (if question.should_abstain then txt "ja" else txt "nein")
          (replace (txt "{{QUESTION}}") question.question template))))

-- The answer of a run, and its question.
pub record Run : Type 0 where
  pub question_id : Text
  pub answer : Text

-- The judge: the template of its prompt, its n-th call of `llm.complete` with `_SYSTEM` or the
-- exception's text, and `JudgeResult.model_validate(json.loads(text))` or the exception's text.
pub record Judge : Type 0 where
  pub template : Text
  pub complete : ℕ → Text → Text → Result Text Text
  pub read_json : Text → Result Text (ℕ × Text)

abbrev pub system : Text
system =
    txt
      "Du bist ein strenger, praeziser Gutachter fuer Antworten eines technischen RAG-Systems. Halte dich strikt an die folgenden Anweisungen."

-- `_parse_judge_response`
abbrev pub parse_judge_response : Judge → Text → Layer2
parse_judge_response judge text = elim (judge.read_json text) [
  | ok (score, rationale) ↦ judge_result score rationale
  | err error ↦ judge_error text error
]

-- `score_layer2`, as the n-th call.
unfoldable pub score_layer2 : Judge → ℕ → EvalQuestion → Text → Layer2
unfolding render_judge_prompt
score_layer2 judge n question answer =
    elim (judge.complete n system (render_judge_prompt judge.template question answer)) [
      | ok text ↦ parse_judge_response judge text
      | err error ↦ judge_error [] error
    ]

-- The loop of `score_report`, from the n-th call; the pauses between calls are left out.
unfoldable pub score_runs :
    Characters → Judge → Dict Text EvalQuestion → ℕ → List Run → List ScoredQuestionRun
unfolding score_layer1 score_layer2 nat_eq list_eq
score_runs chars judge by_id n [] = []
score_runs chars judge by_id n (run ∷ runs) =
    let skipped = score_runs chars judge by_id n runs in
    let rest = score_runs chars judge by_id (n + 1) runs in
    elim (lookup run.question_id by_id) [
      | none ↦ skipped
      | some question ↦
          record {
            question_id = run.question_id;
            answer = run.answer;
            layer1 = score_layer1 chars question.expected_answer_points run.answer;
            layer2 = score_layer2 judge n question run.answer;
          }
          ∷ rest
    ]

-- `score_report`, as the results of the scored report.
unfoldable pub score_report :
    Characters → Judge → List Run → List EvalQuestion → List ScoredQuestionRun
unfolding score_runs questions_by_id
score_report chars judge runs questions =
    score_runs chars judge (questions_by_id [] questions) 0 runs

-- `isinstance(old.layer2, JudgeError)`
abbrev pub is_judge_error : Layer2 → Bool
is_judge_error (judge_result score rationale) = false
is_judge_error (judge_error raw error) = true

-- The condition of `stale_question_ids`.
abbrev pub is_stale : Dict Text ScoredQuestionRun → Run → Bool
is_stale previous run = elim (lookup run.question_id previous) [
  | none ↦ true
  | some old ↦ not (old.answer == run.answer) || is_judge_error old.layer2
]

-- `stale_question_ids`, a set as a list.
unfoldable pub stale_question_ids : List Run → List ScoredQuestionRun → List Text
unfolding scored_by_id from_keys nat_eq list_eq
stale_question_ids runs scored =
    from_keys [] (map (λ r. r.question_id) (keep (is_stale (scored_by_id [] scored)) runs))

-- `[merged[r.question_id] for r in report.results if r.question_id in merged]`
unfoldable pub merged_runs : Dict Text ScoredQuestionRun → List Run → List ScoredQuestionRun
unfolding nat_eq list_eq
merged_runs merged [] = []
merged_runs merged (run ∷ runs) = elim (lookup run.question_id merged) [
  | none ↦ merged_runs merged runs
  | some s ↦ s ∷ merged_runs merged runs
]

-- The merged results, for these stale questions.
unfoldable pub rescored_runs :
    Characters
    → Judge
    → List Run
    → List ScoredQuestionRun
    → List EvalQuestion
    → List Text
    → List ScoredQuestionRun
unfolding score_report merged_runs scored_by_id nat_eq list_eq
rescored_runs chars judge runs scored questions stale =
    let retry = keep (λ r. contains stale r.question_id) runs in
    let rescored = score_report chars judge retry questions in
    merged_runs (scored_by_id (scored_by_id [] scored) rescored) runs

-- `rescore_stale`, as the results and the number of stale questions.
unfoldable pub rescore_stale :
    Characters
    → Judge
    → List Run
    → List ScoredQuestionRun
    → List EvalQuestion
    → List ScoredQuestionRun × ℕ
unfolding stale_question_ids rescored_runs
rescore_stale chars judge runs scored questions = elim (stale_question_ids runs scored) [
  | [] ↦ (scored, 0)
  | id ∷ ids ↦ (rescored_runs chars judge runs scored questions (id ∷ ids), length (id ∷ ids))
]
