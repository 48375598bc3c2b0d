-- ===== src/Eval/Metrics.antt =====
-- backend/src/app/eval/metrics.py. A sum of Booleans is a count.
pub mod Abstentions
pub mod Averages
pub mod Rates
use normeon_german_technical.Prelude.{
  ℕ, ◌+◌, ◌-◌, ◌*◌, Text, Bool, true, false, not, ◌&&◌, ◌||◌, Option, none, some, List, [], ◌∷◌,
  ◌++◌, map, keep, length, ◌==◌, leb, nat_eq, list_eq, option_eq, if◌then◌else◌,
}
use normeon_german_technical.Prelude.Dict.{Dict, lookup, insert}
use normeon_german_technical.Scalar.{FloatOps}
use normeon_german_technical.Prompts.{occurs}
use normeon_german_technical.Eval.{
  GoldSource, Category, EvalQuestion, GoldMatchable, QuestionRun, ScoredQuestionRun, Layer2,
  judge_result, judge_error, all_present,
}

-- `gold.section in section_path or section_path in gold.section`
abbrev pub section_hit : Option Text → Option Text → Bool
section_hit none path = false
section_hit (some section) none = false
section_hit (some section) (some path) = occurs section path || occurs path section

-- `page_from - 1 <= gold.page <= page_to + 1`
abbrev pub page_hit : Option ℕ → ℕ → ℕ → Bool
page_hit none page_from page_to = false
page_hit (some page) page_from page_to = leb page_from (page + 1) && leb page (page_to + 1)

-- What a gold source says of a passage.
abbrev pub source_hit : GoldSource → GoldMatchable → Bool
source_hit gold record_ =
    gold.document == record_.filename
    && ((gold.section == none && gold.page == none)
        || section_hit gold.section record_.section_path
        || page_hit gold.page record_.page_from record_.page_to)

-- `_matches_gold`
abbrev pub matches_gold : List GoldSource → GoldMatchable → Bool
matches_gold [] record_ = false
matches_gold (gold ∷ golds) record_ = source_hit gold record_ || matches_gold golds record_

-- `_any_gold_match`
unfoldable pub any_gold_match : EvalQuestion → GoldMatchable → Bool
unfolding occurs nat_eq list_eq option_eq
any_gold_match question record_ = matches_gold question.gold_sources record_

-- `any(…)` and `sum(…)` over the passages of a run
abbrev pub any_match : EvalQuestion → List GoldMatchable → Bool
any_match question [] = false
any_match question (r ∷ rs) = any_gold_match question r || any_match question rs

abbrev pub count_matches : EvalQuestion → List GoldMatchable → ℕ
count_matches question [] = 0
count_matches question (r ∷ rs) =
    let rest = count_matches question rs in if any_gold_match question r then rest + 1 else rest

-- The rank of the first match, from 1.
abbrev pub first_rank : EvalQuestion → List GoldMatchable → Option ℕ
first_rank question [] = none
first_rank question (r ∷ rs) =
    let rest = first_rank question rs in
    if any_gold_match question r then some 1 else elim rest [ none ↦ none | some i ↦ some (i + 1) ]

-- `sum` of Booleans
abbrev pub count_true : List Bool → ℕ
count_true [] = 0
count_true (true ∷ bs) = count_true bs + 1
count_true (false ∷ bs) = count_true bs

abbrev pub is_none {ℓ} : {A : Type ℓ} → Option A → Bool
is_none none = true
is_none (some a) = false

module _ {F : Type 0} where
  -- `{r.question_id: r for r in results}`
  unfoldable pub runs_by_id :
      Dict Text (QuestionRun F) → List (QuestionRun F) → Dict Text (QuestionRun F)
  unfolding nat_eq list_eq
  runs_by_id runs [] = runs
  runs_by_id runs (run ∷ results) = runs_by_id (insert run.question_id run runs) results

  -- The run of a question, if it completed.
  abbrev pub completed_run : Dict Text (QuestionRun F) → Text → Option (QuestionRun F)
  completed_run runs id = elim (lookup id runs) [
    | none ↦ none
    | some run ↦ if is_none run.error then some run else none
  ]

  -- `_gold_bearing_runs`, from the runs by question.
  unfoldable pub gold_bearing_runs :
      Dict Text (QuestionRun F) → List EvalQuestion → List (EvalQuestion × QuestionRun F)
  unfolding nat_eq list_eq
  gold_bearing_runs runs [] = []
  gold_bearing_runs runs (question ∷ questions) =
      let rest = gold_bearing_runs runs questions in
      elim question.gold_sources [
        | [] ↦ rest
        | gold ∷ golds ↦ elim (completed_run runs question.id) [
          | none ↦ rest
          | some run ↦ (question, run) ∷ rest
        ]
      ]

  -- `[any(…) for q, run in pairs]`
  abbrev pub hits_of : List (EvalQuestion × QuestionRun F) → List Bool
  hits_of [] = []
  hits_of ((question, run) ∷ pairs) = any_match question run.retrieved ∷ hits_of pairs

  -- The outcomes of the questions that should abstain, or should not, with a completed run.
  unfoldable pub abstentions : Bool → Dict Text (QuestionRun F) → List EvalQuestion → List Bool
  unfolding nat_eq list_eq
  abstentions should_abstain runs [] = []
  abstentions should_abstain runs (question ∷ questions) =
      let rest = abstentions should_abstain runs questions in
      elim (completed_run runs question.id) [
        | none ↦ rest
        | some run ↦ elim question.should_abstain [
          | true ↦ if should_abstain then run.abstained ∷ rest else rest
          | false ↦ if should_abstain then rest else run.abstained ∷ rest
        ]
      ]

  -- The results without an error.
  abbrev pub answered_runs : List (QuestionRun F) → List (QuestionRun F)
  answered_runs results = keep (λ r. is_none r.error) results

  abbrev pub sum_invented : List (QuestionRun F) → ℕ
  sum_invented [] = 0
  sum_invented (r ∷ rs) = r.invented_citations + sum_invented rs

-- `_is_correct`
abbrev pub is_correct : ScoredQuestionRun → Bool
is_correct scored = all_present scored.layer1 || elim scored.layer2 [
  | judge_result score rationale ↦ score == 2
  | judge_error raw error ↦ false
]

-- `{s.question_id: s for s in scored.results}`
unfoldable pub scored_by_id :
    Dict Text ScoredQuestionRun → List ScoredQuestionRun → Dict Text ScoredQuestionRun
unfolding nat_eq list_eq
scored_by_id scored [] = scored
scored_by_id scored (s ∷ results) = scored_by_id (insert s.question_id s scored) results

pub record QuestionOutcome : Type 0 where
  pub question_id : Text
  pub category : Category
  pub answer_correct : Bool
  pub gold_hit : Option Bool

module _ {F : Type 0} where
  -- `gold_hit` of a question
  abbrev pub gold_hit_of : Dict Text (QuestionRun F) → EvalQuestion → Option Bool
  gold_hit_of runs question = elim question.gold_sources [
    | [] ↦ none
    | gold ∷ golds ↦ elim (completed_run runs question.id) [
      | none ↦ none
      | some run ↦ some (any_match question run.retrieved)
    ]
  ]

  -- `question_outcomes`, from the runs and the scores by question.
  unfoldable pub question_outcomes :
      Dict Text (QuestionRun F)
      → Dict Text ScoredQuestionRun
      → List EvalQuestion
      → List QuestionOutcome
  unfolding nat_eq list_eq
  question_outcomes runs scored [] = []
  question_outcomes runs scored (question ∷ questions) =
      let rest = question_outcomes runs scored questions in
      elim (lookup question.id scored) [
        | none ↦ rest
        | some scored_run ↦
            record {
              question_id = question.id;
              category = question.category;
              answer_correct = is_correct scored_run;
              gold_hit = gold_hit_of runs question;
            }
            ∷ rest
      ]

-- `[float(o.gold_hit) for o in outcomes if o.gold_hit is not None]`, as Booleans
abbrev pub gold_hits : List QuestionOutcome → List Bool
gold_hits [] = []
gold_hits (o ∷ os) = elim o.gold_hit [ none ↦ gold_hits os | some hit ↦ hit ∷ gold_hits os ]

-- `total += 1` and `matched += 1`, as `(matched, total)`
abbrev pub count_citations : EvalQuestion → List GoldMatchable → ℕ × ℕ → ℕ × ℕ
count_citations question [] counts = counts
count_citations question (c ∷ cs) (matched, total) =
    count_citations question cs
      (if any_gold_match question c then (matched + 1, total + 1) else (matched, total + 1))

-- `{q.id: q for q in questions}`
unfoldable pub questions_by_id : Dict Text EvalQuestion → List EvalQuestion → Dict Text EvalQuestion
unfolding nat_eq list_eq
questions_by_id by_id [] = by_id
questions_by_id by_id (q ∷ questions) = questions_by_id (insert q.id q by_id) questions

module _ {F : Type 0} where
  -- The loop of `citation_precision`.
  unfoldable pub citation_loop : Dict Text EvalQuestion → List (QuestionRun F) → ℕ × ℕ → ℕ × ℕ
  unfolding nat_eq list_eq
  citation_loop by_id [] counts = counts
  citation_loop by_id (run ∷ results) counts = citation_loop by_id results (elim run.error [
    | some e ↦ counts
    | none ↦ elim (lookup run.question_id by_id) [
      | none ↦ counts
      | some question ↦ count_citations question run.citations counts
    ]
  ])

module _ {F : Type 0} (fl : FloatOps F) where
  -- `sum(hits) / len(hits)`, or `None` on no value
  abbrev pub rate : List Bool → Option F
  rate [] = none
  rate (b ∷ bs) = some (fl.ratio (count_true (b ∷ bs)) (length (b ∷ bs)))

  unfoldable pub recall_at_k : List EvalQuestion → List (QuestionRun F) → Option F
  unfolding gold_bearing_runs runs_by_id
  recall_at_k questions results =
      rate (hits_of (gold_bearing_runs (runs_by_id [] results) questions))

  unfoldable pub correct_abstention_rate : List EvalQuestion → List (QuestionRun F) → Option F
  unfolding abstentions runs_by_id
  correct_abstention_rate questions results =
      rate (abstentions true (runs_by_id [] results) questions)

  unfoldable pub false_abstention_rate : List EvalQuestion → List (QuestionRun F) → Option F
  unfolding abstentions runs_by_id
  false_abstention_rate questions results =
      rate (abstentions false (runs_by_id [] results) questions)

  -- `answer_accuracy`; `none` is its `ValueError`.
  unfoldable pub answer_accuracy : List ScoredQuestionRun → Option F
  unfolding nat_eq list_eq
  answer_accuracy scored_results = rate (map is_correct scored_results)

  -- `matched / total`, or `None` on no citation
  abbrev pub precision_of : ℕ × ℕ → Option F
  precision_of (matched, total) = if total == 0 then none else some (fl.ratio matched total)

  unfoldable pub citation_precision : List EvalQuestion → List (QuestionRun F) → Option F
  unfolding citation_loop questions_by_id nat_eq
  citation_precision questions results =
      precision_of (citation_loop (questions_by_id [] questions) results (0, 0))

  unfoldable pub hallucinated_citation_rate : List (QuestionRun F) → Option F
  hallucinated_citation_rate results =
      let answered = answered_runs results in
      elim answered [
        | [] ↦ none
        | r ∷ rs ↦ some (fl.ratio (sum_invented (r ∷ rs)) (length (r ∷ rs)))
      ]
