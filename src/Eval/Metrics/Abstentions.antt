-- ===== src/Eval/Metrics/Abstentions.antt =====
-- The two abstention rates of backend/src/app/eval/metrics.py.
use normeon_german_technical.Prelude.{
  ℕ, ◌+◌, ◌≡◌, refl, ap₂, ◌∙◌, Text, Bool, true, false, Option, none, some, List, [], ◌∷◌, length,
  ◌==◌, nat_eq, list_eq, if◌then◌else◌, arith,
}
use normeon_german_technical.Prelude.Dict.{Dict, lookup, insert, lookup-insert}
use normeon_german_technical.Scalar.{FloatOps}
use normeon_german_technical.Eval.{EvalQuestion, QuestionRun}
use normeon_german_technical.Eval.Metrics.{
  rate, count_true, runs_by_id, abstentions, correct_abstention_rate, false_abstention_rate,
}

module _ {F : Type 0} where
  -- The last run of a question.
  abbrev pub last_run : Text → List (QuestionRun F) → Option (QuestionRun F)
  last_run id [] = none
  last_run id (run ∷ results) = elim (last_run id results) [
    | some later ↦ some later
    | none ↦ if id == run.question_id then some run else none
  ]

  -- The questions whose last run ended without an error, each with that run.
  abbrev pub completed :
      List (QuestionRun F) → List EvalQuestion → List (EvalQuestion × QuestionRun F)
  completed results [] = []
  completed results (question ∷ questions) =
      let rest = completed results questions in
      elim (last_run question.id results) [
        | none ↦ rest
        | some run ↦ elim run.error [ some e ↦ rest | none ↦ (question, run) ∷ rest ]
      ]

  -- The answerable questions, or those that are not, and how many of them were abstained from.
  abbrev pub count_answerable : List (EvalQuestion × QuestionRun F) → ℕ
  count_answerable [] = 0
  count_answerable ((question, run) ∷ pairs) =
      let rest = count_answerable pairs in if question.should_abstain then rest else rest + 1

  abbrev pub count_unanswerable : List (EvalQuestion × QuestionRun F) → ℕ
  count_unanswerable [] = 0
  count_unanswerable ((question, run) ∷ pairs) =
      let rest = count_unanswerable pairs in if question.should_abstain then rest + 1 else rest

  abbrev pub count_abstained_wrongly : List (EvalQuestion × QuestionRun F) → ℕ
  count_abstained_wrongly [] = 0
  count_abstained_wrongly ((question, run) ∷ pairs) =
      let rest = count_abstained_wrongly pairs in
      if question.should_abstain then rest else if run.abstained then rest + 1 else rest

  abbrev pub count_abstained_rightly : List (EvalQuestion × QuestionRun F) → ℕ
  count_abstained_rightly [] = 0
  count_abstained_rightly ((question, run) ∷ pairs) =
      let rest = count_abstained_rightly pairs in
      if question.should_abstain then (if run.abstained then rest + 1 else rest) else rest

  lookup-runs_by_id :
      (id : Text) (d : Dict Text (QuestionRun F)) (results : List (QuestionRun F))
      → lookup id (runs_by_id d results)
        ≡ elim (last_run id results) [ none ↦ lookup id d | some run ↦ some run ]
  unfolding runs_by_id
  lookup-runs_by_id id d [] = refl
  lookup-runs_by_id id d (run ∷ results) = ground (
    arith,
    lookup-runs_by_id id (insert run.question_id run d) results,
    lookup-insert id run.question_id run d,
  )

  right_lem :
      (results : List (QuestionRun F)) (questions : List EvalQuestion)
      → (let outcomes = abstentions true (runs_by_id [] results) questions in
          let pairs = completed results questions in
          (count_true outcomes ≡ count_abstained_rightly pairs)
          × (length outcomes ≡ count_unanswerable pairs))
  unfolding abstentions
  right_lem results [] = (refl, refl)
  right_lem results (question ∷ questions) =
      ground (arith, right_lem results questions, lookup-runs_by_id question.id [] results)

  wrong_lem :
      (results : List (QuestionRun F)) (questions : List EvalQuestion)
      → (let outcomes = abstentions false (runs_by_id [] results) questions in
          let pairs = completed results questions in
          (count_true outcomes ≡ count_abstained_wrongly pairs)
          × (length outcomes ≡ count_answerable pairs))
  unfolding abstentions
  wrong_lem results [] = (refl, refl)
  wrong_lem results (question ∷ questions) =
      ground (arith, wrong_lem results questions, lookup-runs_by_id question.id [] results)

  parts_lem :
      (pairs : List (EvalQuestion × QuestionRun F))
      → count_unanswerable pairs + count_answerable pairs ≡ length pairs
  parts_lem [] = omega (arith)
  parts_lem ((question, run) ∷ pairs) = ground (arith, parts_lem pairs)

  -- A ratio of a whole that is not 0.
  abbrev pub share : FloatOps F → ℕ → ℕ → Option F
  share fl part whole = if whole == 0 then none else some (fl.ratio part whole)

  rate-share :
      (fl : FloatOps F) (bs : List Bool) → rate fl bs ≡ share fl (count_true bs) (length bs)
  unfolding nat_eq
  rate-share fl [] = refl
  rate-share fl (b ∷ bs) = ground (arith)

  -- Of the questions whose last run ended without an error, `correct_abstention_rate` is the share of
  -- those that should be abstained from in which the run abstained, and `false_abstention_rate` the
  -- share of the others in which it did; each is `None` where there are no such questions, and the two
  -- wholes together are all of these questions.
  pub abstention_rates_lem :
      (fl : FloatOps F) (questions : List EvalQuestion) (results : List (QuestionRun F))
      → (let pairs = completed results questions in
          (correct_abstention_rate fl questions results
            ≡ share fl (count_abstained_rightly pairs) (count_unanswerable pairs))
          × (false_abstention_rate fl questions results
              ≡ share fl (count_abstained_wrongly pairs) (count_answerable pairs))
          × (count_unanswerable pairs + count_answerable pairs ≡ length pairs))
  unfolding correct_abstention_rate false_abstention_rate
  abstention_rates_lem fl questions results =
      let (right, asked) = right_lem results questions in
      let (wrong, others) = wrong_lem results questions in
      (
        rate-share fl (abstentions true (runs_by_id [] results) questions)
            ∙ ap₂ (share fl) right asked,
        rate-share fl (abstentions false (runs_by_id [] results) questions)
            ∙ ap₂ (share fl) wrong others,
        parts_lem (completed results questions),
      )
