-- ===== src/Eval/Scoring/Rescoring.antt =====
-- What `rescore_stale` of backend/src/app/eval/scoring.py brings up to date.
use normeon_german_technical.Eval.{
  judge_result, judge_error, Layer2, EvalQuestion, ScoredQuestionRun,
}
use normeon_german_technical.Eval.Scoring.{
  is_judge_error, Characters, Judge, Run, score_report, is_stale, stale_question_ids, rescored_runs,
  rescore_stale,
}
use normeon_german_technical.Prelude.{
  Option, none, Option-cases, Bool-cases, inl, inr, false, if◌then◌else◌, ◌==◌, ℕ, ◌≡◌, refl, ap,
  sym, ◌∙◌, Text, true, some, List, [], ◌∷◌, map, keep, length, contains, Distinct, All, nat_eq,
  list_eq, arith,
}
use normeon_german_technical.Prelude.Dict.{lookup, Dict, insert, lookup-insert, is_key}
use normeon_german_technical.Chunking.{from_keys}
use normeon_german_technical.Eval.Metrics.{questions_by_id, scored_by_id}
use normeon_german_technical.Eval.Scoring.Merging.{
  held_answer, is_run, is_run-keep, All-keep, contains-from_keys, answers_own, IsSound, IsCurrent,
  score_runs-IsCurrent, is_scored-score_runs, HasKeys, scored_by_id-HasKeys, merged_lem,
  results_lem,
}

-- The question of each run is known.
abbrev pub AreKnown : List EvalQuestion → List Run → Type 0
AreKnown questions = All (λ r. is_key r.question_id (questions_by_id [] questions) ≡ true)

module _ (chars : Characters) (judge : Judge) (runs : List Run) (scored : List ScoredQuestionRun)
    (questions : List EvalQuestion) (stale : List Text) where
  rescored_runs_lem :
      (rest : List Run)
      → All
          (IsCurrent runs)
          (score_report chars judge (keep (λ r. contains stale r.question_id) runs) questions)
      → ((id : Text)
          → contains (map (λ r. r.question_id) (keep (is_stale (scored_by_id [] scored)) rest)) id
            ≡ true
          → contains stale id ≡ true)
      → ((id : Text) → is_run rest id ≡ true → is_run runs id ≡ true)
      → All (λ r. held_answer runs r.question_id ≡ some r.answer) rest
      → AreKnown questions rest
      → All
          (λ r.
            is_stale (scored_by_id [] (rescored_runs chars judge runs scored questions stale)) r
            ≡ false)
          rest
  unfolding rescored_runs score_report
  rescored_runs_lem [] current again inside own known = tt
  rescored_runs_lem (r ∷ rest) current again inside (mine, own) (known, others) =
      let previous = scored_by_id [] scored in
      let retry = keep (λ q. contains stale q.question_id) runs in
      let rescored = score_report chars judge retry questions in
      let keyed : HasKeys (scored_by_id previous rescored) =
        scored_by_id-HasKeys previous rescored
          (scored_by_id-HasKeys [] scored (λ id s h. ground (arith, h))) in
      let here : is_run runs r.question_id ≡ true = inside r.question_id (ground (arith)) in
      let fresh = merged_lem runs r previous rescored mine current (λ e. ground (
        arith,
        here,
        known,
        again r.question_id (ground (arith, e)),
        is_run-keep stale runs r.question_id,
        is_scored-score_runs chars judge (questions_by_id [] questions) 0 retry r.question_id,
      )) in
      (
        results_lem r (scored_by_id previous rescored) runs keyed here fresh,
        rescored_runs_lem rest current (λ id h. again id (ground (arith, h)))
            (λ id h. inside id (ground (arith, h))) own others,
      )

-- The last score of a question.
abbrev pub last_score : Text → List ScoredQuestionRun → Option ScoredQuestionRun
last_score id [] = none
last_score id (s ∷ results) = elim (last_score id results) [
  | some later ↦ some later
  | none ↦ if id == s.question_id then some s else none
]

-- The last score of a run's question is for the run's answer, and the judge gave it.
abbrev pub HasScore : List ScoredQuestionRun → Run → Type 0
HasScore results run =
    (s : ScoredQuestionRun) × (score : ℕ) × (rationale : Text) × (last_score run.question_id results
      ≡ some s)
    × (s.answer ≡ run.answer)
    × (s.layer2 ≡ judge_result score rationale)

-- Every run has its score.
abbrev pub HaveScores : List ScoredQuestionRun → List Run → Type 0
HaveScores results = All (HasScore results)

lookup-scored_by_id :
    (id : Text) (d : Dict Text ScoredQuestionRun) (results : List ScoredQuestionRun)
    → lookup id (scored_by_id d results)
      ≡ elim (last_score id results) [ none ↦ lookup id d | some s ↦ some s ]
unfolding scored_by_id
lookup-scored_by_id id d [] = refl
lookup-scored_by_id id d (s ∷ results) = ground (
  arith,
  lookup-scored_by_id id (insert s.question_id s d) results,
  lookup-insert id s.question_id s d,
)

judged :
    (layer2 : Layer2)
    → is_judge_error layer2 ≡ false
    → (score : ℕ) × (rationale : Text) × (layer2 ≡ judge_result score rationale)
judged (judge_result score rationale) h = (score, rationale, refl)
judged (judge_error raw error) h = absurd (cc)

-- A run that is not stale has its score.
is_stale-HasScore :
    (results : List ScoredQuestionRun) (run : Run)
    → is_stale (scored_by_id [] results) run ≡ false
    → HasScore results run
is_stale-HasScore results run fresh =
    let same = lookup-scored_by_id run.question_id [] results in
    elim (Option-cases (last_score run.question_id results)) [
      | inl e ↦ absurd (ground (arith, e, same, fresh))
      | inr (s, e) ↦
          let (score, rationale, j) = judged s.layer2 (ground (arith, e, same, fresh)) in
          (s, score, rationale, e, ground (arith, e, same, fresh), j)
    ]

fresh-HaveScores :
    (results : List ScoredQuestionRun) (runs : List Run)
    → All (λ r. is_stale (scored_by_id [] results) r ≡ false) runs
    → HaveScores results runs
fresh-HaveScores results [] all = tt
fresh-HaveScores results (run ∷ runs) (fresh, all) =
    (is_stale-HasScore results run fresh, fresh-HaveScores results runs all)

-- Where no question is listed as stale, no run is.
none_listed :
    (d : Dict Text ScoredQuestionRun) (runs : List Run)
    → ((id : Text) → contains (map (λ r. r.question_id) (keep (is_stale d) runs)) id ≡ false)
    → All (λ r. is_stale d r ≡ false) runs
none_listed d [] h = tt
none_listed d (run ∷ runs) h = elim (Bool-cases (is_stale d run)) [
  | inl e ↦ absurd (ground (arith, e, h run.question_id))
  | inr e ↦ (e, none_listed d runs (λ id. ground (arith, e, h id)))
]

rescored_runs-HaveScores :
    (chars : Characters) (judge : Judge) (runs : List Run) (scored : List ScoredQuestionRun)
    (questions : List EvalQuestion) (stale : List Text)
    → stale_question_ids runs scored ≡ stale
    → Distinct (map (λ r. r.question_id) runs)
    → AreKnown questions runs
    → IsSound judge
    → HaveScores (rescored_runs chars judge runs scored questions stale) runs
unfolding stale_question_ids from_keys score_report
rescored_runs-HaveScores chars judge runs scored questions stale h u known sound =
    let own = answers_own runs u in
    let retry = keep (λ r. contains stale r.question_id) runs in
    let listed = map (λ r. r.question_id) (keep (is_stale (scored_by_id [] scored)) runs) in
    let current =
      score_runs-IsCurrent chars judge (questions_by_id [] questions) runs 0 retry sound (
        All-keep (λ r. held_answer runs r.question_id ≡ some r.answer)
          (λ r. contains stale r.question_id) runs own) in
    fresh-HaveScores (rescored_runs chars judge runs scored questions stale) runs (
      rescored_runs_lem chars judge runs scored questions stale runs current
        (λ id e. ap (λ ids. contains ids id) (sym h) ∙ (contains-from_keys [] listed id ∙ e))
        (λ id e. e) own known)

kept-HaveScores :
    (runs : List Run) (scored : List ScoredQuestionRun)
    → stale_question_ids runs scored ≡ []
    → HaveScores scored runs
unfolding stale_question_ids
kept-HaveScores runs scored h =
    let listed = map (λ r. r.question_id) (keep (is_stale (scored_by_id [] scored)) runs) in
    fresh-HaveScores scored runs (
      none_listed (scored_by_id [] scored) runs
        (λ id. sym (contains-from_keys [] listed id) ∙ ap (λ ids. contains ids id) h))

-- Where no question stands twice in the report, each of its questions is in the question set, and
-- each call of the judge gives a score, after `rescore_stale` the last score of each run's question
-- is for the answer that the report holds, and it is a `JudgeResult`, not a `JudgeError`: whether
-- that score was kept or made anew.
pub rescore_stale-HaveScores :
    (chars : Characters) (judge : Judge) (runs : List Run) (scored : List ScoredQuestionRun)
    (questions : List EvalQuestion)
    → Distinct (map (λ r. r.question_id) runs)
    → AreKnown questions runs
    → IsSound judge
    → HaveScores (rescore_stale chars judge runs scored questions).0 runs
unfolding rescore_stale
rescore_stale-HaveScores chars judge runs scored questions u known sound =
    (elim (stale_question_ids runs scored)
        as (λ stale.
          let result : List ScoredQuestionRun × ℕ = elim stale [
            | [] ↦ (scored, 0)
            | id ∷ ids ↦
                (rescored_runs chars judge runs scored questions (id ∷ ids), length (id ∷ ids))
          ] in
          (stale_question_ids runs scored ≡ stale) → HaveScores result.0 runs) [
            | [] ↦ λ h. kept-HaveScores runs scored h
            | id ∷ ids ↦ λ h.
                rescored_runs-HaveScores chars judge runs scored questions (id ∷ ids) h u known
                  sound
          ])
      refl
