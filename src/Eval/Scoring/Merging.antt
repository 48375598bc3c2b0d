-- ===== src/Eval/Scoring/Merging.antt =====
-- The scored runs that `rescore_stale` of backend/src/app/eval/scoring.py merges.
use normeon_german_technical.Eval.{judge_result, Layer2, EvalQuestion, ScoredQuestionRun}
use normeon_german_technical.Prelude.{
  ℕ, ◌+◌, ◌≡◌, refl, ap, sym, ◌∙◌, Text, Bool, Bool-cases, Option-cases, true, false, ◌&&◌, ◌||◌,
  Option, none, some, List, [], ◌∷◌, ◌++◌, map, keep, contains, contains-append, Distinct, All,
  ◌==◌, ◌⊎◌, inl, inr, nat_eq, list_eq, if◌then◌else◌, arith,
}
use normeon_german_technical.Prelude.Dict.{Dict, lookup, insert, is_key, lookup-insert}
use normeon_german_technical.Chunking.{from_keys}
use normeon_german_technical.Eval.Metrics.{scored_by_id}
use normeon_german_technical.Eval.Scoring.{
  Characters, Judge, Run, score_layer1, score_layer2, score_runs, is_judge_error, is_stale,
  merged_runs,
}

-- A scored run of that question.
abbrev pub is_scored : List ScoredQuestionRun → Text → Bool
is_scored [] id = false
is_scored (s ∷ results) id = id == s.question_id || is_scored results id

-- What the dictionary of scored runs gives: the last of them, of which `P` holds, or what it gave.
Scored-cases :
    (P : ScoredQuestionRun → Type 0) (id : Text) (d : Dict Text ScoredQuestionRun)
    (results : List ScoredQuestionRun)
    → All P results
    → ((is_scored results id ≡ false) × (lookup id (scored_by_id d results) ≡ lookup id d))
      ⊎ ((s : ScoredQuestionRun) × (lookup id (scored_by_id d results) ≡ some s)
          × (s.question_id ≡ id)
          × P s)
unfolding scored_by_id
Scored-cases P id d [] all = inl (refl, refl)
Scored-cases P id d (s ∷ results) (p, all) =
    elim (Scored-cases P id (insert s.question_id s d) results all) [
      | inr found ↦ inr found
      | inl (missing, same) ↦ elim (Bool-cases (id == s.question_id)) [
        | inl e ↦
            inr
              (s, ground (arith, e, same, lookup-insert id s.question_id s d), ground (arith, e), p)
        | inr e ↦ inl (
          ground (arith, e, missing),
          ground (arith, e, same, lookup-insert id s.question_id s d),
        )
      ]
    ]

-- The answer of the first run of a question.
abbrev pub held_answer : List Run → Text → Option Text
held_answer [] id = none
held_answer (r ∷ runs) id = if id == r.question_id then some r.answer else held_answer runs id

-- A run of that question.
abbrev pub is_run : List Run → Text → Bool
is_run [] id = false
is_run (r ∷ runs) id = id == r.question_id || is_run runs id

pub is_run-keep :
    (ids : List Text) (runs : List Run) (id : Text)
    → is_run (keep (λ r. contains ids r.question_id) runs) id ≡ (is_run runs id && contains ids id)
is_run-keep ids [] id = refl
is_run-keep ids (r ∷ runs) id = ground (arith, is_run-keep ids runs id)

pub All-keep :
    (P : Run → Type 0) (p : Run → Bool) (runs : List Run) → All P runs → All P (keep p runs)
All-keep P p [] all = tt
All-keep P p (r ∷ runs) (own, all) =
    elim (p r)
      as (λ b. let kept : List Run = if b then r ∷ keep p runs else keep p runs in All P kept) [
        | true ↦ (own, All-keep P p runs all)
        | false ↦ All-keep P p runs all
      ]

pub contains-from_keys :
    (seen xs : List Text) (a : Text)
    → contains (from_keys seen xs) a ≡ (contains seen a || contains xs a)
unfolding from_keys
contains-from_keys seen [] a = ground (arith)
contains-from_keys seen (x ∷ xs) a = ground (
  arith,
  contains-from_keys (if contains seen x then seen else (seen ++ x ∷ [])) xs a,
  contains-append seen (x ∷ []) a,
)

answers_behind :
    (r : Run) (runs rest : List Run)
    → contains (map (λ q. q.question_id) rest) r.question_id ≡ false
    → All (λ q. held_answer runs q.question_id ≡ some q.answer) rest
    → All (λ q. held_answer (r ∷ runs) q.question_id ≡ some q.answer) rest
answers_behind r runs [] fresh all = tt
answers_behind r runs (q ∷ rest) fresh (own, all) =
    (ground (arith, fresh, own), answers_behind r runs rest (ground (arith, fresh)) all)

-- Each run is the one whose answer `held_answer` gives, where no question stands twice.
pub answers_own :
    (runs : List Run)
    → Distinct (map (λ r. r.question_id) runs)
    → All (λ r. held_answer runs r.question_id ≡ some r.answer) runs
answers_own [] u = tt
answers_own (r ∷ runs) (fresh, u) =
    (ground (arith), answers_behind r runs runs fresh (answers_own runs u))

-- The judge's calls all return a score.
abbrev pub IsSound : Judge → Type 0
IsSound judge =
    (n : ℕ) (question : EvalQuestion) (answer : Text)
    → (score : ℕ) × (rationale : Text) × (score_layer2 judge n question answer
        ≡ judge_result score rationale)

judge_error_none :
    (layer2 : Layer2)
    → (score : ℕ) × (rationale : Text) × (layer2 ≡ judge_result score rationale)
    → is_judge_error layer2 ≡ false
judge_error_none layer2 (score, rationale, e) = rw (e) refl

-- The score of an answer that the report holds.
abbrev pub IsCurrent : List Run → ScoredQuestionRun → Type 0
IsCurrent runs s =
    (held_answer runs s.question_id ≡ some s.answer) × (is_judge_error s.layer2 ≡ false)

module _ (chars : Characters) (judge : Judge) (by_id : Dict Text EvalQuestion) where
  pub score_runs-IsCurrent :
      (report : List Run) (n : ℕ) (runs : List Run)
      → IsSound judge
      → All (λ r. held_answer report r.question_id ≡ some r.answer) runs
      → All (IsCurrent report) (score_runs chars judge by_id n runs)
  unfolding score_runs
  score_runs-IsCurrent report n [] sound all = tt
  score_runs-IsCurrent report n (run ∷ runs) sound (own, all) =
      elim (lookup run.question_id by_id)
        as (λ x.
          let scored : List ScoredQuestionRun = elim x [
            | none ↦ score_runs chars judge by_id n runs
            | some question ↦
                record {
                  question_id = run.question_id;
                  answer = run.answer;
                  layer1 = score_layer1 chars question.expected_answer_points run.answer;
                  layer2 = score_layer2 judge n question run.answer;
                }
                ∷ score_runs chars judge by_id (n + 1) runs
          ] in
          All (IsCurrent report) scored) [
            | none ↦ score_runs-IsCurrent report n runs sound all
            | some question ↦ (
              (
                own,
                judge_error_none (score_layer2 judge n question run.answer)
                    (sound n question run.answer),
              ),
              score_runs-IsCurrent report (n + 1) runs sound all,
            )
          ]

  pub is_scored-score_runs :
      (n : ℕ) (runs : List Run) (id : Text)
      → is_scored (score_runs chars judge by_id n runs) id ≡ (is_run runs id && is_key id by_id)
  unfolding score_runs
  is_scored-score_runs n [] id = refl
  is_scored-score_runs n (run ∷ runs) id =
      ground (arith, is_scored-score_runs n runs id, is_scored-score_runs (n + 1) runs id)

-- The dictionary gives a scored run under its own question.
abbrev pub HasKeys : Dict Text ScoredQuestionRun → Type 0
HasKeys d = (id : Text) (s : ScoredQuestionRun) → lookup id d ≡ some s → s.question_id ≡ id

pub scored_by_id-HasKeys :
    (d : Dict Text ScoredQuestionRun) (results : List ScoredQuestionRun)
    → HasKeys d
    → HasKeys (scored_by_id d results)
unfolding scored_by_id
scored_by_id-HasKeys d [] keyed = keyed
scored_by_id-HasKeys d (s ∷ results) keyed =
    scored_by_id-HasKeys (insert s.question_id s d) results
      (λ id t h. ground (arith, h, lookup-insert id s.question_id s d, keyed id t))

merged_runs-All :
    (merged : Dict Text ScoredQuestionRun) (runs : List Run)
    → HasKeys merged
    → All (λ s. lookup s.question_id merged ≡ some s) (merged_runs merged runs)
unfolding merged_runs
merged_runs-All merged [] keyed = tt
merged_runs-All merged (run ∷ runs) keyed =
    (elim (lookup run.question_id merged)
        as (λ x.
          let results : List ScoredQuestionRun = elim x [
            | none ↦ merged_runs merged runs
            | some s ↦ s ∷ merged_runs merged runs
          ] in
          (lookup run.question_id merged ≡ x)
          → All (λ s. lookup s.question_id merged ≡ some s) results) [
            | none ↦ λ h. merged_runs-All merged runs keyed
            | some s ↦ λ h. (
              ap (λ id. lookup id merged) (keyed run.question_id s h) ∙ h,
              merged_runs-All merged runs keyed,
            )
          ])
      refl

is_scored-merged_runs :
    (merged : Dict Text ScoredQuestionRun) (runs : List Run) (id : Text)
    → HasKeys merged
    → is_scored (merged_runs merged runs) id ≡ (is_run runs id && is_key id merged)
unfolding merged_runs
is_scored-merged_runs merged [] id keyed = refl
is_scored-merged_runs merged (run ∷ runs) id keyed =
    elim (Option-cases (lookup run.question_id merged)) [
      | inl e ↦ ground (arith, e, is_scored-merged_runs merged runs id keyed)
      | inr (s, e) ↦
          ground (arith, e, keyed run.question_id s e, is_scored-merged_runs merged runs id keyed)
    ]

-- A run whose score is kept, or made anew, is not stale in the merged dictionary.
pub merged_lem :
    (report : List Run) (run : Run) (previous : Dict Text ScoredQuestionRun)
    (rescored : List ScoredQuestionRun)
    → held_answer report run.question_id ≡ some run.answer
    → All (IsCurrent report) rescored
    → ((is_stale previous run ≡ true) → is_scored rescored run.question_id ≡ true)
    → is_stale (scored_by_id previous rescored) run ≡ false
merged_lem report run previous rescored own all again =
    elim (Scored-cases (IsCurrent report) run.question_id previous rescored all) [
      | inl (missing, same) ↦ elim (Bool-cases (is_stale previous run)) [
        | inl e ↦ absurd (ground (arith, missing, again e))
        | inr e ↦ ground (arith, same, e)
      ]
      | inr (s, found, id, (own', sound)) ↦ ground (arith, found, id, own, own', sound)
    ]

-- Nor is it in the dictionary of the results.
pub results_lem :
    (run : Run) (merged : Dict Text ScoredQuestionRun) (runs : List Run)
    → HasKeys merged
    → is_run runs run.question_id ≡ true
    → is_stale merged run ≡ false
    → is_stale (scored_by_id [] (merged_runs merged runs)) run ≡ false
results_lem run merged runs keyed in_runs fresh =
    elim (Option-cases (lookup run.question_id merged)) [
      | inl e ↦ absurd (ground (arith, e, fresh))
      | inr (t, e) ↦
          elim (Scored-cases (λ s. lookup s.question_id merged ≡ some s) run.question_id []
            (merged_runs merged runs) (merged_runs-All merged runs keyed)) [
              | inl (missing, _) ↦ absurd (
                  ground (
                    arith,
                    missing,
                    in_runs,
                    e,
                    is_scored-merged_runs merged runs run.question_id keyed,
                  ))
              | inr (s, found, id, own) ↦
                  let same : lookup run.question_id merged ≡ some s =
                    ap (λ k. lookup k merged) (sym id) ∙ own in
                  ground (arith, found, same, fresh)
            ]
    ]

pub none_stale :
    (d : Dict Text ScoredQuestionRun) (runs : List Run)
    → All (λ r. is_stale d r ≡ false) runs
    → keep (is_stale d) runs ≡ []
none_stale d [] all = refl
none_stale d (r ∷ runs) (fresh, all) = ground (arith, fresh, none_stale d runs all)
