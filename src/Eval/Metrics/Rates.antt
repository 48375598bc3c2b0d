-- ===== src/Eval/Metrics/Rates.antt =====
-- The rates of backend/src/app/eval/metrics.py.
use normeon_german_technical.Prelude.{
  suc, take, ◌==◌, ℕ, ◌+◌, ◌≤◌, ◌<◌, ◌≡◌, refl, ap, sym, Text, Bool, Bool-cases, true, false,
  Option, none, some, List, [], ◌∷◌, map, length, get_elem?, All, ◌⊎◌, inl, inr, nat_eq, list_eq,
  if◌then◌else◌, arith,
}
use normeon_german_technical.Prelude.Dict.{Dict, lookup}
use normeon_german_technical.Scalar.{FloatOps}
use normeon_german_technical.Eval.{EvalQuestion, GoldMatchable, QuestionRun, ScoredQuestionRun}
use normeon_german_technical.Eval.Metrics.{
  rate, count_true, count_citations, citation_loop, precision_of, citation_precision, recall_at_k,
  correct_abstention_rate, false_abstention_rate, answer_accuracy, runs_by_id, questions_by_id,
  gold_bearing_runs, hits_of, gold_hits, question_outcomes, abstentions, scored_by_id, is_correct,
  any_match, any_gold_match, first_rank,
}

-- Every question has a score.
abbrev pub AreScored : Dict Text ScoredQuestionRun → List EvalQuestion → Type 0
AreScored scored questions =
    All (λ question. (s : ScoredQuestionRun) × (lookup question.id scored ≡ some s)) questions

count_true-le : (bs : List Bool) → count_true bs ≤ length bs
count_true-le [] = omega arith
count_true-le (true ∷ bs) = omega (arith, count_true-le bs)
count_true-le (false ∷ bs) = omega (arith, count_true-le bs)

abbrev Part : ℕ × ℕ → Type 0
Part (part, whole) = part ≤ whole

count_citations_lem :
    (question : EvalQuestion) (cs : List GoldMatchable) (counts : ℕ × ℕ)
    → Part counts
    → Part (count_citations question cs counts)
count_citations_lem question [] counts h = h
count_citations_lem question (c ∷ cs) (matched, total) h =
    elim (any_gold_match question c)
      as (λ b.
        let next : ℕ × ℕ = if b then (matched + 1, total + 1) else (matched, total + 1) in
        Part (count_citations question cs next)) [
          | true ↦ count_citations_lem question cs (matched + 1, total + 1) (omega (arith, h))
          | false ↦ count_citations_lem question cs (matched, total + 1) (omega (arith, h))
        ]

module _ {F : Type 0} where
  gold_hits-question_outcomes :
      (runs : Dict Text (QuestionRun F)) (scored : Dict Text ScoredQuestionRun)
      (questions : List EvalQuestion)
      → AreScored scored questions
      → gold_hits (question_outcomes runs scored questions)
        ≡ hits_of (gold_bearing_runs runs questions)
  unfolding question_outcomes gold_bearing_runs
  gold_hits-question_outcomes runs scored [] all = refl
  gold_hits-question_outcomes runs scored (question ∷ questions) ((s, e), all) =
      ground (arith, e, gold_hits-question_outcomes runs scored questions all)

  -- Where every question was scored, `recall_at_k` is the rate of the `gold_hit`s of
  -- `question_outcomes` that are not `None`: the two ways in which the report counts the questions
  -- whose context holds a gold source agree.
  pub recall_at_k-question_outcomes :
      (fl : FloatOps F) (questions : List EvalQuestion) (results : List (QuestionRun F))
      (scored_results : List ScoredQuestionRun)
      → AreScored (scored_by_id [] scored_results) questions
      → recall_at_k fl questions results
        ≡ rate fl (
            gold_hits (
              question_outcomes (runs_by_id [] results) (scored_by_id [] scored_results) questions))
  unfolding recall_at_k
  recall_at_k-question_outcomes fl questions results scored_results all = ap (rate fl) (
      sym (
        gold_hits-question_outcomes (runs_by_id [] results) (scored_by_id [] scored_results)
          questions all))

  -- No value, or the ratio of a part and a whole that is not 0.
  abbrev pub IsRate : FloatOps F → Option F → Type 0
  IsRate fl value =
      (value ≡ none)
      ⊎ ((part : ℕ) × (whole : ℕ) × (part ≤ whole)
          × (0 < whole)
          × (value ≡ some (fl.ratio part whole)))

  rate-IsRate : (fl : FloatOps F) (bs : List Bool) → IsRate fl (rate fl bs)
  rate-IsRate fl [] = inl refl
  rate-IsRate fl (b ∷ bs) =
      inr (count_true (b ∷ bs), length (b ∷ bs), count_true-le (b ∷ bs), omega (arith), refl)

  citation_loop_lem :
      (by_id : Dict Text EvalQuestion) (results : List (QuestionRun F)) (counts : ℕ × ℕ)
      → Part counts
      → Part (citation_loop by_id results counts)
  unfolding citation_loop
  citation_loop_lem by_id [] counts h = h
  citation_loop_lem by_id (run ∷ results) counts h =
      elim run.error
        as (λ x.
          let next : ℕ × ℕ = elim x [
            | some e ↦ counts
            | none ↦ elim (lookup run.question_id by_id) [
              | none ↦ counts
              | some question ↦ count_citations question run.citations counts
            ]
          ] in
          Part (citation_loop by_id results next)) [
            | some e ↦ citation_loop_lem by_id results counts h
            | none ↦
                elim (lookup run.question_id by_id)
                  as (λ y.
                    let next : ℕ × ℕ = elim y [
                      | none ↦ counts
                      | some question ↦ count_citations question run.citations counts
                    ] in
                    Part (citation_loop by_id results next)) [
                      | none ↦ citation_loop_lem by_id results counts h
                      | some question ↦
                          citation_loop_lem by_id results
                            (count_citations question run.citations counts)
                            (count_citations_lem question run.citations counts h)
                    ]
          ]

  precision_of-IsRate :
      (fl : FloatOps F) (counts : ℕ × ℕ) → Part counts → IsRate fl (precision_of fl counts)
  precision_of-IsRate fl (matched, total) h = elim (Bool-cases (total == 0)) [
    | inl e ↦ rw (e) (inl refl)
    | inr e ↦ rw (e) (inr (matched, total, h, ground (arith, e), refl))
  ]

  -- `recall_at_k`, `citation_precision`, the two abstention rates and `answer_accuracy` never divide
  -- by 0: each gives no value (`ValueError` for the last), or the ratio of a part to a whole, with
  -- the part no greater than the whole and the whole above 0.
  pub metrics-AreRates :
      (fl : FloatOps F) (questions : List EvalQuestion) (results : List (QuestionRun F))
      (scored_results : List ScoredQuestionRun)
      → IsRate fl (recall_at_k fl questions results)
        × IsRate fl (citation_precision fl questions results)
        × IsRate fl (correct_abstention_rate fl questions results)
        × IsRate fl (false_abstention_rate fl questions results)
        × IsRate fl (answer_accuracy fl scored_results)
  unfolding recall_at_k citation_precision correct_abstention_rate false_abstention_rate
      answer_accuracy
  metrics-AreRates fl questions results scored_results =
      let runs = runs_by_id [] results in
      (
        rate-IsRate fl (hits_of (gold_bearing_runs runs questions)),
        precision_of-IsRate fl (citation_loop (questions_by_id [] questions) results (0, 0))
            (citation_loop_lem (questions_by_id [] questions) results (0, 0) (omega (arith))),
        rate-IsRate fl (abstentions true runs questions),
        rate-IsRate fl (abstentions false runs questions),
        rate-IsRate fl (map is_correct scored_results),
      )

-- What `first_rank` returns, against the passages in order.
abbrev pub IsFirstRank : EvalQuestion → List GoldMatchable → Option ℕ → Type 0
IsFirstRank question rs none = any_match question rs ≡ false
IsFirstRank question rs (some rank) =
    (any_match question rs ≡ true)
    × ((i : ℕ) × (r : GoldMatchable) × (rank ≡ i + 1)
        × (any_match question (take i rs) ≡ false)
        × (get_elem? rs i ≡ some r)
        × (any_gold_match question r ≡ true))

later_rank :
    (question : EvalQuestion) (r : GoldMatchable) (rs : List GoldMatchable) (rank : Option ℕ)
    → any_gold_match question r ≡ false
    → IsFirstRank question rs rank
    → (let next : Option ℕ = elim rank [ none ↦ none | some i ↦ some (i + 1) ] in
        IsFirstRank question (r ∷ rs) next)
later_rank question r rs none e h = ground (arith, e, h)
later_rank question r rs (some rank) e (hit, (i, found, same, before, at, match)) = (
  ground (arith, e, hit),
  (suc i, found, omega (arith, same), ground (arith, e, before), at, match),
)

-- The rank in `mean_reciprocal_rank` is `None` where no passage matches a gold source, so exactly
-- where `recall_at_k` counts a miss; else the passage of that rank, counted from 1, matches, and none
-- before it does.
pub first_rank-IsFirstRank :
    (question : EvalQuestion) (rs : List GoldMatchable)
    → IsFirstRank question rs (first_rank question rs)
first_rank-IsFirstRank question [] = refl
first_rank-IsFirstRank question (r ∷ rs) =
    (elim (any_gold_match question r)
        as (λ b.
          let rank : Option ℕ =
            if b
            then some 1
            else elim (first_rank question rs) [ none ↦ none | some i ↦ some (i + 1) ] in
          (any_gold_match question r ≡ b) → IsFirstRank question (r ∷ rs) rank) [
            | true ↦ λ e. (ground (arith, e), (0, r, omega (arith), refl, refl, e))
            | false ↦ λ e.
                later_rank question r rs (first_rank question rs) e
                  (first_rank-IsFirstRank question rs)
          ])
      refl
