-- ===== src/Eval/Agreement/Sample.antt =====
-- The sample of `select_human_review_sample` of backend/src/app/eval/agreement.py.
use normeon_german_technical.Prelude.{
  All, All-take, ◌≡◌, refl, ap, ap₂, ◌∙◌, true, false, List, [], ◌∷◌, ◌++◌, take, nat_eq,
  if◌then◌else◌, arith, append-nil,
}
use normeon_german_technical.Eval.{
  Category, EvalQuestion, requirement_lookup, cross_reference, code_lookup, unanswerable, conflict,
}
use normeon_german_technical.Eval.Agreement.{
  categories, same_category, in_category, sample_loop, per_category, select_human_review_sample,
}

in_category-append :
    (category : Category) (xs ys : List EvalQuestion)
    → in_category category (xs ++ ys) ≡ in_category category xs ++ in_category category ys
in_category-append category [] ys = refl
in_category-append category (x ∷ xs) ys = ground (arith, in_category-append category xs ys)

same_category_lem : (a b : Category) → same_category a b ≡ true → a ≡ b
same_category_lem requirement_lookup requirement_lookup h = refl
same_category_lem cross_reference cross_reference h = refl
same_category_lem code_lookup code_lookup h = refl
same_category_lem unanswerable unanswerable h = refl
same_category_lem conflict conflict h = refl
same_category_lem requirement_lookup cross_reference h = cc
same_category_lem requirement_lookup code_lookup h = cc
same_category_lem requirement_lookup unanswerable h = cc
same_category_lem requirement_lookup conflict h = cc
same_category_lem cross_reference requirement_lookup h = cc
same_category_lem cross_reference code_lookup h = cc
same_category_lem cross_reference unanswerable h = cc
same_category_lem cross_reference conflict h = cc
same_category_lem code_lookup requirement_lookup h = cc
same_category_lem code_lookup cross_reference h = cc
same_category_lem code_lookup unanswerable h = cc
same_category_lem code_lookup conflict h = cc
same_category_lem unanswerable requirement_lookup h = cc
same_category_lem unanswerable cross_reference h = cc
same_category_lem unanswerable code_lookup h = cc
same_category_lem unanswerable conflict h = cc
same_category_lem conflict requirement_lookup h = cc
same_category_lem conflict cross_reference h = cc
same_category_lem conflict code_lookup h = cc
same_category_lem conflict unanswerable h = cc

in_category-All :
    (category : Category) (questions : List EvalQuestion)
    → All (λ q. q.category ≡ category) (in_category category questions)
in_category-All category [] = tt
in_category-All category (q ∷ questions) =
    (elim (same_category q.category category)
        as (λ b.
          let kept : List EvalQuestion =
            if b then q ∷ in_category category questions else in_category category questions in
          (same_category q.category category ≡ b) → All (λ r. r.category ≡ category) kept) [
            | true ↦
                λ h. (same_category_lem q.category category h, in_category-All category questions)
            | false ↦ λ h. in_category-All category questions
          ])
      refl

in_category_other :
    (a b : Category) (questions : List EvalQuestion)
    → All (λ q. q.category ≡ b) questions
    → in_category a questions ≡ (if same_category b a then questions else [])
in_category_other a b [] all = ground (arith)
in_category_other a b (q ∷ questions) (own, all) =
    let same : same_category q.category a ≡ same_category b a = ap (λ c. same_category c a) own in
    ground (arith, same, in_category_other a b questions all)

-- The questions of a category that the loop selects.
abbrev selected : Category → List Category → List EvalQuestion → List EvalQuestion
selected a [] questions = []
selected a (b ∷ rest) questions =
    (if same_category b a then take per_category (in_category b questions) else [])
    ++ selected a rest questions

in_category-sample_loop :
    (a : Category) (rest : List Category) (questions : List EvalQuestion)
    → in_category a (sample_loop rest questions) ≡ selected a rest questions
in_category-sample_loop a [] questions = refl
in_category-sample_loop a (b ∷ rest) questions =
    let part = take per_category (in_category b questions) in
    in_category-append a part (sample_loop rest questions)
    ∙ ap₂ (λ xs ys. xs ++ ys)
        (in_category_other a b part (
          All-take (λ q. q.category ≡ b) per_category (in_category b questions)
            (in_category-All b questions)))
        (in_category-sample_loop a rest questions)

-- `select_human_review_sample` takes from each category its first three questions, in order, or all
-- where there are fewer.
pub in_category-select_human_review_sample :
    (category : Category) (questions : List EvalQuestion)
    → in_category category (select_human_review_sample questions)
      ≡ take 3 (in_category category questions)
unfolding select_human_review_sample
in_category-select_human_review_sample requirement_lookup questions =
    in_category-sample_loop requirement_lookup categories questions ∙ append-nil _
in_category-select_human_review_sample cross_reference questions =
    in_category-sample_loop cross_reference categories questions ∙ append-nil _
in_category-select_human_review_sample code_lookup questions =
    in_category-sample_loop code_lookup categories questions ∙ append-nil _
in_category-select_human_review_sample unanswerable questions =
    in_category-sample_loop unanswerable categories questions ∙ append-nil _
in_category-select_human_review_sample conflict questions =
    in_category-sample_loop conflict categories questions ∙ append-nil _
