-- ===== src/Eval/Agreement.antt =====
-- The sample for human review and the agreement of two raters: backend/src/app/eval/agreement.py.
pub mod Sample
use normeon_german_technical.Prelude.{
  ℕ, ◌+◌, ◌-◌, ◌/◌, Bool, true, false, Option, none, some, List, [], ◌∷◌, ◌++◌, keep, take, length,
  ◌==◌, nat_eq, if◌then◌else◌,
}
use normeon_german_technical.Scalar.{FloatOps}
use normeon_german_technical.Eval.{
  Category, EvalQuestion, requirement_lookup, cross_reference, code_lookup, unanswerable, conflict,
}

-- `CATEGORIES`
abbrev pub categories : List Category
categories = requirement_lookup ∷ cross_reference ∷ code_lookup ∷ unanswerable ∷ conflict ∷ []

abbrev pub human_review_sample_size : ℕ
human_review_sample_size = 15

abbrev pub per_category : ℕ
per_category = human_review_sample_size / length categories

-- `q.category == category`
abbrev pub same_category : Category → Category → Bool
same_category requirement_lookup requirement_lookup = true
same_category cross_reference cross_reference = true
same_category code_lookup code_lookup = true
same_category unanswerable unanswerable = true
same_category conflict conflict = true
same_category _ _ = false

-- `[q for q in questions if q.category == category]`
abbrev pub in_category : Category → List EvalQuestion → List EvalQuestion
in_category category questions = keep (λ q. same_category q.category category) questions

-- The loop of `select_human_review_sample`.
abbrev pub sample_loop : List Category → List EvalQuestion → List EvalQuestion
sample_loop [] questions = []
sample_loop (category ∷ rest) questions =
    take per_category (in_category category questions) ++ sample_loop rest questions

unfoldable pub select_human_review_sample : List EvalQuestion → List EvalQuestion
select_human_review_sample questions = sample_loop categories questions

-- `sum(1 for x, y in zip(a, b) if x == y)`, of lists as long as one another.
abbrev pub matches : List ℕ → List ℕ → ℕ
matches [] b = 0
matches (x ∷ a) [] = 0
matches (x ∷ a) (y ∷ b) = let rest = matches a b in if x == y then rest + 1 else rest

-- `percent_agreement`; `none` is either of its `ValueError`s.
unfoldable pub percent_agreement {ℓ} : {F : Type ℓ} → (ℕ → ℕ → F) → List ℕ → List ℕ → Option F
unfolding nat_eq
percent_agreement ratio a b =
    if length a == length b
    then elim a [ [] ↦ none | x ∷ xs ↦ some (ratio (matches (x ∷ xs) b) (length (x ∷ xs))) ]
    else none
