-- ===== src/Retrieval/Select/Tests.antt =====
-- The selection of the context at concrete chunks.
use normeon_german_technical.Prelude.{
  txt, List, [], ◌∷◌, ◌≡◌, ◌≤◌, refl, none, some, Distinct, ◌⊎◌, nat_eq, list_eq, pair_eq,
}
use normeon_german_technical.Scalar.Fixed.{Fixed}
use normeon_german_technical.Retrieval.{RetrievedChunk}
use normeon_german_technical.Retrieval.Select.{select_context}
use normeon_german_technical.Retrieval.Select.Laws.{
  one_per_section, best_then_within, total_cost, select_context-two_passes, select_context_bounds,
}
use normeon_german_technical.Retrieval.Select.Sections.{section_keys, select_context-Distinct}
use normeon_german_technical.Fixtures.{chunk}

abbrev first : RetrievedChunk Fixed
first = chunk 101 (some (txt "2")) (txt "eins zwei")

abbrev others : List (RetrievedChunk Fixed)
others =
    chunk 102 (some (txt "2")) (txt "drei")
    ∷ chunk 103 none (txt "vier")
    ∷ chunk 104 none (txt "a b c")
    ∷ chunk 105 none (txt "x")
    ∷ []

select_context_run : select_context (first ∷ others) 4 ≡ first ∷ chunk 103 none (txt "vier") ∷ []
unfolding select_context
select_context_run = refl

select_context-two_passes_example :
    select_context (first ∷ others) 4 ≡ best_then_within 4 (one_per_section [] (first ∷ others))
select_context-two_passes_example = select_context-two_passes 4 (first ∷ others)

select_context_bounds_example :
    (rest : List (RetrievedChunk Fixed)) × (select_context (first ∷ others) 4 ≡ first ∷ rest)
    × ((rest ≡ []) ⊎ (total_cost (first ∷ rest) ≤ 4))
select_context_bounds_example = select_context_bounds 4 first others

select_context-Distinct_example : Distinct (section_keys (select_context (first ∷ others) 4))
select_context-Distinct_example = select_context-Distinct 4 (first ∷ others)
