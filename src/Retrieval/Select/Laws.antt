-- ===== src/Retrieval/Select/Laws.antt =====
-- `_select_context` against a specification in two passes.
use normeon_german_technical.Prelude.{
  All, ℕ, ◌+◌, ◌≤◌, ◌<◌, ◌≡◌, refl, ap, Text, true, false, Option, none, some, List, [], ◌∷◌, ◌++◌,
  leb, nat_eq, list_eq, pair_eq, arith, append_assoc, append-nil, ◌⊎◌, inl, inr, Bool-cases,
}
use normeon_german_technical.Retrieval.{Uuid, RetrievedChunk}
use normeon_german_technical.Retrieval.Select.{
  section_key, is_seen, mark_seen, token_cost, is_nonempty, Selection, select_loop, select_context,
}
use native.Mathlib.Nat.{zero-add}

pub is_seen-nil : (key : Option (Uuid × Text)) → is_seen key [] ≡ false
is_seen-nil none = refl
is_seen-nil (some key) = refl

module _ {F : Type 0} where
  -- The first chunk of each section; a chunk without a section path stays.
  abbrev pub one_per_section :
      List (Uuid × Text) → List (RetrievedChunk F) → List (RetrievedChunk F)
  one_per_section seen [] = []
  one_per_section seen (chunk ∷ chunks) = elim (is_seen (section_key chunk) seen) [
    | true ↦ one_per_section seen chunks
    | false ↦ chunk ∷ one_per_section (mark_seen (section_key chunk) seen) chunks
  ]

  -- The longest prefix whose cost, on top of `used`, stays within the budget.
  abbrev pub within_budget : ℕ → ℕ → List (RetrievedChunk F) → List (RetrievedChunk F)
  within_budget budget used [] = []
  within_budget budget used (chunk ∷ chunks) = elim (leb (used + token_cost chunk) budget) [
    | true ↦ chunk ∷ within_budget budget (used + token_cost chunk) chunks
    | false ↦ []
  ]

  -- The best chunk whatever it costs, then what still fits.
  abbrev pub best_then_within : ℕ → List (RetrievedChunk F) → List (RetrievedChunk F)
  best_then_within budget [] = []
  best_then_within budget (chunk ∷ chunks) = chunk ∷ within_budget budget (token_cost chunk) chunks

  abbrev pub total_cost : List (RetrievedChunk F) → ℕ
  total_cost [] = 0
  total_cost (chunk ∷ chunks) = token_cost chunk + total_cost chunks

  nonempty-append :
      (xs : List (RetrievedChunk F)) (x : RetrievedChunk F) → is_nonempty (xs ++ x ∷ []) ≡ true
  nonempty-append [] x = refl
  nonempty-append (_ ∷ xs) x = refl

  select_loop-within :
      (budget : ℕ) (chunks : List (RetrievedChunk F)) (s : Selection F)
      → is_nonempty s.selected ≡ true
      → (select_loop budget chunks s).selected
        ≡ s.selected ++ within_budget budget s.used (one_per_section s.seen_sections chunks)
  unfolding select_loop
  select_loop-within budget [] s h = ground (arith, append-nil s.selected)
  select_loop-within budget (chunk ∷ chunks) s h = ground (
    arith,
    select_loop-within budget chunks s,
    select_loop-within budget chunks (record {
      selected = s.selected ++ chunk ∷ [];
      seen_sections = mark_seen (section_key chunk) s.seen_sections;
      used = s.used + token_cost chunk;
    }),
    nonempty-append s.selected chunk,
    append-nil s.selected,
    append_assoc s.selected (chunk ∷ []) (
        within_budget budget (s.used + token_cost chunk)
          (one_per_section (mark_seen (section_key chunk) s.seen_sections) chunks)),
  )

  -- The loop of `_select_context` returns what two passes return: keep the first chunk of each
  -- section, chunks without a section path all kept, then take the best chunk whatever it costs and
  -- after it the longest run that stays within the budget.
  pub select_context-two_passes :
      (budget : ℕ) (chunks : List (RetrievedChunk F))
      → select_context chunks budget ≡ best_then_within budget (one_per_section [] chunks)
  unfolding select_context
  select_context-two_passes budget [] = refl
  select_context-two_passes budget (chunk ∷ chunks) = ground (
    arith,
    is_seen-nil (section_key chunk),
    ap
        (λ used.
          within_budget budget used (one_per_section (mark_seen (section_key chunk) []) chunks))
        (zero-add (token_cost chunk)),
    select_loop-within budget chunks (record {
      selected = chunk ∷ [];
      seen_sections = mark_seen (section_key chunk) [];
      used = 0 + token_cost chunk;
    }),
  )

  within_budget-over :
      (budget used : ℕ) (chunks : List (RetrievedChunk F))
      → budget < used
      → within_budget budget used chunks ≡ []
  within_budget-over budget used [] h = refl
  within_budget-over budget used (chunk ∷ chunks) h = ground arith

  within_budget-total_cost :
      (budget used : ℕ) (chunks : List (RetrievedChunk F))
      → used ≤ budget
      → used + total_cost (within_budget budget used chunks) ≤ budget
  within_budget-total_cost budget used [] h = omega arith
  within_budget-total_cost budget used (chunk ∷ chunks) h =
      ground (arith, within_budget-total_cost budget (used + token_cost chunk) chunks)

  -- The selection is empty only for no candidates, else it begins with the first candidate, and it
  -- costs more than the budget only where it holds that one chunk alone.
  pub select_context_bounds :
      (budget : ℕ) (chunk : RetrievedChunk F) (chunks : List (RetrievedChunk F))
      → (rest : List (RetrievedChunk F)) × (select_context (chunk ∷ chunks) budget ≡ chunk ∷ rest)
        × ((rest ≡ []) ⊎ (total_cost (chunk ∷ rest) ≤ budget))
  select_context_bounds budget chunk chunks = (
    within_budget budget (token_cost chunk)
        (one_per_section (mark_seen (section_key chunk) []) chunks),
    ground
        (arith, select_context-two_passes budget (chunk ∷ chunks), is_seen-nil (section_key chunk)),
    elim (Bool-cases (leb (token_cost chunk) budget)) [
      | inl h ↦ inr (within_budget-total_cost budget (token_cost chunk) _ (ground arith))
      | inr h ↦ inl (within_budget-over budget (token_cost chunk) _ (ground arith))
    ],
  )

module _ {F : Type 0} (P : RetrievedChunk F → Type 0) where
  one_per_section-All :
      (seen : List (Uuid × Text)) (chunks : List (RetrievedChunk F))
      → All P chunks
      → All P (one_per_section seen chunks)
  one_per_section-All seen [] h = tt
  one_per_section-All seen (chunk ∷ chunks) (h, hs) =
      elim (is_seen (section_key chunk) seen)
        as (λ b. All P (elim b [
          | true ↦ one_per_section seen chunks
          | false ↦ chunk ∷ one_per_section (mark_seen (section_key chunk) seen) chunks
        ])) [
          | true ↦ one_per_section-All seen chunks hs
          | false ↦ (h, one_per_section-All (mark_seen (section_key chunk) seen) chunks hs)
        ]

  within_budget-All :
      (budget used : ℕ) (chunks : List (RetrievedChunk F))
      → All P chunks
      → All P (within_budget budget used chunks)
  within_budget-All budget used [] h = tt
  within_budget-All budget used (chunk ∷ chunks) (h, hs) =
      elim (leb (used + token_cost chunk) budget)
        as (λ b. All P (elim b [
          | true ↦ chunk ∷ within_budget budget (used + token_cost chunk) chunks
          | false ↦ []
        ])) [
          | true ↦ (h, within_budget-All budget (used + token_cost chunk) chunks hs)
          | false ↦ tt
        ]

  best_then_within-All :
      (budget : ℕ) (chunks : List (RetrievedChunk F))
      → All P chunks
      → All P (best_then_within budget chunks)
  best_then_within-All budget [] h = tt
  best_then_within-All budget (chunk ∷ chunks) (h, hs) =
      (h, within_budget-All budget (token_cost chunk) chunks hs)

  -- What holds of every candidate holds of every selected chunk.
  pub select_context-All :
      (budget : ℕ) (chunks : List (RetrievedChunk F))
      → All P chunks
      → All P (select_context chunks budget)
  select_context-All budget chunks h =
      rw select_context-two_passes (best_then_within-All budget _ (one_per_section-All [] chunks h))
