-- ===== src/Retrieval/Select/Sections.antt =====
-- The sections of the chunks that `_select_context` of
-- backend/src/app/services/retrieval/pipeline.py returns.
use normeon_german_technical.Prelude.{
  ℕ, ◌+◌, ◌≡◌, refl, Text, true, false, Option, none, some, List, [], ◌∷◌, leb, contains, nat_eq,
  list_eq, pair_eq, arith, Distinct,
}
use normeon_german_technical.Retrieval.{Uuid, RetrievedChunk}
use normeon_german_technical.Retrieval.Select.{
  section_key, is_seen, mark_seen, token_cost, select_context,
}
use normeon_german_technical.Retrieval.Select.Laws.{
  one_per_section, within_budget, best_then_within, select_context-two_passes,
}

abbrev pub cons_key : Option (Uuid × Text) → List (Uuid × Text) → List (Uuid × Text)
cons_key none keys = keys
cons_key (some key) keys = key ∷ keys

cons_key-Distinct :
    (key : Option (Uuid × Text)) (keys : List (Uuid × Text))
    → is_seen key keys ≡ false
    → Distinct keys
    → Distinct (cons_key key keys)
cons_key-Distinct none keys fresh u = u
cons_key-Distinct (some key) keys fresh u = (fresh, u)

cons_key-is_seen :
    (key : Option (Uuid × Text)) (keys : List (Uuid × Text))
    → Distinct (cons_key key keys)
    → (is_seen key keys ≡ false) × Distinct keys
cons_key-is_seen none keys u = (refl, u)
cons_key-is_seen (some key) keys (fresh, u) = (fresh, u)

is_seen-subset :
    (key : Option (Uuid × Text)) (keys more : List (Uuid × Text))
    → ((k : Uuid × Text) → contains keys k ≡ true → contains more k ≡ true)
    → is_seen key more ≡ false
    → is_seen key keys ≡ false
is_seen-subset none keys more sub h = refl
is_seen-subset (some key) keys more sub h = ground (arith, sub key)

module _ {F : Type 0} where
  -- The sections of a list of chunks, chunks without one left out.
  abbrev pub section_keys : List (RetrievedChunk F) → List (Uuid × Text)
  section_keys [] = []
  section_keys (chunk ∷ chunks) = cons_key (section_key chunk) (section_keys chunks)

  contains-one_per_section :
      (seen : List (Uuid × Text)) (chunks : List (RetrievedChunk F)) (key : Uuid × Text)
      → contains seen key ≡ true
      → contains (section_keys (one_per_section seen chunks)) key ≡ false
  contains-one_per_section seen [] key h = refl
  contains-one_per_section seen (chunk ∷ chunks) key h = ground (
    arith,
    contains-one_per_section seen chunks key,
    contains-one_per_section (mark_seen (section_key chunk) seen) chunks key,
  )

  one_per_section_fresh :
      (key : Option (Uuid × Text)) (seen : List (Uuid × Text)) (chunks : List (RetrievedChunk F))
      → is_seen key (section_keys (one_per_section (mark_seen key seen) chunks)) ≡ false
  one_per_section_fresh none seen chunks = refl
  one_per_section_fresh (some key) seen chunks =
      contains-one_per_section (key ∷ seen) chunks key (ground arith)

  one_per_section-Distinct :
      (seen : List (Uuid × Text)) (chunks : List (RetrievedChunk F))
      → Distinct (section_keys (one_per_section seen chunks))
  one_per_section-Distinct seen [] = tt
  one_per_section-Distinct seen (chunk ∷ chunks) =
      elim (is_seen (section_key chunk) seen)
        as (λ b. Distinct (
          section_keys (elim b [
            | true ↦ one_per_section seen chunks
            | false ↦ chunk ∷ one_per_section (mark_seen (section_key chunk) seen) chunks
          ]))) [
            | true ↦ one_per_section-Distinct seen chunks
            | false ↦
                cons_key-Distinct (section_key chunk) _
                  (one_per_section_fresh (section_key chunk) seen chunks)
                  (one_per_section-Distinct (mark_seen (section_key chunk) seen) chunks)
          ]

  within_budget-section_keys :
      (budget used : ℕ) (chunks : List (RetrievedChunk F)) (key : Uuid × Text)
      → contains (section_keys (within_budget budget used chunks)) key ≡ true
      → contains (section_keys chunks) key ≡ true
  within_budget-section_keys budget used [] key h = h
  within_budget-section_keys budget used (chunk ∷ chunks) key h =
      ground (arith, within_budget-section_keys budget (used + token_cost chunk) chunks key)

  within_budget-Distinct :
      (budget used : ℕ) (chunks : List (RetrievedChunk F))
      → Distinct (section_keys chunks)
      → Distinct (section_keys (within_budget budget used chunks))
  within_budget-Distinct budget used [] h = h
  within_budget-Distinct budget used (chunk ∷ chunks) h =
      let (fresh, u) = cons_key-is_seen (section_key chunk) (section_keys chunks) h in
      elim (leb (used + token_cost chunk) budget)
        as (λ b. Distinct (
          section_keys (elim b [
            | true ↦ chunk ∷ within_budget budget (used + token_cost chunk) chunks
            | false ↦ []
          ]))) [
            | true ↦
                cons_key-Distinct (section_key chunk) _
                  (is_seen-subset (section_key chunk) _ (section_keys chunks)
                    (within_budget-section_keys budget (used + token_cost chunk) chunks) fresh)
                  (within_budget-Distinct budget (used + token_cost chunk) chunks u)
            | false ↦ tt
          ]

  best_then_within-Distinct :
      (budget : ℕ) (chunks : List (RetrievedChunk F))
      → Distinct (section_keys chunks)
      → Distinct (section_keys (best_then_within budget chunks))
  best_then_within-Distinct budget [] u = tt
  best_then_within-Distinct budget (chunk ∷ chunks) h =
      let (fresh, u) = cons_key-is_seen (section_key chunk) (section_keys chunks) h in
      cons_key-Distinct (section_key chunk) _
        (is_seen-subset (section_key chunk) _ (section_keys chunks)
          (within_budget-section_keys budget (token_cost chunk) chunks) fresh)
        (within_budget-Distinct budget (token_cost chunk) chunks u)

  -- Whatever the candidates and the budget, no section of a document stands twice in the selection;
  -- chunks without a section path, or with an empty one, do not count.
  pub select_context-Distinct :
      (budget : ℕ) (chunks : List (RetrievedChunk F))
      → Distinct (section_keys (select_context chunks budget))
  select_context-Distinct budget chunks =
      rw select_context-two_passes
        (best_then_within-Distinct budget _ (one_per_section-Distinct [] chunks))
