-- ===== src/Citations/Laws.antt =====
-- What `extract_and_validate` of backend/src/app/domain/citations.py returns.
use normeon_german_technical.Prelude.{
  Text, Bool, true, false, not, ◌&&◌, ◌||◌, some, List, [], ◌∷◌, ◌++◌, keep, contains,
  contains-keep, contains-append, keep-Distinct, append-Distinct, ◌≡◌, ◌≢◌, refl, sym, ap, ◌∙◌,
  nat_eq, list_eq, if◌then◌else◌, arith, Distinct, All, ◌⊎◌, inl, inr, subst,
}
use normeon_german_technical.Prelude.Words.{strip}
use normeon_german_technical.Prelude.Dict.{Dict, lookup, is_key}
use normeon_german_technical.Markers.{find_markers}
use normeon_german_technical.Context.{Source}
use normeon_german_technical.Citations.{
  Citation, Validated, abstention_text, distinct_markers, strip_markers, citation_of, cite,
  valid_markers, invented_markers, or_abstain, extract_and_validate,
}
use mathlib.Core.Option.{some-injective}

distinct_markers-Distinct :
    (seen markers : List Text) → Distinct seen → Distinct (distinct_markers seen markers)
unfolding distinct_markers
distinct_markers-Distinct seen [] u = u
distinct_markers-Distinct seen (m ∷ markers) u =
    distinct_markers-Distinct (if contains seen m then seen else (seen ++ m ∷ [])) markers
      (ground (arith, append-Distinct seen m u))

contains-distinct_markers :
    (seen markers : List Text) (m : Text)
    → contains (distinct_markers seen markers) m ≡ (contains seen m || contains markers m)
unfolding distinct_markers
contains-distinct_markers seen [] m = ground arith
contains-distinct_markers seen (x ∷ markers) m = ground (
  arith,
  contains-distinct_markers (if contains seen x then seen else (seen ++ x ∷ [])) markers m,
  contains-append seen (x ∷ []) m,
)

-- The markers of a list of citations.
abbrev pub cited : List Citation → List Text
cited [] = []
cited (citation ∷ citations) = citation.marker ∷ cited citations

-- A citation that repeats the source which its marker names.
abbrev pub IsBacked : Dict Text Source → Citation → Type 0
IsBacked sources citation =
    (source : Source) × (lookup citation.marker sources ≡ some source)
    × (citation ≡ citation_of citation.marker source)

cite_total :
    (sources : Dict Text Source) (markers : List Text)
    → All (λ m. is_key m sources ≡ true) markers
    → (citations : List Citation) × (cite sources markers ≡ some citations)
      × (cited citations ≡ markers)
      × All (IsBacked sources) citations
unfolding cite
cite_total sources [] h = ([], refl, refl, tt)
cite_total sources (m ∷ markers) (h, hs) =
    let (citations, e, same, backed) = cite_total sources markers hs in
    let (source, found) = key_found sources m h in
    (
      citation_of m source ∷ citations,
      ground arith,
      ap (◌∷◌ m) same,
      ((source, found, refl), backed),
    )
  where
    key_found :
        (sources : Dict Text Source) (m : Text)
        → is_key m sources ≡ true
        → (source : Source) × (lookup m sources ≡ some source)
    key_found sources m h = ground arith

keep-All {ℓ} : {A : Type ℓ} (p : A → Bool) (xs : List A) → All (λ x. p x ≡ true) (keep p xs)
keep-All p [] = tt
keep-All p (x ∷ xs) =
    (elim (p x) as (λ b. p x ≡ b → All (λ y. p y ≡ true) (if b then x ∷ keep p xs else keep p xs)) [
      | true ↦ λ h. (h, keep-All p xs)
      | false ↦ λ h. keep-All p xs
    ])
      refl

or_abstain_lem :
    (cleaned : Text) (citations : List Citation) (invented : List Text)
    → ((or_abstain cleaned citations invented).citations ≡ citations)
      × ((or_abstain cleaned citations invented).invented ≡ invented)
or_abstain_lem cleaned [] invented = ground arith
or_abstain_lem cleaned (c ∷ citations) invented = ground arith

or_abstain_grounded :
    (cleaned : Text) (citations : List Citation) (invented : List Text)
    → ((or_abstain cleaned citations invented).answer ≡ abstention_text)
      ⊎ ((or_abstain cleaned citations invented).citations ≢ [])
or_abstain_grounded cleaned [] invented = elim (list_eq.dec cleaned abstention_text) [
  | yes p ↦ inl (ground arith)
  | no p ↦ inl (ground arith)
]
or_abstain_grounded cleaned (c ∷ citations) invented = inr (ground arith)

module _ (answer : Text) (sources : Dict Text Source) where
  valid_total :
      (citations : List Citation) × (cite sources (valid_markers answer sources) ≡ some citations)
      × (cited citations ≡ valid_markers answer sources)
      × All (IsBacked sources) citations
  valid_total = cite_total sources _ (keep-All (λ m. is_key m sources) _)

  found_markers :
      (m : Text)
      → contains (distinct_markers [] (find_markers answer)) m ≡ contains (find_markers answer) m
  found_markers m = contains-distinct_markers [] (find_markers answer) m

  kept_markers :
      (m : Text)
      → contains (valid_markers answer sources) m
        ≡ (contains (find_markers answer) m && is_key m sources)
  kept_markers m = ground (
    arith,
    contains-keep (λ x. is_key x sources) (distinct_markers [] (find_markers answer)) m,
    found_markers m,
  )

  dropped_markers :
      (m : Text)
      → contains (invented_markers answer sources) m
        ≡ (contains (find_markers answer) m && not (is_key m sources))
  dropped_markers m = ground (
    arith,
    contains-keep (λ x. not (is_key x sources)) (distinct_markers [] (find_markers answer)) m,
    found_markers m,
  )

  run_of_cite :
      (citations : List Citation)
      → cite sources (valid_markers answer sources) ≡ some citations
      → extract_and_validate answer sources
        ≡ some (
            or_abstain
              (strip (strip_markers answer (invented_markers answer sources)))
              citations
              (invented_markers answer sources))
  unfolding extract_and_validate
  run_of_cite citations h = ground (arith, h)

  -- `extract_and_validate` always returns, with no `KeyError`. It cites exactly the markers of the
  -- answer that are keys of the sources, each once and each with the fields of the source that it
  -- names, and reports as invented exactly the markers of the answer that are no keys, each once.
  pub extract_and_validate_lem :
      (v : Validated) × (extract_and_validate answer sources ≡ some v)
      × All (IsBacked sources) v.citations
      × Distinct (cited v.citations)
      × ((m : Text)
          → contains (cited v.citations) m ≡ (contains (find_markers answer) m && is_key m sources))
      × Distinct v.invented
      × ((m : Text)
          → contains v.invented m ≡ (contains (find_markers answer) m && not (is_key m sources)))
  unfolding extract_and_validate
  extract_and_validate_lem =
      let (citations, e, same, backed) = valid_total in
      let cleaned = strip (strip_markers answer (invented_markers answer sources)) in
      let (kept, reported) = or_abstain_lem cleaned citations (invented_markers answer sources) in
      let distinct = distinct_markers-Distinct [] (find_markers answer) tt in
      (
        or_abstain cleaned citations (invented_markers answer sources),
        run_of_cite citations e,
        rw kept backed,
        rw (kept, same) (keep-Distinct _ _ distinct),
        λ m. rw (kept, same) (kept_markers m),
        rw reported (keep-Distinct _ _ distinct),
        λ m. rw reported (dropped_markers m),
      )

  -- An answer that `extract_and_validate` returns cites a source, or is NICHT_GEFUNDEN.
  pub extract_and_validate_grounded :
      (v : Validated)
      → extract_and_validate answer sources ≡ some v
      → (v.answer ≡ abstention_text) ⊎ (v.citations ≢ [])
  unfolding extract_and_validate
  extract_and_validate_grounded v h =
      let (citations, e, _, _) = valid_total in
      let cleaned = strip (strip_markers answer (invented_markers answer sources)) in
      let run : extract_and_validate answer sources
          ≡ some (or_abstain cleaned citations (invented_markers answer sources)) =
        run_of_cite citations e in
      let same : or_abstain cleaned citations (invented_markers answer sources) ≡ v =
        some-injective _ _ (sym run ∙ h) in
      subst (λ (w : Validated). (w.answer ≡ abstention_text) ⊎ (w.citations ≢ [])) same
        (or_abstain_grounded cleaned citations (invented_markers answer sources))
