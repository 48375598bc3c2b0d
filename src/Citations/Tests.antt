-- ===== src/Citations/Tests.antt =====
-- The theorems on the markers of an answer, at an answer with a valid and an invented marker.
use normeon_german_technical.Prelude.{
  Text, txt, not, ◌&&◌, [], ◌∷◌, ◌≡◌, ◌≢◌, refl, none, some, All, Distinct, contains, ◌⊎◌, nat_eq,
  list_eq,
}
use normeon_german_technical.Prelude.Dict.{Dict, is_key}
use normeon_german_technical.Markers.{find_markers}
use normeon_german_technical.Context.{Source, source_of}
use normeon_german_technical.Citations.{
  Validated, abstention_text, citation_of, extract_and_validate,
}
use normeon_german_technical.Citations.Laws.{
  IsBacked, cited, extract_and_validate_lem, extract_and_validate_grounded,
}
use normeon_german_technical.Fixtures.{chunk}

abbrev source : Source
source = source_of 1 (chunk 101 none (txt "Ja"))

abbrev sources : Dict Text Source
sources = (txt "S1", source) ∷ []

abbrev answer : Text
answer = txt "Ja [S1], nein [S9], doch [S1]."

abbrev validated : Validated
validated = record {
  answer = txt "Ja [S1], nein, doch [S1].";
  citations = citation_of (txt "S1") source ∷ [];
  invented = txt "S9" ∷ [];
}

extract_and_validate_run : extract_and_validate answer sources ≡ some validated
unfolding extract_and_validate
extract_and_validate_run = refl

-- Removing one invented marker can put another one together, which stays in the answer.
extract_and_validate_nested :
    extract_and_validate (txt "A [S1] [S[S9]8]") sources
    ≡ some (record {
      answer = txt "A [S1] [S8]";
      citations = citation_of (txt "S1") source ∷ [];
      invented = txt "S9" ∷ [];
    })
unfolding extract_and_validate
extract_and_validate_nested = refl

extract_and_validate_lem_example :
    (v : Validated) × (extract_and_validate answer sources ≡ some v)
    × All (IsBacked sources) v.citations
    × Distinct (cited v.citations)
    × ((m : Text)
        → contains (cited v.citations) m ≡ (contains (find_markers answer) m && is_key m sources))
    × Distinct v.invented
    × ((m : Text)
        → contains v.invented m ≡ (contains (find_markers answer) m && not (is_key m sources)))
extract_and_validate_lem_example = extract_and_validate_lem answer sources

extract_and_validate_grounded_example :
    (validated.answer ≡ abstention_text) ⊎ (validated.citations ≢ [])
extract_and_validate_grounded_example =
    extract_and_validate_grounded answer sources validated extract_and_validate_run
