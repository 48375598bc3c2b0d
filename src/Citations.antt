-- ===== src/Citations.antt =====
-- Checking the markers that the model wrote: backend/src/app/domain/citations.py.
pub mod Laws
mod Tests
use normeon_german_technical.Prelude.{
  ℕ, zero, suc, ◌+◌, ◌-◌, Text, txt, Bool, true, false, not, ◌&&◌, Option, none, some, List, [],
  ◌∷◌, ◌++◌, length, take, keep, leb, contains, ◌==◌, nat_eq, list_eq, if◌then◌else◌,
}
use normeon_german_technical.Prelude.Words.{strip, rstrip}
use normeon_german_technical.Prelude.Dict.{Dict, lookup, is_key}
use normeon_german_technical.Markers.{find_markers}
use normeon_german_technical.Retrieval.{Uuid}
use normeon_german_technical.Context.{Source}

abbrev pub abstention_text : Text
abstention_text = txt "NICHT_GEFUNDEN"

abbrev pub snippet_max_chars : ℕ
snippet_max_chars = 240

pub record Citation : Type 0 where
  pub marker : Text
  pub chunk_id : Uuid
  pub document_id : Uuid
  pub filename : Text
  pub page_from : ℕ
  pub page_to : ℕ
  pub section_path : Option Text
  pub snippet : Text

-- `_snippet`
unfoldable pub snippet_of : Text → Text
unfolding strip rstrip
snippet_of content =
    let text = strip content in
    if leb (length text) snippet_max_chars
    then text
    else rstrip (take snippet_max_chars text) ++ txt "…"

abbrev pub starts_with : Text → Text → Bool
starts_with [] text = true
starts_with (p ∷ pattern) [] = false
starts_with (p ∷ pattern) (c ∷ text) = p == c && starts_with pattern text

-- The length of a match of ` ?\[marker\]` at the start.
abbrev pub strip_length : Text → Text → Option ℕ
strip_length bracketed text =
    if starts_with (b' ' ∷ bracketed) text
    then some (length bracketed + 1)
    else if starts_with bracketed text
    then some (length bracketed)
    else none

-- `re.sub(…, "", text)`, with the number of characters that the last match still covers.
unfoldable pub remove_from : Text → ℕ → Text → Text
unfolding nat_eq
remove_from bracketed skip [] = []
remove_from bracketed zero (c ∷ text) = elim (strip_length bracketed (c ∷ text)) [
  | none ↦ c ∷ remove_from bracketed zero text
  | some n ↦ remove_from bracketed (n - 1) text
]
remove_from bracketed (suc skip) (c ∷ text) = remove_from bracketed skip text

-- `_strip_marker`
unfoldable pub strip_marker : Text → Text → Text
unfolding remove_from
strip_marker text marker = remove_from (b'[' ∷ (marker ++ b']' ∷ [])) 0 text

-- The loop that fills `seen`.
unfoldable pub distinct_markers : List Text → List Text → List Text
unfolding list_eq nat_eq
distinct_markers seen [] = seen
distinct_markers seen (marker ∷ markers) =
    distinct_markers (if contains seen marker then seen else (seen ++ marker ∷ [])) markers

-- The loop over `invented_markers`.
unfoldable pub strip_markers : Text → List Text → Text
unfolding strip_marker
strip_markers cleaned [] = cleaned
strip_markers cleaned (marker ∷ markers) = strip_markers (strip_marker cleaned marker) markers

unfoldable pub citation_of : Text → Source → Citation
unfolding snippet_of
citation_of marker source = record {
  marker = marker;
  chunk_id = source.chunk_id;
  document_id = source.document_id;
  filename = source.filename;
  page_from = source.page_from;
  page_to = source.page_to;
  section_path = source.section_path;
  snippet = snippet_of source.content;
}

-- `sources[marker]` for each valid marker; `none` is the `KeyError` of a marker that is no key.
unfoldable pub cite : Dict Text Source → List Text → Option (List Citation)
unfolding citation_of list_eq nat_eq
cite sources [] = some []
cite sources (marker ∷ markers) = elim (lookup marker sources) [
  | none ↦ none
  | some source ↦ elim (cite sources markers) [
    | none ↦ none
    | some citations ↦ some (citation_of marker source ∷ citations)
  ]
]

pub record Validated : Type 0 where
  pub answer : Text
  pub citations : List Citation
  pub invented : List Text

abbrev pub is_empty {ℓ} : {A : Type ℓ} → List A → Bool
is_empty [] = true
is_empty (_ ∷ _) = false

-- `[m for m in seen if m in sources]` and `[m for m in seen if m not in sources]`
abbrev pub valid_markers : Text → Dict Text Source → List Text
valid_markers answer sources =
    keep (λ m. is_key m sources) (distinct_markers [] (find_markers answer))

abbrev pub invented_markers : Text → Dict Text Source → List Text
invented_markers answer sources =
    keep (λ m. not (is_key m sources)) (distinct_markers [] (find_markers answer))

-- The last test of `extract_and_validate`.
abbrev pub or_abstain : Text → List Citation → List Text → Validated
or_abstain cleaned citations invented =
    if not (cleaned == abstention_text) && is_empty citations
    then record { answer = abstention_text; citations = []; invented = invented }
    else record { answer = cleaned; citations = citations; invented = invented }

unfoldable pub extract_and_validate : Text → Dict Text Source → Option Validated
unfolding find_markers distinct_markers strip_markers strip cite list_eq nat_eq
extract_and_validate answer sources =
    let invented = invented_markers answer sources in
    let cleaned = strip (strip_markers answer invented) in
    elim (cite sources (valid_markers answer sources)) [
      | none ↦ none
      | some citations ↦ some (or_abstain cleaned citations invented)
    ]
