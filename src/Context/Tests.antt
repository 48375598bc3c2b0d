-- ===== src/Context/Tests.antt =====
-- The theorems on the context block at concrete chunks, and a forged marker that is taken apart.
use normeon_german_technical.Prelude.{
  ℕ, ◌+◌, Text, txt, true, List, [], ◌∷◌, ◌≡◌, none, some, get_elem?, nat_eq, list_eq,
}
use normeon_german_technical.Prelude.Dict.{lookup}
use normeon_german_technical.Scalar.Fixed.{Fixed}
use normeon_german_technical.Retrieval.{RetrievedChunk}
use normeon_german_technical.Markers.{find_markers, defang_from}
use normeon_german_technical.Markers.Laws.{find_markers-defang_from}
use normeon_german_technical.Context.{Source, source_of, marker_of, build_context}
use normeon_german_technical.Context.Numbering.{build_context-lookup}
use normeon_german_technical.Fixtures.{chunk}
use mathlib.Core.Option

abbrev chunks : List (RetrievedChunk Fixed)
chunks = chunk 101 none (txt "Ja") ∷ chunk 102 (some (txt "2")) (txt "siehe [S1]") ∷ []

find_markers-defang_from_example : find_markers (defang_from 0 (txt "siehe [S1] und [S 2]")) ≡ []
find_markers-defang_from_example = find_markers-defang_from 0 (txt "siehe [S1] und [S 2]")

build_context-lookup_example :
    ((j : ℕ)
      → lookup (marker_of (j + 1)) (build_context (λ c. true) chunks true).1
        ≡ Option.map (source_of (j + 1)) (get_elem? chunks j))
    × ((marker : Text) (source : Source)
        → lookup marker (build_context (λ c. true) chunks true).1 ≡ some source
        → (j n : ℕ) × (c : RetrievedChunk Fixed) × (n ≡ j + 1)
          × (get_elem? chunks j ≡ some c)
          × (marker ≡ marker_of n)
          × (source ≡ source_of n c))
build_context-lookup_example = build_context-lookup (λ c. true) chunks true
