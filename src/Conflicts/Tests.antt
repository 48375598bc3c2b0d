-- ===== src/Conflicts/Tests.antt =====
-- Version conflicts among two sources that mention the same code.
use normeon_german_technical.Prelude.{
  Text, txt, List, [], ◌∷◌, ◌≡◌, refl, none, some, Distinct, contains, length, leb, if◌then◌else◌,
  nat_eq, list_eq,
}
use normeon_german_technical.Prelude.Dict.{Dict, lookup, values}
use normeon_german_technical.Context.{Source, source_of}
use normeon_german_technical.Conflicts.{find_version_conflicts}
use normeon_german_technical.Conflicts.Laws.{is_mentioned, find_version_conflicts_lem}
use normeon_german_technical.Fixtures.{chunk}

abbrev own : Source
own = source_of 1 (chunk 101 none (txt "LH"))

abbrev sources : Dict Text Source
sources = (txt "S1", own) ∷ (txt "S2", record own { version_label = some (txt "v2") }) ∷ []

-- The code of every text.
abbrev codes : Text → List Text
codes content = txt "lh3.2.1" ∷ []

find_version_conflicts_run :
    find_version_conflicts codes sources ≡ (txt "lh3.2.1", txt "v1" ∷ txt "v2" ∷ []) ∷ []
unfolding find_version_conflicts source_of
find_version_conflicts_run = refl

find_version_conflicts_lem_example :
    (labels : List Text) × Distinct labels
    × ((label : Text)
        → contains labels label ≡ is_mentioned codes (txt "lh3.2.1") label (values sources))
    × (lookup (txt "lh3.2.1") (find_version_conflicts codes sources)
        ≡ (if leb 2 (length labels) then some labels else none))
find_version_conflicts_lem_example = find_version_conflicts_lem codes sources (txt "lh3.2.1")
