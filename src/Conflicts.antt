-- ===== src/Conflicts.antt =====
-- Version conflicts among the sources: backend/src/app/domain/conflicts.py. The codes of a text,
-- which `extract_all_codes` of backend/src/app/domain/normalization.py finds with a regular
-- expression, are a parameter.
pub mod Laws
mod Tests
use normeon_german_technical.Prelude.{
  ℕ, Text, Bool, Option, none, some, List, [], ◌∷◌, ◌++◌, length, leb, contains, if◌then◌else◌,
  keep, nat_eq, list_eq,
}
use normeon_german_technical.Prelude.Dict.{Dict, insert, get_or, values}
use normeon_german_technical.Context.{Source}

-- `labels = labels_by_code.setdefault(code, [])`, to which a new label is appended.
abbrev pub add_label : Text → Dict Text (List Text) → Text → Dict Text (List Text)
add_label label labels_by_code code =
    let labels = get_or code [] labels_by_code in
    insert code (if contains labels label then labels else (labels ++ label ∷ [])) labels_by_code

-- The inner loop, over the codes of one source.
unfoldable pub add_codes : Text → List Text → Dict Text (List Text) → Dict Text (List Text)
unfolding nat_eq list_eq
add_codes label [] labels_by_code = labels_by_code
add_codes label (code ∷ codes) labels_by_code =
    add_codes label codes (add_label label labels_by_code code)

module _ (extract_all_codes : Text → List Text) where
  -- The outer loop.
  unfoldable pub add_sources : List Source → Dict Text (List Text) → Dict Text (List Text)
  unfolding add_codes
  add_sources [] labels_by_code = labels_by_code
  add_sources (source ∷ sources) labels_by_code = add_sources sources (elim source.version_label [
    | none ↦ labels_by_code
    | some label ↦ add_codes label (extract_all_codes source.content) labels_by_code
  ])

  unfoldable pub find_version_conflicts : Dict Text Source → Dict Text (List Text)
  unfolding add_sources
  find_version_conflicts sources =
      keep (λ entry. leb 2 (length entry.1)) (add_sources (values sources) [])
