-- ===== src/Conflicts/Laws.antt =====
-- What `find_version_conflicts` of backend/src/app/domain/conflicts.py returns.
use normeon_german_technical.Prelude.{
  arith, Text, Bool, true, false, ◌&&◌, ◌||◌, none, some, List, [], ◌∷◌, ◌++◌, ◌≡◌, refl, length,
  leb, contains, contains-append, append-Distinct, Distinct, if◌then◌else◌, keep, nat_eq, list_eq,
  ◌==◌,
}
use normeon_german_technical.Prelude.Dict.{
  Dict, insert, lookup, get_or, values, keys, lookup-insert, contains-keys, insert-keys-Distinct,
}
use normeon_german_technical.Context.{Source}
use normeon_german_technical.Conflicts.{add_label, add_codes, add_sources, find_version_conflicts}

-- A source of the version `label` mentions the code.
abbrev pub is_mentioned : (Text → List Text) → Text → Text → List Source → Bool
is_mentioned extract_all_codes code label [] = false
is_mentioned extract_all_codes code label (source ∷ sources) =
    elim source.version_label [
      | none ↦ false
      | some own ↦ label == own && contains (extract_all_codes source.content) code
    ]
    || is_mentioned extract_all_codes code label sources

add_label_lem :
    (own : Text) (d : Dict Text (List Text)) (x code label : Text)
    → contains (get_or code [] (add_label own d x)) label
      ≡ (contains (get_or code [] d) label || (code == x && label == own))
add_label_lem own d x code label = ground (
  arith,
  lookup-insert code x
      (if contains (get_or x [] d) own then get_or x [] d else (get_or x [] d ++ own ∷ [])) d,
  contains-append (get_or x [] d) (own ∷ []) label,
)

add_codes_lem :
    (own : Text) (codes : List Text) (d : Dict Text (List Text)) (code label : Text)
    → contains (get_or code [] (add_codes own codes d)) label
      ≡ (contains (get_or code [] d) label || (label == own && contains codes code))
unfolding add_codes
add_codes_lem own [] d code label = ground arith
add_codes_lem own (x ∷ codes) d code label = ground (
  arith,
  add_codes_lem own codes (add_label own d x) code label,
  add_label_lem own d x code label,
)

-- Each key once, and each label once under its key.
abbrev pub IsTidy : Dict Text (List Text) → Type 0
IsTidy d = Distinct (keys d) × ((code : Text) → Distinct (get_or code [] d))

if_Distinct :
    (b : Bool) (xs ys : List Text) → Distinct xs → Distinct ys → Distinct (if b then xs else ys)
if_Distinct true xs ys h g = h
if_Distinct false xs ys h g = g

get_or-insert :
    (code x : Text) (v : List Text) (d : Dict Text (List Text))
    → get_or code [] (insert x v d) ≡ (if code == x then v else get_or code [] d)
get_or-insert code x v d = ground (arith, lookup-insert code x v d)

-- A label that is appended unless it is there.
new_Distinct :
    (labels : List Text) (own : Text)
    → Distinct labels
    → Distinct (if contains labels own then labels else (labels ++ own ∷ []))
new_Distinct labels own h = ground (arith, h, append-Distinct labels own h)

add_label-IsTidy :
    (own x : Text) (d : Dict Text (List Text)) → IsTidy d → IsTidy (add_label own d x)
add_label-IsTidy own x d (ks, h) =
    let new = if contains (get_or x [] d) own then get_or x [] d else (get_or x [] d ++ own ∷ []) in
    (
      insert-keys-Distinct x new d ks,
      λ code. rw (get_or-insert code x new d) (
          if_Distinct (code == x) new (get_or code [] d) (new_Distinct (get_or x [] d) own (h x))
            (h code)),
    )

add_codes-IsTidy :
    (own : Text) (codes : List Text) (d : Dict Text (List Text))
    → IsTidy d
    → IsTidy (add_codes own codes d)
unfolding add_codes
add_codes-IsTidy own [] d h = h
add_codes-IsTidy own (x ∷ codes) d h =
    add_codes-IsTidy own codes (add_label own d x) (add_label-IsTidy own x d h)

lookup-keep :
    (p : List Text → Bool) (code : Text) (d : Dict Text (List Text))
    → Distinct (keys d)
    → lookup code (keep (λ entry. p entry.1) d)
      ≡ elim (lookup code d) [ none ↦ none | some labels ↦ if p labels then some labels else none ]
lookup-keep p code [] h = refl
lookup-keep p code ((k, v) ∷ d) (h, hs) =
    ground (arith, lookup-keep p code d hs, h, contains-keys k d, contains-keys code d)

module _ (extract_all_codes : Text → List Text) where
  add_sources_lem :
      (sources : List Source) (d : Dict Text (List Text))
      → IsTidy d
      → IsTidy (add_sources extract_all_codes sources d)
        × ((code label : Text)
            → contains (get_or code [] (add_sources extract_all_codes sources d)) label ≡ (
                contains (get_or code [] d) label
                || is_mentioned extract_all_codes code label sources))
  unfolding add_sources
  add_sources_lem [] d tidy = (tidy, λ code label. ground arith)
  add_sources_lem (source ∷ sources) d tidy =
      elim source.version_label
        as (λ v.
          IsTidy (
            add_sources extract_all_codes sources
              (elim v [ none ↦ d | some own ↦ add_codes own (extract_all_codes source.content) d ]))
          × ((code label : Text)
              → contains
                  (get_or code [] (
                    add_sources extract_all_codes sources (elim v [
                      | none ↦ d
                      | some own ↦ add_codes own (extract_all_codes source.content) d
                    ])))
                  label
                ≡ (contains (get_or code [] d) label
                    || (elim v [
                      | none ↦ false
                      | some own ↦ label == own && contains (extract_all_codes source.content) code
                    ]
                        || is_mentioned extract_all_codes code label sources)))) [
                          | none ↦
                              let (t, h) = add_sources_lem sources d tidy in
                              (t, λ code label. ground (arith, h code label))
                          | some own ↦
                              let next = add_codes own (extract_all_codes source.content) d in
                              let (t, h) =
                                add_sources_lem sources next (
                                  add_codes-IsTidy own (extract_all_codes source.content) d tidy) in
                              (
                                t,
                                λ code label. ground (
                                  arith,
                                  h code label,
                                  add_codes_lem own (extract_all_codes source.content) d code label,
                                ),
                              )
                        ]

  -- For each requirement code, the versions that mention it are listed once each, in a list that
  -- holds a label exactly when a source of that version mentions the code. The code is a conflict,
  -- with this list, exactly when the list has two labels or more.
  pub find_version_conflicts_lem :
      (sources : Dict Text Source) (code : Text)
      → (labels : List Text) × Distinct labels
        × ((label : Text)
            → contains labels label ≡ is_mentioned extract_all_codes code label (values sources))
        × (lookup code (find_version_conflicts extract_all_codes sources)
            ≡ (if leb 2 (length labels) then some labels else none))
  unfolding find_version_conflicts
  find_version_conflicts_lem sources code =
      let all = add_sources extract_all_codes (values sources) [] in
      let ((ks, distinct), mentioned) = add_sources_lem (values sources) [] (tt, λ c. tt) in
      (
        get_or code [] all,
        distinct code,
        λ label. ground (arith, mentioned code label),
        ground (arith, lookup-keep (λ labels. leb 2 (length labels)) code all ks),
      )
