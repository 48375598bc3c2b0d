-- ===== src/Chunks/Rows.antt =====
-- The rows of a query of backend/src/app/services/chunks.py: filtered and ordered, they are the rows
-- of the table of which the filter holds.
use normeon_german_technical.Prelude.{
  inl, inr, ◌⊎◌, ◌↔◌, ap, sym, ◌∙◌, arith, if◌then◌else◌, ◌≡◌, Bool, true, false, List, [], ◌∷◌,
  keep, All, nat_eq, list_eq, refl,
}
use normeon_german_technical.Prelude.Sort.{sort, place, IsSorted, IsOrder}
use normeon_german_technical.Chunks.{sort, Chunk, by_ordinal}

keep-All :
    (P : Chunk → Type 0) (p : Chunk → Bool) (chunks : List Chunk)
    → All P chunks
    → All P (keep p chunks)
keep-All P p [] h = tt
keep-All P p (chunk ∷ chunks) (h, hs) =
    elim (p chunk) as (λ b. All P (if b then chunk ∷ keep p chunks else keep p chunks)) [
      | true ↦ (h, keep-All P p chunks hs)
      | false ↦ keep-All P p chunks hs
    ]

pub keep-IsSorted :
    (p : Chunk → Bool) (chunks : List Chunk)
    → IsSorted by_ordinal chunks
    → IsSorted by_ordinal (keep p chunks)
keep-IsSorted p [] h = tt
keep-IsSorted p (chunk ∷ chunks) (h, hs) =
    elim (p chunk)
      as (λ b. IsSorted by_ordinal (if b then chunk ∷ keep p chunks else keep p chunks)) [
        | true ↦ (keep-All (λ y. by_ordinal y chunk ≡ false) p chunks h, keep-IsSorted p chunks hs)
        | false ↦ keep-IsSorted p chunks hs
      ]

pub by_ordinal-IsOrder : IsOrder by_ordinal
by_ordinal-IsOrder = record {
  asymm = λ x y h. ground (arith, h);
  trans = λ x y z h g. ground (arith, h, g);
}

-- The chunk is a row of the list.
abbrev pub IsIn : Chunk → List Chunk → Type 0
IsIn c [] = ⊥
IsIn c (row ∷ rows) = (row ≡ c) ⊎ IsIn c rows

pub keep-IsIn :
    (p : Chunk → Bool) (c : Chunk) (rows : List Chunk)
    → IsIn c (keep p rows) ↔ (IsIn c rows × (p c ≡ true))
keep-IsIn p c rows = (forth rows, back rows)
  where
    forth : (rows : List Chunk) → IsIn c (keep p rows) → IsIn c rows × (p c ≡ true)
    forth [] = λ h. absurd h
    forth (row ∷ rows) =
        (elim (p row)
            as (λ b.
              (p row ≡ b)
              → IsIn c (if b then row ∷ keep p rows else keep p rows)
              → IsIn c (row ∷ rows) × (p c ≡ true)) [
                | true ↦ λ e h. elim h [
                  | inl same ↦ (inl same, ap p (sym same) ∙ e)
                  | inr rest ↦ (inr (forth rows rest).0, (forth rows rest).1)
                ]
                | false ↦ λ e h. (inr (forth rows h).0, (forth rows h).1)
              ])
          refl

    different : p c ≡ false → p c ≡ true → ⊥
    different e f = cc

    back : (rows : List Chunk) → IsIn c rows × (p c ≡ true) → IsIn c (keep p rows)
    back [] = λ (h, own). absurd h
    back (row ∷ rows) = λ (h, own).
        (elim (p row)
            as (λ b. (p row ≡ b) → IsIn c (if b then row ∷ keep p rows else keep p rows)) [
              | true ↦ λ e. elim h [ inl same ↦ inl same | inr rest ↦ inr (back rows (rest, own)) ]
              | false ↦ λ e. elim h [
                | inl same ↦ absurd (different (sym (ap p same) ∙ e) own)
                | inr rest ↦ back rows (rest, own)
              ]
            ])
          refl

place-IsIn :
    (less : Chunk → Chunk → Bool) (c row : Chunk) (rows : List Chunk)
    → IsIn c (place less row rows) ↔ IsIn c (row ∷ rows)
unfolding place
place-IsIn less c row rows = (forth rows, back rows)
  where
    forth : (rows : List Chunk) → IsIn c (place less row rows) → IsIn c (row ∷ rows)
    forth [] = λ h. h
    forth (r ∷ rows) =
        elim (less r row)
          as (λ b.
            IsIn c (if b then r ∷ place less row rows else row ∷ r ∷ rows)
            → IsIn c (row ∷ r ∷ rows)) [
              | true ↦ λ h. elim h [
                | inl same ↦ inr (inl same)
                | inr rest ↦ elim (forth rows rest) [
                  | inl same ↦ inl same
                  | inr behind ↦ inr (inr behind)
                ]
              ]
              | false ↦ λ h. h
            ]

    back : (rows : List Chunk) → IsIn c (row ∷ rows) → IsIn c (place less row rows)
    back [] = λ h. h
    back (r ∷ rows) =
        elim (less r row)
          as (λ b.
            IsIn c (row ∷ r ∷ rows)
            → IsIn c (if b then r ∷ place less row rows else row ∷ r ∷ rows)) [
              | true ↦ λ h. elim h [
                | inl same ↦ inr (back rows (inl same))
                | inr rest ↦ elim rest [
                  | inl same ↦ inl same
                  | inr behind ↦ inr (back rows (inr behind))
                ]
              ]
              | false ↦ λ h. h
            ]

pub sort-IsIn :
    (less : Chunk → Chunk → Bool) (c : Chunk) (rows : List Chunk)
    → IsIn c (sort less rows) ↔ IsIn c rows
unfolding sort
sort-IsIn less c [] = (λ h. h, λ h. h)
sort-IsIn less c (row ∷ rows) =
    let (forth, back) = place-IsIn less c row (sort less rows) in
    let (down, up) = sort-IsIn less c rows in
    (
      λ h. elim (forth h) [ inl same ↦ inl same | inr rest ↦ inr (down rest) ],
      λ h. back (elim h [ inl same ↦ inl same | inr rest ↦ inr (up rest) ]),
    )
