-- ===== src/Chunks/Laws.antt =====
-- The neighbours of a cited chunk: `get_chunk_context` of backend/src/app/services/chunks.py.
use normeon_german_technical.Chunks.Rows.{
  keep-IsSorted, by_ordinal-IsOrder, IsIn, keep-IsIn, sort-IsIn,
}
use normeon_german_technical.Prelude.{
  inl, inr, ◌↔◌, ◌≢◌, ◌≤◌, ◌<◌, ◌+◌, Bool-cases, ◌==◌, ◌&&◌, arith, ℕ, ◌≡◌, Bool, true, false, none,
  some, List, [], ◌∷◌, ltb, keep, All, nat_eq, list_eq, Result, ok, err, refl, subst,
}
use normeon_german_technical.Prelude.Sort.{sort, IsSorted, sort-IsSorted}
use normeon_german_technical.Chunks.{
  Chunk, Document, ChunkContext, find_chunk, find_document, is_neighbour, by_ordinal, neighbours,
  get_chunk_context,
}
use normeon_german_technical.Errors.{AppError}
use normeon_german_technical.Retrieval.{Uuid}

-- Another chunk of the same document and strategy, with an ordinal within the window.
abbrev pub IsNear : ℕ → Chunk → Chunk → Type 0
IsNear window chunk c =
    (c.document_id ≡ chunk.document_id)
    × (c.strategy ≡ chunk.strategy)
    × (chunk.ordinal ≤ c.ordinal + window)
    × (c.ordinal ≤ chunk.ordinal + window)
    × (c.id ≢ chunk.id)

is_neighbour-IsNear :
    (window : ℕ) (chunk c : Chunk) → is_neighbour window chunk c ≡ true ↔ IsNear window chunk c
unfolding is_neighbour
is_neighbour-IsNear window chunk c = (
  λ h. (
    ground (arith, h),
    ground (arith, h),
    ground (arith, h),
    ground (arith, h),
    λ same. ground (arith, h, same),
  ),
  λ (document, strategy, low, high, other).
      let apart : (c.id == chunk.id) ≡ false = elim (Bool-cases (c.id == chunk.id)) [
        | inl e ↦ absurd (other (ground (arith, e)))
        | inr e ↦ e
      ] in
      ground (arith, document, strategy, low, high, apart),
)

-- In rising order of `ordinal`.
abbrev pub IsRising : List Chunk → Type 0
IsRising [] = Unit
IsRising (row ∷ rows) = All (λ r. row.ordinal ≤ r.ordinal) rows × IsRising rows

rising_behind :
    (row : Chunk) (rows : List Chunk)
    → All (λ r. by_ordinal r row ≡ false) rows
    → All (λ r. row.ordinal ≤ r.ordinal) rows
rising_behind row [] h = tt
rising_behind row (r ∷ rows) (h, hs) = (ground (arith, h), rising_behind row rows hs)

sorted-IsRising : (rows : List Chunk) → IsSorted by_ordinal rows → IsRising rows
sorted-IsRising [] h = tt
sorted-IsRising (row ∷ rows) (h, hs) = (rising_behind row rows h, sorted-IsRising rows hs)

-- Exactly the rows of the table of which `P` holds, in rising order.
abbrev pub AreRows : (Chunk → Type 0) → List Chunk → List Chunk → Type 0
AreRows P table rows = ((c : Chunk) → IsIn c rows ↔ (IsIn c table × P c)) × IsRising rows

side_lem :
    (side : Chunk → Bool) (P : Chunk → Type 0) (window : ℕ) (chunk : Chunk) (table : List Chunk)
    → ((c : Chunk) → side c ≡ true ↔ P c)
    → AreRows (λ c. IsNear window chunk c × P c) table (keep side (neighbours window chunk table))
unfolding neighbours
side_lem side P window chunk table sides =
    let near = keep (is_neighbour window chunk) table in
    (
      λ c.
          let (kept, keeps) = keep-IsIn side c (sort by_ordinal near) in
          let (sorted, sorts) = sort-IsIn by_ordinal c near in
          let (found, finds) = keep-IsIn (is_neighbour window chunk) c table in
          let (is_near, nears) = is_neighbour-IsNear window chunk c in
          (
            λ h.
                let (inside, on_side) = kept h in
                let (in_table, n) = found (sorted inside) in
                (in_table, (is_near n, (sides c).0 on_side)),
            λ (in_table, (n, on_side)).
                keeps (sorts (finds (in_table, nears n)), (sides c).1 on_side),
          ),
      sorted-IsRising (keep side (sort by_ordinal near))
          (keep-IsSorted side (sort by_ordinal near) (sort-IsSorted by_ordinal-IsOrder near)),
    )

find_chunk_lem :
    (tenant_id chunk_id : Uuid) (chunks : List Chunk) (chunk : Chunk)
    → find_chunk tenant_id chunk_id chunks ≡ some chunk
    → (chunk.tenant_id ≡ tenant_id) × (chunk.id ≡ chunk_id) × IsIn chunk chunks
unfolding find_chunk
find_chunk_lem tenant_id chunk_id [] chunk h = ground (arith, h)
find_chunk_lem tenant_id chunk_id (c ∷ chunks) chunk h =
    elim (Bool-cases (c.id == chunk_id && c.tenant_id == tenant_id)) [
      | inl e ↦
          let same : c ≡ chunk = ground (arith, e, h) in
          (ground (arith, e, same), ground (arith, e, same), inl same)
      | inr e ↦
          let (own, id, inside) =
            find_chunk_lem tenant_id chunk_id chunks chunk (ground (arith, e, h)) in
          (own, id, inr inside)
    ]

find_document_lem :
    (document_id : Uuid) (documents : List Document) (document : Document)
    → find_document document_id documents ≡ some document
    → document.id ≡ document_id
unfolding find_document
find_document_lem document_id [] document h = ground (arith, h)
find_document_lem document_id (d ∷ documents) document h =
    ground (arith, h, find_document_lem document_id documents document)

-- The chunk that was asked for, its document, and its neighbours on both sides.
abbrev pub IsContext : Uuid → Uuid → ℕ → List Chunk → ChunkContext → Type 0
IsContext tenant_id chunk_id window table c =
    (c.chunk.tenant_id ≡ tenant_id)
    × (c.chunk.id ≡ chunk_id)
    × IsIn c.chunk table
    × (c.document.id ≡ c.chunk.document_id)
    × AreRows (λ o. IsNear window c.chunk o × (o.ordinal < c.chunk.ordinal)) table c.before
    × AreRows (λ o. IsNear window c.chunk o × (c.chunk.ordinal < o.ordinal)) table c.after

abbrev IsAnswer : Uuid → Uuid → ℕ → List Chunk → Result AppError ChunkContext → Type 0
IsAnswer tenant_id chunk_id window table (ok c) = IsContext tenant_id chunk_id window table c
IsAnswer tenant_id chunk_id window table (err e) = Unit

get_chunk_context-IsAnswer :
    (chunks : List Chunk) (documents : List Document) (tenant_id chunk_id : Uuid) (window : ℕ)
    → IsAnswer tenant_id chunk_id window chunks
        (get_chunk_context chunks documents tenant_id chunk_id window)
unfolding get_chunk_context
get_chunk_context-IsAnswer chunks documents tenant_id chunk_id window =
    (elim (find_chunk tenant_id chunk_id chunks)
        as (λ x.
          find_chunk tenant_id chunk_id chunks ≡ x
          → IsAnswer tenant_id chunk_id window chunks
              (get_chunk_context chunks documents tenant_id chunk_id window)) [
                | none ↦ λ h. rw (h, get_chunk_context) tt
                | some chunk ↦ λ h.
                    (elim (find_document chunk.document_id documents)
                        as (λ x.
                          find_document chunk.document_id documents ≡ x
                          → IsAnswer tenant_id chunk_id window chunks
                              (get_chunk_context chunks documents tenant_id chunk_id window)) [
                                | none ↦ λ g. rw (h, g, get_chunk_context) tt
                                | some document ↦ λ g.
                                    let (own, same, inside) =
                                      find_chunk_lem tenant_id chunk_id chunks chunk h in
                                    rw (h, g, get_chunk_context)
                                      (
                                        own,
                                        same,
                                        inside,
                                        find_document_lem chunk.document_id documents document g,
                                        side_lem (λ o. ltb o.ordinal chunk.ordinal)
                                            (λ o. o.ordinal < chunk.ordinal) window chunk chunks
                                            (λ o. (λ e. ground (arith, e), λ e. ground (arith, e))),
                                        side_lem (λ o. ltb chunk.ordinal o.ordinal)
                                            (λ o. chunk.ordinal < o.ordinal) window chunk chunks
                                            (λ o. (λ e. ground (arith, e), λ e. ground (arith, e))),
                                      )
                              ])
                      refl
              ])
      refl

-- The context of a chunk that `get_chunk_context` returns is of a row of the table with the id that
-- was asked for and of the tenant that asked, with the document of that row. `before` holds exactly
-- the other rows of the same document and strategy whose ordinal is lower by `window` at most, and
-- `after` those whose ordinal is higher by `window` at most, each in rising order of the ordinal.
pub get_chunk_context-IsContext :
    (chunks : List Chunk) (documents : List Document) (tenant_id chunk_id : Uuid) (window : ℕ)
    (c : ChunkContext)
    → get_chunk_context chunks documents tenant_id chunk_id window ≡ ok c
    → IsContext tenant_id chunk_id window chunks c
get_chunk_context-IsContext chunks documents tenant_id chunk_id window c h =
    subst (IsAnswer tenant_id chunk_id window chunks) h
      (get_chunk_context-IsAnswer chunks documents tenant_id chunk_id window)
