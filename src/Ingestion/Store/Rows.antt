-- ===== src/Ingestion/Store/Rows.antt =====
-- The rows of the chunks under `_insert_chunks` of backend/src/app/services/ingestion.py.
use normeon_german_technical.Prelude.{
  subst, ℕ, ◌≡◌, refl, sym, ap, ◌∙◌, Text, Bool-cases, true, Option, none, some, List, [], ◌∷◌,
  ◌++◌, map, contains, contains-append, append-Distinct, Distinct, All, ◌+◌, inl, inr, nat_eq,
  list_eq, pair_eq, arith, keep,
}
use normeon_german_technical.Prelude.Dict.{Dict}
use normeon_german_technical.Retrieval.{Uuid}
use normeon_german_technical.Chunking.{Chunk}
use normeon_german_technical.Ingestion.{Document, ChunkRow}
use normeon_german_technical.Ingestion.Store.{
  Tables, chunk_rows, chunk_key, chunk_keys, insert_row, insert_rows, set_parent, link_parents,
  parent_id_of, insert_chunks, id_by_ordinal, parent_by_ordinal, of_strategy,
}
use normeon_german_technical.Ingestion.Store.Extension.{
  Extends, Extends-refl, Extends-trans, contains-Extends,
}

module _ {B : Type 0} where
  chunk_keys-append :
      (xs ys : List (ChunkRow B)) → chunk_keys (xs ++ ys) ≡ chunk_keys xs ++ chunk_keys ys
  chunk_keys-append [] ys = refl
  chunk_keys-append (x ∷ xs) ys = ap (◌∷◌ (chunk_key x)) (chunk_keys-append xs ys)

  -- The keys of the table are kept, and no key stands twice.
  abbrev pub IsInserted : List (ChunkRow B) → List (ChunkRow B) → Type 0
  IsInserted before after =
      Extends (chunk_keys before) (chunk_keys after) × Distinct (chunk_keys after)

  -- The key of the row stands in the table.
  abbrev IsStored : List (ChunkRow B) → ChunkRow B → Type 0
  IsStored rows row = contains (chunk_keys rows) (chunk_key row) ≡ true

  insert_row-IsInserted :
      (rows : List (ChunkRow B)) (row : ChunkRow B)
      → Distinct (chunk_keys rows)
      → IsInserted rows (insert_row rows row) × IsStored (insert_row rows row) row
  unfolding insert_row
  insert_row-IsInserted rows row u =
      elim (Bool-cases (contains (chunk_keys rows) (chunk_key row))) [
        | inl e ↦ rw (e) ((Extends-refl (chunk_keys rows), u), e)
        | inr e ↦
            rw (e, chunk_keys-append rows (row ∷ []))
              (
                ((chunk_key row ∷ [], refl), append-Distinct (chunk_keys rows) (chunk_key row) u e),
                ground
                    (arith, contains-append (chunk_keys rows) (chunk_key row ∷ []) (chunk_key row)),
              )
      ]

  insert_rows-IsInserted :
      (rows new : List (ChunkRow B))
      → Distinct (chunk_keys rows)
      → IsInserted rows (insert_rows rows new) × All (IsStored (insert_rows rows new)) new
  unfolding insert_rows
  insert_rows-IsInserted rows [] u = ((Extends-refl (chunk_keys rows), u), tt)
  insert_rows-IsInserted rows (row ∷ new) u =
      let next = insert_row rows row in
      let ((kept, v), stored) = insert_row-IsInserted rows row u in
      let ((more, w), all) = insert_rows-IsInserted next new v in
      (
        (
          Extends-trans (chunk_keys rows) (chunk_keys next) (chunk_keys (insert_rows next new)) kept
              more,
          w,
        ),
        (
          contains-Extends (chunk_keys next) (chunk_keys (insert_rows next new)) (chunk_key row)
              more stored,
          all,
        ),
      )

  chunk_keys-set_parent :
      (chunk_id parent_id : Uuid) (rows : List (ChunkRow B))
      → chunk_keys (map (set_parent chunk_id parent_id) rows) ≡ chunk_keys rows
  chunk_keys-set_parent chunk_id parent_id [] = refl
  chunk_keys-set_parent chunk_id parent_id (row ∷ rows) =
      ground (arith, chunk_keys-set_parent chunk_id parent_id rows)

  chunk_keys-link_parents :
      (ids : Dict ℕ Uuid) (parents : Dict ℕ (Option ℕ)) (items : Dict ℕ Uuid)
      (rows : List (ChunkRow B))
      → chunk_keys (link_parents ids parents items rows) ≡ chunk_keys rows
  unfolding link_parents
  chunk_keys-link_parents ids parents [] rows = refl
  chunk_keys-link_parents ids parents ((ordinal, chunk_id) ∷ items) rows =
      elim (parent_id_of ids parents ordinal)
        as (λ x.
          let next : List (ChunkRow B) = elim x [
            | none ↦ rows
            | some parent_id ↦ map (set_parent chunk_id parent_id) rows
          ] in
          chunk_keys (link_parents ids parents items next) ≡ chunk_keys rows) [
            | none ↦ chunk_keys-link_parents ids parents items rows
            | some parent_id ↦
                chunk_keys-link_parents ids parents items (map (set_parent chunk_id parent_id) rows)
                ∙ chunk_keys-set_parent chunk_id parent_id rows
          ]

module _ {B : Type 0} where
  -- The chunk of a strategy has its key in the table.
  abbrev pub IsKept : (Text → Text) → Uuid → Text → List ((Uuid × Text) × Text) → Chunk B → Type 0
  IsKept sha256 document_id strategy_name keys dc =
      contains keys ((document_id, strategy_name), sha256 dc.content) ≡ true

  pub IsKept-Extends :
      (sha256 : Text → Text) (document_id : Uuid) (strategy_name : Text)
      (xs ys : List ((Uuid × Text) × Text)) (dcs : List (Chunk B))
      → Extends xs ys
      → All (IsKept sha256 document_id strategy_name xs) dcs
      → All (IsKept sha256 document_id strategy_name ys) dcs
  IsKept-Extends sha256 document_id strategy_name xs ys [] more all = tt
  IsKept-Extends sha256 document_id strategy_name xs ys (dc ∷ dcs) more (kept, all) = (
    contains-Extends xs ys ((document_id, strategy_name), sha256 dc.content) more kept,
    IsKept-Extends sha256 document_id strategy_name xs ys dcs more all,
  )

module _ {B : Type 0} (sha256 normalize_de lower_name : Text → Text) where
  chunk_rows-IsKept :
      (document : Document) (strategy_name : Text) (ocr_pages : List ℕ) (id : Uuid)
      (rows : List (ChunkRow B)) (dcs : List (Chunk B))
      → All
          (IsStored rows)
          (chunk_rows sha256 normalize_de lower_name document strategy_name ocr_pages id dcs)
      → All (IsKept sha256 document.id strategy_name (chunk_keys rows)) dcs
  unfolding chunk_rows
  chunk_rows-IsKept document strategy_name ocr_pages id rows [] all = tt
  chunk_rows-IsKept document strategy_name ocr_pages id rows (dc ∷ dcs) (stored, all) =
      (stored, chunk_rows-IsKept document strategy_name ocr_pages (id + 1) rows dcs all)

module _ {B V : Type 0} (sha256 normalize_de lower_name : Text → Text) where
  pub insert_chunks-IsInserted :
      (document : Document) (strategy_name : Text) (dcs : List (Chunk B)) (ocr_pages : List ℕ)
      (tables : Tables B V)
      → Distinct (chunk_keys tables.chunks)
      → (let after =
            (insert_chunks sha256 normalize_de lower_name document strategy_name dcs ocr_pages
              tables).chunks in
          IsInserted tables.chunks after
          × All (IsKept sha256 document.id strategy_name (chunk_keys after)) dcs)
  unfolding insert_chunks
  insert_chunks-IsInserted document strategy_name dcs ocr_pages tables u =
      let new =
        chunk_rows sha256 normalize_de lower_name document strategy_name ocr_pages tables.next_id
          dcs in
      let rows = insert_rows tables.chunks new in
      let ids = id_by_ordinal [] (keep (of_strategy document.id strategy_name) rows) in
      let same = chunk_keys-link_parents ids (parent_by_ordinal [] dcs) ids rows in
      let (inserted, all) = insert_rows-IsInserted tables.chunks new u in
      subst
        (λ keys.
          (Extends (chunk_keys tables.chunks) keys × Distinct keys)
          × All (IsKept sha256 document.id strategy_name keys) dcs)
        (sym same)
        (
          inserted,
          chunk_rows-IsKept sha256 normalize_de lower_name document strategy_name ocr_pages
              tables.next_id rows dcs all,
        )
