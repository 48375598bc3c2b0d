-- ===== src/Ingestion/Store/Embeddings.antt =====
-- The embeddings in the table under `_embed_and_store` of
-- backend/src/app/services/ingestion.py.
use normeon_german_technical.Prelude.{
  ℕ, suc, ◌≡◌, refl, ap, Text, Bool, Bool-cases, Option-cases, true, false, ◌&&◌, ◌||◌, none, some,
  List, [], ◌∷◌, ◌++◌, map, ◌==◌, inl, inr, nat_eq, list_eq, pair_eq, arith, Distinct, contains,
  append-Distinct,
}
use normeon_german_technical.Prelude.Sort.{sort, place}
use normeon_german_technical.Retrieval.{Uuid}
use normeon_german_technical.Chunking.Structural.Pieces.{concat}
use normeon_german_technical.Ingestion.Store.Extension.{Extends, Extends-refl, Extends-trans}
use normeon_german_technical.Ingestion.{ChunkRow, Embedding}
use normeon_german_technical.Ingestion.Store.{
  Embedder, is_embedded, insert_embedding, insert_embeddings, embedding_rows, batch_rows,
  embed_batches,
}

module _ {B : Type 0} where
  -- A row of that id.
  abbrev pub is_id : List (ChunkRow B) → Uuid → Bool
  is_id [] id = false
  is_id (row ∷ rows) id = row.id == id || is_id rows id

  is_id-place :
      (less : ChunkRow B → ChunkRow B → Bool) (row : ChunkRow B) (rows : List (ChunkRow B))
      (id : Uuid)
      → is_id (place less row rows) id ≡ (row.id == id || is_id rows id)
  unfolding place
  is_id-place less row [] id = refl
  is_id-place less row (r ∷ rows) id = ground (arith, is_id-place less row rows id)

  pub is_id-sort :
      (less : ChunkRow B → ChunkRow B → Bool) (rows : List (ChunkRow B)) (id : Uuid)
      → is_id (sort less rows) id ≡ is_id rows id
  unfolding sort
  is_id-sort less [] id = refl
  is_id-sort less (row ∷ rows) id =
      ground (arith, is_id-place less row (sort less rows) id, is_id-sort less rows id)

  is_id-append :
      (xs ys : List (ChunkRow B)) (id : Uuid) → is_id (xs ++ ys) id ≡ (is_id xs id || is_id ys id)
  is_id-append [] ys id = refl
  is_id-append (x ∷ xs) ys id = ground (arith, is_id-append xs ys id)

module _ {V : Type 0} where
  -- The columns of the primary key of the embeddings.
  abbrev pub embedding_keys : List (Embedding V) → List (Uuid × Text)
  embedding_keys [] = []
  embedding_keys (e ∷ es) = (e.chunk_id, e.model) ∷ embedding_keys es

  embedding_keys-append :
      (xs ys : List (Embedding V))
      → embedding_keys (xs ++ ys) ≡ embedding_keys xs ++ embedding_keys ys
  embedding_keys-append [] ys = refl
  embedding_keys-append (x ∷ xs) ys = ap (◌∷◌ (x.chunk_id, x.model)) (embedding_keys-append xs ys)

  contains-embedding_keys :
      (es : List (Embedding V)) (id : Uuid) (model : Text)
      → is_embedded es model id ≡ false
      → contains (embedding_keys es) (id, model) ≡ false
  unfolding pair_eq
  contains-embedding_keys [] id model h = refl
  contains-embedding_keys (e ∷ es) id model h =
      ground (arith, h, contains-embedding_keys es id model)

  pub is_embedded-append :
      (xs ys : List (Embedding V)) (model : Text) (id : Uuid)
      → is_embedded (xs ++ ys) model id ≡ (is_embedded xs model id || is_embedded ys model id)
  is_embedded-append [] ys model id = refl
  is_embedded-append (x ∷ xs) ys model id = ground (arith, is_embedded-append xs ys model id)

  is_embedded-insert_embedding :
      (es : List (Embedding V)) (new : Embedding V) (model : Text) (id : Uuid)
      → is_embedded (insert_embedding es new) model id
        ≡ (is_embedded es model id || (new.chunk_id == id && new.model == model))
  is_embedded-insert_embedding es new model id =
      ground (arith, is_embedded-append es (new ∷ []) model id)

  is_embedded-insert_embeddings :
      (es news : List (Embedding V)) (model : Text) (id : Uuid)
      → is_embedded (insert_embeddings es news) model id
        ≡ (is_embedded es model id || is_embedded news model id)
  unfolding insert_embeddings
  is_embedded-insert_embeddings es [] model id = ground (arith)
  is_embedded-insert_embeddings es (new ∷ news) model id = ground (
    arith,
    is_embedded-insert_embeddings (insert_embedding es new) news model id,
    is_embedded-insert_embedding es new model id,
  )

  -- The rows of the table are kept, and no key stands twice.
  abbrev pub IsInserted : List (Embedding V) → List (Embedding V) → Type 0
  IsInserted before after = Extends before after × Distinct (embedding_keys after)

  insert_embedding-IsInserted :
      (es : List (Embedding V)) (new : Embedding V)
      → Distinct (embedding_keys es)
      → IsInserted es (insert_embedding es new)
  insert_embedding-IsInserted es new u = elim (Bool-cases (is_embedded es new.model new.chunk_id)) [
    | inl e ↦ rw (e) (Extends-refl es, u)
    | inr e ↦
        let fresh = contains-embedding_keys es new.chunk_id new.model e in
        rw (e) (
          (new ∷ [], refl),
          rw (embedding_keys-append es (new ∷ []))
              (append-Distinct (embedding_keys es) (new.chunk_id, new.model) u fresh),
        )
  ]

  insert_embeddings-IsInserted :
      (es news : List (Embedding V))
      → Distinct (embedding_keys es)
      → IsInserted es (insert_embeddings es news)
  unfolding insert_embeddings
  insert_embeddings-IsInserted es [] u = (Extends-refl es, u)
  insert_embeddings-IsInserted es (new ∷ news) u =
      let (kept, v) = insert_embedding-IsInserted es new u in
      let (rest, w) = insert_embeddings-IsInserted (insert_embedding es new) news v in
      (Extends-trans es (insert_embedding es new) (insert_embeddings es (new ∷ news)) kept rest, w)

module _ {B V : Type 0} where
  is_embedded-embedding_rows :
      (embedder : Embedder V) (rows : List (ChunkRow B)) (vectors : List V)
      (news : List (Embedding V)) (id : Uuid)
      → embedding_rows embedder rows vectors ≡ some news
      → is_embedded news embedder.name id ≡ is_id rows id
  unfolding embedding_rows
  is_embedded-embedding_rows embedder [] [] news id h = ground (arith, h)
  is_embedded-embedding_rows embedder [] (v ∷ vs) news id h = ground (arith, h)
  is_embedded-embedding_rows embedder (row ∷ rows) [] news id h = ground (arith, h)
  is_embedded-embedding_rows embedder (row ∷ rows) (v ∷ vs) news id h =
      elim (Option-cases (embedding_rows embedder rows vs)) [
        | inl e ↦ ground (arith, e, h)
        | inr (rest, e) ↦
            ground (arith, e, h, is_embedded-embedding_rows embedder rows vs rest id e)
      ]

  -- The rows of a batch, where the model does not raise.
  batch_rows-some :
      (embedder : Embedder V) (batch : List (ChunkRow B)) (news : List (Embedding V)) (id : Uuid)
      → batch_rows embedder batch ≡ some news
      → is_embedded news embedder.name id ≡ is_id batch id
  batch_rows-some embedder batch news id h =
      elim (Option-cases (embedder.embed_passages (map (λ c. c.content) batch))) [
        | inl e ↦ ground (arith, e, h)
        | inr (vectors, e) ↦
            is_embedded-embedding_rows embedder batch vectors news id (ground (arith, e, h))
      ]

  -- What the loop keeps, ended by an exception or not.
  pub embed_batches-IsInserted :
      (embedder : Embedder V) (batches : List (List (ChunkRow B))) (es : List (Embedding V))
      → Distinct (embedding_keys es)
      → IsInserted es (embed_batches embedder batches es).0
  unfolding embed_batches
  embed_batches-IsInserted embedder [] es u = (Extends-refl es, u)
  embed_batches-IsInserted embedder (batch ∷ batches) es u =
      elim (batch_rows embedder batch)
        as (λ x.
          let run : List (Embedding V) × ℕ × Bool = elim x [
            | none ↦ (es, 0, false)
            | some news ↦
                let (after, n, done) = embed_batches embedder batches (insert_embeddings es news) in
                (after, suc n, done)
          ] in
          IsInserted es run.0) [
            | none ↦ (Extends-refl es, u)
            | some news ↦
                let (kept, v) = insert_embeddings-IsInserted es news u in
                let (rest, w) =
                  embed_batches-IsInserted embedder batches (insert_embeddings es news) v in
                (
                  Extends-trans es (insert_embeddings es news)
                      (embed_batches embedder batches (insert_embeddings es news)).0 kept rest,
                  w,
                )
          ]

  -- What the loop embeds, where it ends without an exception.
  pub is_embedded-embed_batches :
      (embedder : Embedder V) (batches : List (List (ChunkRow B))) (es : List (Embedding V))
      (id : Uuid)
      → (embed_batches embedder batches es).2 ≡ true
      → is_embedded (embed_batches embedder batches es).0 embedder.name id
        ≡ (is_embedded es embedder.name id || is_id (concat batches) id)
  unfolding embed_batches
  is_embedded-embed_batches embedder [] es id h = ground (arith)
  is_embedded-embed_batches embedder (batch ∷ batches) es id h =
      elim (Option-cases (batch_rows embedder batch)) [
        | inl e ↦ ground (arith, e, h)
        | inr (news, e) ↦
            let rest =
              is_embedded-embed_batches embedder batches (insert_embeddings es news) id
                (ground (arith, e, h)) in
            ground (
              arith,
              e,
              rest,
              is_embedded-insert_embeddings es news embedder.name id,
              batch_rows-some embedder batch news id e,
              is_id-append batch (concat batches) id,
            )
      ]
