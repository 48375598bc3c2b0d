-- ===== src/Ingestion/Store/Missing.antt =====
-- The chunks without an embedding under `_embed_and_store` of
-- backend/src/app/services/ingestion.py.
use normeon_german_technical.Prelude.{
  ◌≡◌, refl, ap, Text, Bool-cases, true, not, ◌&&◌, List, [], ◌∷◌, keep, length, ◌==◌, inl, inr,
  nat_eq, list_eq, pair_eq, arith,
}
use normeon_german_technical.Prelude.Sort.{sort}
use normeon_german_technical.Retrieval.{Uuid}
use normeon_german_technical.Chunking.Structural.{slices}
use normeon_german_technical.Chunking.Structural.Pieces.{concat, slices_lem}
use normeon_german_technical.Ingestion.{ChunkRow, Embedding}
use normeon_german_technical.Ingestion.Store.{
  Tables, Embedder, is_embedded, embed_and_store, embedding_batch_size, chunks_missing_embeddings,
  row_before,
}
use normeon_german_technical.Ingestion.Store.Embeddings.{
  is_id, is_id-sort, is_embedded-embed_batches,
}

module _ {B V : Type 0} where
  missing_none :
      (document_id : Uuid) (model : Text) (before after : List (Embedding V))
      (rows : List (ChunkRow B))
      → ((id : Uuid) → is_embedded before model id ≡ true → is_embedded after model id ≡ true)
      → ((id : Uuid)
          → is_id
              (keep
                (λ row. row.document_id == document_id && not (is_embedded before model row.id))
                rows)
              id
            ≡ true
          → is_embedded after model id ≡ true)
      → keep (λ row. row.document_id == document_id && not (is_embedded after model row.id)) rows
        ≡ []
  missing_none document_id model before after [] keeps embeds = refl
  missing_none document_id model before after (row ∷ rows) keeps embeds =
      let rest =
        missing_none document_id model before after rows keeps
          (λ id h. embeds id (ground (arith, h))) in
      elim (Bool-cases (is_embedded before model row.id)) [
        | inl e ↦ ground (arith, rest, keeps row.id e)
        | inr e ↦ elim (Bool-cases (row.document_id == document_id)) [
          | inl own ↦ ground (arith, rest, embeds row.id (ground (arith, own, e)))
          | inr other ↦ ground (arith, rest, other)
        ]
      ]

  -- Where `_embed_and_store` ends without an exception on the chunks that miss an embedding, none
  -- misses one after it.
  pub chunks_missing_embeddings-embed_and_store :
      (embedder : Embedder V) (tables : Tables B V) (document_id : Uuid)
      → (embed_and_store embedder
          (chunks_missing_embeddings tables document_id embedder.name)
          tables.embeddings).2
        ≡ true
      → chunks_missing_embeddings
          (record tables {
            embeddings =
                (embed_and_store embedder
                  (chunks_missing_embeddings tables document_id embedder.name)
                  tables.embeddings).0;
          })
          document_id
          embedder.name
        ≡ []
  unfolding chunks_missing_embeddings embed_and_store
  chunks_missing_embeddings-embed_and_store embedder tables document_id h =
      let missing = chunks_missing_embeddings tables document_id embedder.name in
      let after = (embed_and_store embedder missing tables.embeddings).0 in
      let batches = slices (length missing) embedding_batch_size missing in
      let (covered, _) =
        slices_lem (length missing) embedding_batch_size missing (omega (arith)) (omega (arith)) in
      let embedded =
        λ (id : Uuid). is_embedded-embed_batches embedder batches tables.embeddings id h in
      let listed : (id : Uuid) → is_id (concat batches) id ≡ is_id missing id =
        λ id. ap (λ rows. is_id rows id) covered in
      ap (sort row_before) (
        missing_none document_id embedder.name tables.embeddings after tables.chunks
          (λ id e. ground (arith, e, embedded id))
          (λ id e. ground (
            arith,
            e,
            embedded id,
            listed id,
            is_id-sort row_before
                (keep
                  (λ row.
                    row.document_id == document_id
                    && not (is_embedded tables.embeddings embedder.name row.id))
                  tables.chunks)
                id,
          )))
