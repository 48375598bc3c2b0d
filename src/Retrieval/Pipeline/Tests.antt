-- ===== src/Retrieval/Pipeline/Tests.antt =====
-- Tenant isolation at a database with the rows of every tenant.
use normeon_german_technical.Prelude.{take, ℕ, txt, ◌≡◌, none, ok, All, All-take, arith}
use normeon_german_technical.Scalar.Fixed.{Fixed, fixed}
use normeon_german_technical.Retrieval.{RetrievedChunk, RetrievalResult}
use normeon_german_technical.Retrieval.Search.{Row}
use normeon_german_technical.Retrieval.Pipeline.{noop_rerank, retrieve_context}
use normeon_german_technical.Retrieval.Pipeline.Tenant.{
  FiltersByTenant, ReturnsGiven, AllIds, retrieve_context-owner,
}
use normeon_german_technical.Fixtures.{settings, database, models, watch, owner, rows}

rows-owner :
    (tenant k : ℕ) → All (λ (r : Row Fixed). owner r.chunk_id ≡ tenant) (take k (rows tenant))
rows-owner tenant k =
    All-take (λ (r : Row Fixed). owner r.chunk_id ≡ tenant) k (rows tenant)
      (omega arith, (omega arith, tt))

database-FiltersByTenant : FiltersByTenant owner database
database-FiltersByTenant = record {
  vector_rows_owner = λ q model tenant strategy k ef. rows-owner tenant k;
  fts_rows_owner = λ q any tenant strategy k. rows-owner tenant k;
  trgm_rows_owner = λ code threshold tenant strategy k. rows-owner tenant k;
}

noop_rerank-ReturnsGiven : ReturnsGiven {F = Fixed} noop_rerank
unfolding noop_rerank
noop_rerank-ReturnsGiven P query chunks top_k h =
    All-take (λ (c : RetrievedChunk Fixed). P c.chunk_id) top_k chunks h

retrieve_context-owner_example :
    (result : RetrievalResult Fixed) × (retrieve_context fixed settings database models noop_rerank
        watch 1
        (txt "Was?")
        none
        none
        none
        none
        none
        none
      ≡ ok result)
    × AllIds (λ id. owner id ≡ 1) result.reranked
    × AllIds (λ id. owner id ≡ 1) result.context
retrieve_context-owner_example =
    retrieve_context-owner fixed settings database models database-FiltersByTenant 1 noop_rerank
      watch (txt "Was?") none none none none none none noop_rerank-ReturnsGiven (omega arith)
