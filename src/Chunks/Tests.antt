-- ===== src/Chunks/Tests.antt =====
-- The context of a chunk in a table with another strategy and another tenant.
use normeon_german_technical.Prelude.{ℕ, Text, txt, List, [], ◌∷◌, ◌≡◌, refl, ok, err}
use normeon_german_technical.Retrieval.{Uuid}
use normeon_german_technical.Errors.{chunk_not_found}
use normeon_german_technical.Chunks.{Chunk, Document, ChunkContext, get_chunk_context}
use normeon_german_technical.Chunks.Laws.{IsContext, get_chunk_context-IsContext}

abbrev chunk_at : Uuid → Text → ℕ → Chunk
chunk_at id strategy ordinal = record {
  id = id;
  document_id = 7;
  tenant_id = 1;
  strategy = strategy;
  ordinal = ordinal;
  content = [];
}

abbrev chunks : List Chunk
chunks =
    chunk_at 5 (txt "s") 3
    ∷ chunk_at 4 (txt "s") 1
    ∷ chunk_at 9 (txt "f") 2
    ∷ chunk_at 6 (txt "s") 2
    ∷ chunk_at 8 (txt "s") 9
    ∷ []

abbrev document : Document
document = record { id = 7; tenant_id = 1; filename = txt "lh.pdf" }

abbrev context : ChunkContext
context = record {
  document = document;
  chunk = chunk_at 6 (txt "s") 2;
  before = chunk_at 4 (txt "s") 1 ∷ [];
  after = chunk_at 5 (txt "s") 3 ∷ [];
}

get_chunk_context_run : get_chunk_context chunks (document ∷ []) 1 6 2 ≡ ok context
unfolding get_chunk_context
get_chunk_context_run = refl

get_chunk_context_foreign : get_chunk_context chunks (document ∷ []) 2 6 2 ≡ err chunk_not_found
unfolding get_chunk_context
get_chunk_context_foreign = refl

get_chunk_context-IsContext_example : IsContext 1 6 2 chunks context
get_chunk_context-IsContext_example =
    get_chunk_context-IsContext chunks (document ∷ []) 1 6 2 context get_chunk_context_run
