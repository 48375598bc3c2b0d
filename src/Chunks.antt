-- ===== src/Chunks.antt =====
-- A cited chunk with its neighbours: backend/src/app/services/chunks.py, with the tables of
-- backend/src/app/db/models.py as lists of rows.
pub mod Rows
pub mod Laws
mod Tests
use normeon_german_technical.Prelude.{
  ℕ, ◌+◌, Text, Bool, true, false, not, ◌&&◌, ◌==◌, Option, none, some, List, [], ◌∷◌, leb, ltb,
  keep, if◌then◌else◌, nat_eq, list_eq, Result, ok, err,
}
use normeon_german_technical.Prelude.Sort.{sort}
use normeon_german_technical.Errors.{AppError, chunk_not_found}
use normeon_german_technical.Retrieval.{Uuid}

-- The columns of `Chunk` that are read.
pub record Chunk : Type 0 where
  pub id : Uuid
  pub document_id : Uuid
  pub tenant_id : Uuid
  pub strategy : Text
  pub ordinal : ℕ
  pub content : Text

pub record Document : Type 0 where
  pub id : Uuid
  pub tenant_id : Uuid
  pub filename : Text

pub record ChunkContext : Type 0 where
  pub document : Document
  pub chunk : Chunk
  pub before : List Chunk
  pub after : List Chunk

-- `Chunk.id == chunk_id, Chunk.tenant_id == tenant_id`, and the first row of it.
unfoldable pub find_chunk : Uuid → Uuid → List Chunk → Option Chunk
unfolding nat_eq
find_chunk tenant_id chunk_id [] = none
find_chunk tenant_id chunk_id (chunk ∷ chunks) =
    if chunk.id == chunk_id && chunk.tenant_id == tenant_id
    then some chunk
    else find_chunk tenant_id chunk_id chunks

-- `session.get(Document, document_id)`
unfoldable pub find_document : Uuid → List Document → Option Document
unfolding nat_eq
find_document document_id [] = none
find_document document_id (document ∷ documents) =
    if document.id == document_id then some document else find_document document_id documents

-- The `where` clause of the neighbours.
unfoldable pub is_neighbour : ℕ → Chunk → Chunk → Bool
unfolding nat_eq list_eq
is_neighbour window chunk other =
    other.document_id == chunk.document_id
    && (other.strategy == chunk.strategy
        && ((leb chunk.ordinal (other.ordinal + window)
              && leb other.ordinal (chunk.ordinal + window))
            && not (other.id == chunk.id)))

abbrev pub by_ordinal : Chunk → Chunk → Bool
by_ordinal a b = ltb a.ordinal b.ordinal

-- The rows of the query, `order_by(Chunk.ordinal)`.
unfoldable pub neighbours : ℕ → Chunk → List Chunk → List Chunk
unfolding is_neighbour sort
neighbours window chunk chunks = sort by_ordinal (keep (is_neighbour window chunk) chunks)

unfoldable pub get_chunk_context :
    List Chunk → List Document → Uuid → Uuid → ℕ → Result AppError ChunkContext
unfolding find_chunk find_document neighbours
get_chunk_context chunks documents tenant_id chunk_id window =
    elim (find_chunk tenant_id chunk_id chunks) [
      | none ↦ err chunk_not_found
      | some chunk ↦ elim (find_document chunk.document_id documents) [
        | none ↦ err chunk_not_found
        | some document ↦ ok (record {
          document = document;
          chunk = chunk;
          before = keep (λ c. ltb c.ordinal chunk.ordinal) (neighbours window chunk chunks);
          after = keep (λ c. ltb chunk.ordinal c.ordinal) (neighbours window chunk chunks);
        })
      ]
    ]
