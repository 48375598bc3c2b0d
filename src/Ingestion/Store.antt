-- ===== src/Ingestion/Store.antt =====
-- The rows of a document's chunks and embeddings: `_insert_chunks`, `_chunks_missing_embeddings`
-- and `_embed_and_store` of backend/src/app/services/ingestion.py.
pub mod Embeddings
pub mod Extension
pub mod Missing
pub mod Rows
use normeon_german_technical.Prelude.{
  ◌-◌, ℕ, zero, suc, ◌+◌, Text, txt, Bool, true, false, not, ◌&&◌, ◌||◌, ◌==◌, leb, ltb, Option,
  none, some, List, [], ◌∷◌, ◌++◌, map, keep, length, contains, Eq, nat_eq, list_eq, pair_eq,
  if◌then◌else◌,
}
use normeon_german_technical.Prelude.Dict.{Dict, lookup, insert}
use normeon_german_technical.Prelude.Sort.{sort}
use normeon_german_technical.Retrieval.{Uuid}
use normeon_german_technical.QueryLog.{text_ltb}
use normeon_german_technical.Chunking.{Chunk}
use normeon_german_technical.Chunking.Structural.{slices}
use normeon_german_technical.Limits.{lower}
use normeon_german_technical.Ingestion.{Document, ChunkRow, Embedding}

abbrev pub embedding_batch_size : ℕ
embedding_batch_size = 32

-- The tables of chunks and embeddings, and the next id of a chunk.
pub record Tables (B V : Type 0) : Type 0 where
  pub chunks : List (ChunkRow B)
  pub embeddings : List (Embedding V)
  pub next_id : Uuid

-- The embedding model: `embed_passages` raises or returns a list of vectors.
pub record Embedder (V : Type 0) : Type 0 where
  pub name : Text
  pub dim : ℕ
  pub embed_passages : List Text → Option (List V)

-- `text.endswith(suffix)`
abbrev pub ends_with : Text → Text → Bool
ends_with suffix [] = [] == suffix
ends_with suffix (c ∷ text) = (c ∷ text) == suffix || ends_with suffix text

-- `any(page in ocr_pages for page in range(page_from, page_from + n))`
abbrev pub any_ocr : List ℕ → ℕ → ℕ → Bool
any_ocr ocr_pages page zero = false
any_ocr ocr_pages page (suc n) = contains ocr_pages page || any_ocr ocr_pages (page + 1) n

module _ {B : Type 0} (sha256 normalize_de lower_name : Text → Text) where
  -- `_chunk_row`, with its id.
  unfoldable pub chunk_row : Document → Text → List ℕ → Uuid → Chunk B → ChunkRow B
  unfolding nat_eq list_eq
  chunk_row document strategy_name ocr_pages id dc = record {
    id = id;
    document_id = document.id;
    tenant_id = document.tenant_id;
    strategy = strategy_name;
    chunk_hash = sha256 dc.content;
    parent_id = none;
    ordinal = dc.ordinal;
    page_from = dc.page_from;
    page_to = dc.page_to;
    section_path = dc.section_path;
    heading = dc.heading;
    char_start = 0;
    char_end = length dc.content;
    content = dc.content;
    content_norm = normalize_de dc.content;
    token_count = dc.token_count;
    ocr = any_ocr ocr_pages dc.page_from (dc.page_to + 1 - dc.page_from);
    regions =
        if ends_with (txt ".pdf") (lower_name document.filename) then some dc.regions else none;
  }

  -- The rows of a list of chunks, with ids from `id` on.
  unfoldable pub chunk_rows : Document → Text → List ℕ → Uuid → List (Chunk B) → List (ChunkRow B)
  unfolding chunk_row
  chunk_rows document strategy_name ocr_pages id [] = []
  chunk_rows document strategy_name ocr_pages id (dc ∷ dcs) =
      chunk_row document strategy_name ocr_pages id dc
      ∷ chunk_rows document strategy_name ocr_pages (id + 1) dcs

-- The parent of a chunk of that ordinal, as an id.
abbrev pub parent_id_of : Dict ℕ Uuid → Dict ℕ (Option ℕ) → ℕ → Option Uuid
parent_id_of ids parents ordinal = elim (lookup ordinal parents) [
  | none ↦ none
  | some none ↦ none
  | some (some parent_ordinal) ↦ lookup parent_ordinal ids
]

module _ {B : Type 0} where
  -- The columns of the constraint `uq_chunk`.
  abbrev pub chunk_key : ChunkRow B → (Uuid × Text) × Text
  chunk_key row = ((row.document_id, row.strategy), row.chunk_hash)

  abbrev pub chunk_keys : List (ChunkRow B) → List ((Uuid × Text) × Text)
  chunk_keys [] = []
  chunk_keys (row ∷ rows) = chunk_key row ∷ chunk_keys rows

  -- One row of `on_conflict_do_nothing` on the chunks.
  unfoldable pub insert_row : List (ChunkRow B) → ChunkRow B → List (ChunkRow B)
  unfolding nat_eq list_eq pair_eq
  insert_row rows row =
      if contains (chunk_keys rows) (chunk_key row) then rows else (rows ++ row ∷ [])

  unfoldable pub insert_rows : List (ChunkRow B) → List (ChunkRow B) → List (ChunkRow B)
  unfolding insert_row
  insert_rows rows [] = rows
  insert_rows rows (row ∷ new) = insert_rows (insert_row rows row) new

  -- `Chunk.document_id == document.id, Chunk.strategy == strategy_name`
  abbrev pub of_strategy : Uuid → Text → ChunkRow B → Bool
  of_strategy document_id strategy_name row =
      row.document_id == document_id && row.strategy == strategy_name

  -- `{c.ordinal: c.id for c in rows}`
  unfoldable pub id_by_ordinal : Dict ℕ Uuid → List (ChunkRow B) → Dict ℕ Uuid
  unfolding nat_eq
  id_by_ordinal ids [] = ids
  id_by_ordinal ids (row ∷ rows) = id_by_ordinal (insert row.ordinal row.id ids) rows

  -- `{dc.ordinal: dc for dc in domain_chunks}`, of which the parents are read.
  unfoldable pub parent_by_ordinal : Dict ℕ (Option ℕ) → List (Chunk B) → Dict ℕ (Option ℕ)
  unfolding nat_eq
  parent_by_ordinal parents [] = parents
  parent_by_ordinal parents (dc ∷ dcs) =
      parent_by_ordinal (insert dc.ordinal dc.parent_ordinal parents) dcs

  -- `update(Chunk).where(Chunk.id == chunk_id).values(parent_id=parent_id)`
  abbrev pub set_parent : Uuid → Uuid → ChunkRow B → ChunkRow B
  set_parent chunk_id parent_id row =
      if row.id == chunk_id then record row { parent_id = some parent_id } else row

  -- The loop over `id_by_ordinal.items()`.
  unfoldable pub link_parents :
      Dict ℕ Uuid → Dict ℕ (Option ℕ) → Dict ℕ Uuid → List (ChunkRow B) → List (ChunkRow B)
  unfolding nat_eq
  link_parents ids parents [] rows = rows
  link_parents ids parents ((ordinal, chunk_id) ∷ items) rows =
      link_parents ids parents items (elim (parent_id_of ids parents ordinal) [
        | none ↦ rows
        | some parent_id ↦ map (set_parent chunk_id parent_id) rows
      ])

  -- `order_by(Chunk.strategy, Chunk.ordinal)`
  abbrev pub row_before : ChunkRow B → ChunkRow B → Bool
  row_before a b =
      if text_ltb a.strategy b.strategy
      then true
      else if text_ltb b.strategy a.strategy
      then false
      else ltb a.ordinal b.ordinal

module _ {V : Type 0} where
  -- There is an embedding of the chunk for the model.
  abbrev pub is_embedded : List (Embedding V) → Text → Uuid → Bool
  is_embedded [] model chunk_id = false
  is_embedded (embedding ∷ embeddings) model chunk_id =
      (embedding.chunk_id == chunk_id && embedding.model == model)
      || is_embedded embeddings model chunk_id

  -- One row of `on_conflict_do_nothing` on the embeddings.
  abbrev pub insert_embedding : List (Embedding V) → Embedding V → List (Embedding V)
  insert_embedding embeddings new =
      if is_embedded embeddings new.model new.chunk_id then embeddings else (embeddings ++ new ∷ [])

  unfoldable pub insert_embeddings : List (Embedding V) → List (Embedding V) → List (Embedding V)
  unfolding nat_eq list_eq
  insert_embeddings embeddings [] = embeddings
  insert_embeddings embeddings (new ∷ rest) =
      insert_embeddings (insert_embedding embeddings new) rest

module _ {B V : Type 0} where
  -- `_chunks_missing_embeddings`
  unfoldable pub chunks_missing_embeddings : Tables B V → Uuid → Text → List (ChunkRow B)
  unfolding sort nat_eq list_eq
  chunks_missing_embeddings tables document_id model = sort row_before (
      keep
        (λ row. row.document_id == document_id && not (is_embedded tables.embeddings model row.id))
        tables.chunks)

  -- The rows of a batch; `none` is the `ValueError` of `zip(…, strict=True)`.
  unfoldable pub embedding_rows :
      Embedder V → List (ChunkRow B) → List V → Option (List (Embedding V))
  embedding_rows embedder [] [] = some []
  embedding_rows embedder [] (vector ∷ vectors) = none
  embedding_rows embedder (row ∷ rows) [] = none
  embedding_rows embedder (row ∷ rows) (vector ∷ vectors) =
      elim (embedding_rows embedder rows vectors) [
        | none ↦ none
        | some rest ↦ some (
            record { chunk_id = row.id; model = embedder.name; dim = embedder.dim; vec = vector }
            ∷ rest)
      ]

  -- The vectors of a batch as rows; `none` where the model raises too.
  abbrev pub batch_rows : Embedder V → List (ChunkRow B) → Option (List (Embedding V))
  batch_rows embedder batch = elim (embedder.embed_passages (map (λ c. c.content) batch)) [
    | none ↦ none
    | some vectors ↦ embedding_rows embedder batch vectors
  ]

  -- The loop of `_embed_and_store`: the table after the last commit, the number of commits, and
  -- whether the loop ended without an exception.
  unfoldable pub embed_batches :
      Embedder V → List (List (ChunkRow B)) → List (Embedding V) → List (Embedding V) × ℕ × Bool
  unfolding insert_embeddings embedding_rows
  embed_batches embedder [] embeddings = (embeddings, 0, true)
  embed_batches embedder (batch ∷ batches) embeddings = elim (batch_rows embedder batch) [
    | none ↦ (embeddings, 0, false)
    | some rows ↦
        let (after, commits, done) =
          embed_batches embedder batches (insert_embeddings embeddings rows) in
        (after, suc commits, done)
  ]

  unfoldable pub embed_and_store :
      Embedder V → List (ChunkRow B) → List (Embedding V) → List (Embedding V) × ℕ × Bool
  unfolding embed_batches slices
  embed_and_store embedder chunks embeddings =
      embed_batches embedder (slices (length chunks) embedding_batch_size chunks) embeddings

module _ {B V : Type 0} (sha256 normalize_de lower_name : Text → Text) where
  -- `_insert_chunks`, on chunks that are not empty.
  unfoldable pub insert_chunks : Document → Text → List (Chunk B) → List ℕ → Tables B V → Tables B V
  unfolding chunk_rows insert_rows id_by_ordinal parent_by_ordinal link_parents nat_eq list_eq
  insert_chunks document strategy_name domain_chunks ocr_pages tables =
      let rows = insert_rows tables.chunks (
        chunk_rows sha256 normalize_de lower_name document strategy_name ocr_pages tables.next_id
          domain_chunks) in
      let ids = id_by_ordinal [] (keep (of_strategy document.id strategy_name) rows) in
      record {
        chunks = link_parents ids (parent_by_ordinal [] domain_chunks) ids rows;
        embeddings = tables.embeddings;
        next_id = tables.next_id + length domain_chunks;
      }
