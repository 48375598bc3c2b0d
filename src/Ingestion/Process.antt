-- ===== src/Ingestion/Process.antt =====
-- `process_document` of backend/src/app/services/ingestion.py, with the calls it makes.
pub mod Phases
pub mod Liveness
pub mod Transitions
pub mod Outcome
pub mod Constraints
use normeon_german_technical.Prelude.{
  ℕ, zero, suc, ◌++◌, map, nat_eq, list_eq, pair_eq, ◌==◌, Eq, Text, txt, Bool, true, false, Option,
  none, some, List, [], ◌∷◌, if◌then◌else◌,
}
use normeon_german_technical.Parsing.{Block, ParsedDocument}
use normeon_german_technical.Chunking.{Chunk, max_page}
use normeon_german_technical.Chunking.Fixed.{fixed_500, fixed_chunk}
use normeon_german_technical.Chunking.Structural.{structural_chunk}
use normeon_german_technical.Ingestion.{
  Status, ErrorCode, Document, parsing, embedding, ready, failed, pending, parse_failed,
  parse_timeout, embedding_failed,
}
use normeon_german_technical.Ingestion.Store.{
  Tables, Embedder, insert_chunks, chunks_missing_embeddings, embed_and_store,
}

-- What the parser thread does within `settings.parse_timeout_s`.
pub data Parse (B : Type 0) : Type 0 where
  parsed : ParsedDocument B → Parse B
  timed_out broken : Parse B

-- The code that ingestion calls: SHA-256, `normalize_de`, `str.lower`, the lower-cased suffix of a
-- path, the two parsers and the embedding model.
pub record Calls (B V : Type 0) : Type 0 where
  pub sha256 : Text → Text
  pub normalize_de : Text → Text
  pub lower_name : Text → Text
  pub suffix_of : Text → Text
  pub parse_pdf : Text → Parse B
  pub parse_docx : Text → Parse B
  pub embedder : Embedder V

-- The document of the session, the tables, and the status and error code of each commit.
pub record Session (B V : Type 0) : Type 0 where
  pub document : Document
  pub tables : Tables B V
  pub commits : List (Status × Option ErrorCode)

-- `max((b.page for b in parsed.blocks), default=0)`
module _ {B : Type 0} where
  abbrev pub page_count_of : List (Block B) → ℕ
  page_count_of [] = 0
  page_count_of (block ∷ blocks) = max_page block.page (map (λ b. b.page) blocks)

module _ {B V : Type 0} where
  -- `session.commit()`, which writes the columns of the document.
  abbrev pub commit : Session B V → Session B V
  commit session = record session {
    commits = session.commits ++ (session.document.status, session.document.error_code) ∷ [];
  }

  abbrev pub commit_times : ℕ → Session B V → Session B V
  commit_times zero session = session
  commit_times (suc n) session = commit_times n (commit session)

  abbrev pub set_status : Status → Session B V → Session B V
  set_status status session = record session {
    document = record session.document { status = status };
  }

  abbrev pub set_error : Option ErrorCode → Session B V → Session B V
  set_error error_code session = record session {
    document = record session.document { error_code = error_code };
  }

  -- The parser of the suffix, and what it raises; a suffix without one raises `ValueError`.
  unfoldable pub parse_content : Calls B V → Text → Text → Parse B
  unfolding list_eq nat_eq
  parse_content calls filename content =
      if calls.suffix_of filename == txt ".pdf"
      then calls.parse_pdf content
      else if calls.suffix_of filename == txt ".docx"
      then calls.parse_docx content
      else broken

  -- The call of `_insert_chunks` for a strategy; no chunks change nothing.
  unfoldable pub insert_strategy :
      Calls B V → Text → List ℕ → List (Chunk B) → Session B V → Session B V
  unfolding insert_chunks
  insert_strategy calls strategy_name ocr_pages [] session = session
  insert_strategy calls strategy_name ocr_pages (dc ∷ dcs) session = commit (record session {
    tables =
        insert_chunks calls.sha256 calls.normalize_de calls.lower_name session.document
          strategy_name (dc ∷ dcs) ocr_pages session.tables;
  })

  -- The embedding of the chunks that have none, up to the end or the exception.
  unfoldable pub embed_pending : Calls B V → Session B V → Session B V × Bool
  unfolding chunks_missing_embeddings embed_and_store
  embed_pending calls session =
      let missing =
        chunks_missing_embeddings session.tables session.document.id calls.embedder.name in
      let (embeddings, batches, done) =
        embed_and_store calls.embedder missing session.tables.embeddings in
      (
        commit_times batches
            (record session { tables = record session.tables { embeddings = embeddings } }),
        done,
      )

  -- The handler of the exception.
  abbrev pub fail : ErrorCode → Session B V → Session B V
  fail error_code session = commit (set_error (some error_code) (set_status failed session))

  -- What follows the embedding, with an exception or without.
  abbrev pub finish_embedding : Session B V × Bool → Session B V × Bool
  finish_embedding (session, true) = (commit (set_status ready session), true)
  finish_embedding (session, false) = (fail embedding_failed session, false)

  -- From the status `embedding` to the end.
  unfoldable pub embed_document : Calls B V → Session B V → Session B V × Bool
  unfolding embed_pending
  embed_document calls session =
      finish_embedding (embed_pending calls (commit (set_status embedding session)))

module _ {B V : Type 0} ⦃e : Eq B⦄ where
  -- The chunks of both strategies into the table; `none` where the first strategy raises.
  abbrev pub insert_both :
      Calls B V → ParsedDocument B → Session B V → Option (List (Chunk B)) → Option (Session B V)
  insert_both calls doc session none = none
  insert_both calls doc session (some chunks) = some (
      insert_strategy calls (txt "structural") doc.ocr_pages (structural_chunk doc)
        (insert_strategy calls (txt "fixed_500") doc.ocr_pages chunks session))

  -- The loop over `ALL_STRATEGIES`.
  unfoldable pub insert_all : Calls B V → ParsedDocument B → Session B V → Option (Session B V)
  unfolding fixed_chunk structural_chunk insert_strategy
  insert_all calls doc session = insert_both calls doc session (fixed_chunk fixed_500 doc)

  -- From the inserted chunks to the end.
  abbrev pub embed_inserted : Calls B V → Session B V → Option (Session B V) → Session B V × Bool
  embed_inserted calls session none = (fail parse_failed session, false)
  embed_inserted calls session (some inserted) = embed_document calls inserted

  -- `document.page_count = …`
  abbrev pub set_page_count : ParsedDocument B → Session B V → Session B V
  set_page_count doc session = record session {
    document = record session.document { page_count = some (page_count_of doc.blocks) };
  }

  -- From the parser's outcome to the end.
  unfoldable pub process_parsed : Calls B V → Parse B → Session B V → Session B V × Bool
  unfolding insert_all embed_document
  process_parsed calls timed_out session = (fail parse_timeout session, false)
  process_parsed calls broken session = (fail parse_failed session, false)
  process_parsed calls (parsed doc) session =
      embed_inserted calls (set_page_count doc session)
        (insert_all calls doc (set_page_count doc session))

  -- The start of a document that is not ready.
  abbrev pub start_parsing : Session B V → Session B V
  start_parsing session = commit (set_error none (set_status parsing session))

  -- `process_document`: the session after it, and whether it returned without an exception.
  unfoldable pub process_document : Calls B V → Text → Session B V → Session B V × Bool
  unfolding process_parsed parse_content
  process_document calls content session = elim session.document.status [
    | ready ↦ (session, true)
    | _ ↦
        process_parsed calls (parse_content calls session.document.filename content)
          (start_parsing session)
  ]
