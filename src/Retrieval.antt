-- ===== src/Retrieval.antt =====
-- Retrieval: backend/src/app/services/retrieval/, over the types of
-- backend/src/app/domain/models.py.
pub mod Select
pub mod Pipeline
pub mod Search
use normeon_german_technical.Prelude.{ℕ, Text, Bool, Option, List}

-- A `UUID` is the number that it stands for, and `str` of it is not told apart from it.
abbrev pub Uuid : Type 0
Uuid = ℕ

pub record RetrievedChunk (F : Type 0) : Type 0 where
  pub chunk_id : Uuid
  pub document_id : Uuid
  pub filename : Text
  pub content : Text
  pub page_from : ℕ
  pub page_to : ℕ
  pub section_path : Option Text
  pub heading : Option Text
  pub score : F
  pub version_label : Option Text
  pub ocr : Bool

pub record PipelineTiming (F : Type 0) : Type 0 where
  pub hybrid_ms : F
  pub rerank_ms : F
  pub select_ms : F
  pub total_ms : F

pub record RetrievalResult (F : Type 0) : Type 0 where
  pub context : List (RetrievedChunk F)
  pub reranked : List (RetrievedChunk F)
  pub timing : PipelineTiming F
