-- ===== src/Ingestion.antt =====
-- Ingestion of a document: backend/src/app/services/ingestion.py, over the tables of
-- backend/src/app/db/models.py. This file has the rows and the first half,
-- `get_or_create_document`.
pub mod Store
pub mod Process
pub mod Documents
pub mod Files
mod Tests
use normeon_german_technical.Prelude.{
  ℕ, ◌+◌, Text, txt, Bool, true, false, ◌&&◌, ◌||◌, ◌==◌, leb, Option, none, some, List, [], ◌∷◌,
  ◌++◌, map, length, contains, Eq, nat_eq, list_eq, if◌then◌else◌,
}
use normeon_german_technical.Retrieval.{Uuid}
use normeon_german_technical.Chunking.{Chunk, Region}

pub data Status : Type 0 where
  pending parsing embedding ready failed : Status

pub data ErrorCode : Type 0 where
  parse_failed parse_timeout embedding_failed : ErrorCode

-- `Document`, with the columns that ingestion writes; a date is a number.
pub record Document : Type 0 where
  pub id : Uuid
  pub tenant_id : Uuid
  pub content_hash : Text
  pub filename : Text
  pub doc_type : Text
  pub version_label : Option Text
  pub valid_from : Option ℕ
  pub valid_until : Option ℕ
  pub page_count : Option ℕ
  pub status : Status
  pub error_code : Option ErrorCode

-- `Chunk`, a row of the table.
pub record ChunkRow (B : Type 0) : Type 0 where
  pub id : Uuid
  pub document_id : Uuid
  pub tenant_id : Uuid
  pub strategy : Text
  pub chunk_hash : Text
  pub parent_id : Option Uuid
  pub ordinal : ℕ
  pub page_from : ℕ
  pub page_to : ℕ
  pub section_path : Option Text
  pub heading : Option Text
  pub char_start : ℕ
  pub char_end : ℕ
  pub content : Text
  pub content_norm : Text
  pub token_count : ℕ
  pub ocr : Bool
  pub regions : Option (List (Region B))

pub record Embedding (V : Type 0) : Type 0 where
  pub chunk_id : Uuid
  pub model : Text
  pub dim : ℕ
  pub vec : V

-- The arguments of an upload.
pub record Upload : Type 0 where
  pub tenant_id : Uuid
  pub filename : Text
  pub doc_type : Text
  pub content : Text
  pub version_label : Option Text
  pub valid_from : Option ℕ
  pub valid_until : Option ℕ

-- `Document.tenant_id == tenant_id, Document.content_hash == content_hash`
unfoldable pub find_upload : Uuid → Text → List Document → Option Document
unfolding nat_eq list_eq
find_upload tenant_id content_hash [] = none
find_upload tenant_id content_hash (document ∷ documents) =
    if document.tenant_id == tenant_id && document.content_hash == content_hash
    then some document
    else find_upload tenant_id content_hash documents

abbrev pub new_document : Uuid → Text → Upload → Document
new_document id content_hash upload = record {
  id = id;
  tenant_id = upload.tenant_id;
  content_hash = content_hash;
  filename = upload.filename;
  doc_type = upload.doc_type;
  version_label = upload.version_label;
  valid_from = upload.valid_from;
  valid_until = upload.valid_until;
  page_count = none;
  status = pending;
  error_code = none;
}

-- `get_or_create_document`: the document, whether it was created, and the table after it. SHA-256
-- is a parameter, and so are the new id and the rows that other requests insert between the lookup
-- and the commit. The commit raises `IntegrityError` where one of them has the same key, and the
-- second lookup finds it.
unfoldable pub get_or_create_document :
    (Text → Text) → Uuid → List Document → Upload → List Document → Document × Bool × List Document
unfolding find_upload
get_or_create_document sha256 id others upload documents =
    let content_hash = sha256 upload.content in
    let document = new_document id content_hash upload in
    elim (find_upload upload.tenant_id content_hash documents) [
      | some existing ↦ (existing, false, documents ++ others)
      | none ↦ elim (find_upload upload.tenant_id content_hash (documents ++ others)) [
        | some raced ↦ (raced, false, documents ++ others)
        | none ↦ (document, true, (documents ++ others) ++ document ∷ [])
      ]
    ]
