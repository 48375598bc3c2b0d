-- ===== src/Ingestion/Files.antt =====
-- The original files of documents, and both halves of the ingestion in one:
-- `document_file_key`, `store_document_file` and `ingest_document` of
-- backend/src/app/services/ingestion.py.
pub mod Whole
use normeon_german_technical.Prelude.{
  Eq, Text, txt, Bool, true, false, Option, none, some, List, [], ◌++◌, ◌==◌, ◌||◌, nat_eq, list_eq,
  if◌then◌else◌,
}
use normeon_german_technical.Prelude.Dict.{Dict, insert}
use normeon_german_technical.Retrieval.{Uuid}
use normeon_german_technical.Ingestion.{Document, Upload, Status, ready, get_or_create_document}
use normeon_german_technical.Ingestion.Store.{Tables}
use normeon_german_technical.Ingestion.Process.{Calls, Session, process_document}

-- A stored file, under its key; and how `storage.save` and `str` of a UUID work.
pub record Storage : Type 0 where
  pub show_uuid : Uuid → Text
  pub is_writable : Text → Bool

-- The file under its key; an `OSError` leaves the files as they are.
unfoldable pub save_file : Storage → Text → Dict Text Text → Option Text → Option (Dict Text Text)
unfolding nat_eq list_eq
save_file storage content files none = none
save_file storage content files (some key) =
    some (if storage.is_writable key then insert key content files else files)

module _ {B V : Type 0} where
  -- `document_file_key`; `none` is its `ValueError`.
  unfoldable pub document_file_key : Calls B V → Storage → Document → Option Text
  unfolding nat_eq list_eq
  document_file_key calls storage document =
      let suffix = calls.suffix_of document.filename in
      if suffix == txt ".pdf" || suffix == txt ".docx"
      then some
          (storage.show_uuid document.tenant_id ++ (txt "/" ++ (document.content_hash ++ suffix)))
      else none

  -- `store_document_file`: the files after it, or `none` for the `ValueError`.
  unfoldable pub store_document_file :
      Calls B V → Storage → Document → Text → Dict Text Text → Option (Dict Text Text)
  unfolding document_file_key save_file
  store_document_file calls storage document content files =
      save_file storage content files (document_file_key calls storage document)

-- How `ingest_document` ends: it raises `ValueError` for the file's type, it raises while the document
-- is processed, or it returns, with whether the document was ready before.
pub data Ingest (B V : Type 0) : Type 0 where
  unsupported : Ingest B V
  raised : Session B V → Ingest B V
  returned : Session B V → Bool → Ingest B V

module _ {B V : Type 0} where
  abbrev pub ended : Session B V × Bool → Ingest B V
  ended (session, true) = returned session false
  ended (session, false) = raised session

module _ {B V : Type 0} ⦃e : Eq B⦄ where
  -- From the stored file on.
  abbrev pub ingest_stored : Calls B V → Text → Session B V → Ingest B V
  ingest_stored calls content session = elim session.document.status [
    | ready ↦ returned session true
    | _ ↦ ended (process_document calls content session)
  ]

  -- From the outcome of storing the file on.
  abbrev pub ingest_from :
      Calls B V
      → Text
      → Session B V
      → Dict Text Text
      → Option (Dict Text Text)
      → Dict Text Text × Ingest B V
  ingest_from calls content session files none = (files, unsupported)
  ingest_from calls content session files (some stored) =
      (stored, ingest_stored calls content session)

  -- `ingest_document`: the documents and the files after it, and its end.
  unfoldable pub ingest_document :
      Calls B V
      → Storage
      → Uuid
      → List Document
      → Upload
      → List Document
      → Dict Text Text
      → Tables B V
      → List Document × (Dict Text Text × Ingest B V)
  unfolding get_or_create_document store_document_file process_document
  ingest_document calls storage id others upload documents files tables =
      let (document, created, after) =
        get_or_create_document calls.sha256 id others upload documents in
      (
        after,
        ingest_from calls upload.content
            (record { document = document; tables = tables; commits = [] }) files
            (store_document_file calls storage document upload.content files),
      )
