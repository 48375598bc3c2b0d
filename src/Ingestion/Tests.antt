-- ===== src/Ingestion/Tests.antt =====
-- The theorems about ingestion on a small manual.
use normeon_german_technical.Ingestion.Files.{Storage}
use normeon_german_technical.Prelude.{
  ℕ, ◌≢◌, refl, txt, true, false, none, some, [], ◌∷◌, map, length, nat_eq, list_eq, pair_eq,
}
use normeon_german_technical.Parsing.{ParsedDocument}
use normeon_german_technical.Ingestion.{
  Upload, pending, failed, ready, parsing, parse_timeout, new_document, get_or_create_document,
}
use normeon_german_technical.Ingestion.Documents.{IsUpload, get_or_create_document-IsUpload}
use normeon_german_technical.Ingestion.Process.{Calls, Session, parsed, timed_out, process_document}
use normeon_german_technical.Ingestion.Process.Phases.{IsStep}
use normeon_german_technical.Ingestion.Process.Constraints.{process_document-IsStep}
use normeon_german_technical.Ingestion.Process.Transitions.{
  process_document-AreTransitions, AreTransitions, state_of, start, time_out,
}

abbrev manual : ParsedDocument ℕ
manual = record {
  blocks =
      record {
        text = txt "1 Wartung";
        page = 1;
        bbox = 7;
        is_title = true;
        section_path = some (txt "1");
      }
      ∷ record {
        text = txt "Die Anlage ist zu warten.";
        page = 2;
        bbox = 8;
        is_title = false;
        section_path = some (txt "1");
      }
      ∷ [];
  ocr_pages = 2 ∷ [];
}

abbrev upload : Upload
upload = record {
  tenant_id = 1;
  filename = txt "handbuch.pdf";
  doc_type = txt "manual";
  content = txt "%PDF";
  version_label = none;
  valid_from = none;
  valid_until = none;
}

abbrev calls : Calls ℕ ℕ
calls = record {
  sha256 = λ t. t;
  normalize_de = λ t. t;
  lower_name = λ t. t;
  suffix_of = λ t. txt ".pdf";
  parse_pdf = λ t. parsed manual;
  parse_docx = λ t. timed_out;
  embedder = record { name = txt "e5"; dim = 1; embed_passages = λ ts. some (map length ts) };
}

-- A document whose first attempt timed out.
abbrev session : Session ℕ ℕ
session = record {
  document = record (new_document 5 (txt "%PDF") upload) {
    status = failed;
    error_code = some parse_timeout;
  };
  tables = record { chunks = []; embeddings = []; next_id = 9 };
  commits = (parsing, none) ∷ (failed, some parse_timeout) ∷ [];
}

get_or_create_document-IsUpload_example :
    IsUpload (λ t. t) upload (get_or_create_document (λ t. t) 6 [] upload (session.document ∷ []))
get_or_create_document-IsUpload_example =
    get_or_create_document-IsUpload (λ t. t) 6 [] (session.document ∷ []) upload (refl, tt)

process_document-IsStep_example :
    IsStep session.tables (process_document calls (txt "%PDF") session).0.tables
process_document-IsStep_example = process_document-IsStep calls (txt "%PDF") session (tt, tt)

pending_not_ready : pending ≢ ready
pending_not_ready p = cc

process_document-AreTransitions_example :
    AreTransitions
      (pending, none)
      (process_document calls (txt "%PDF") session).0.commits
      (state_of (process_document calls (txt "%PDF") session).0)
process_document-AreTransitions_example =
    process_document-AreTransitions (pending, none) calls (txt "%PDF") session
      (start pending_not_ready, (time_out, refl))

abbrev storage : Storage
storage = record { show_uuid = λ id. txt "tenant"; is_writable = λ key. true }
