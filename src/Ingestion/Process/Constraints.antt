-- ===== src/Ingestion/Process/Constraints.antt =====
-- The constraints of the tables under `process_document` of
-- backend/src/app/services/ingestion.py.
use normeon_german_technical.Prelude.{refl, sym, subst, Text, Bool, Eq, nat_eq, list_eq, pair_eq}
use normeon_german_technical.Retrieval.{Uuid}
use normeon_german_technical.Ingestion.Store.{Tables}
use normeon_german_technical.Ingestion.Process.{
  Calls, Session, Parse, parsed, timed_out, broken, process_parsed, parse_content, start_parsing,
  process_document,
}
use normeon_german_technical.Ingestion.Process.Phases.{IsConsistent, IsGrown-refl, IsStep}
use normeon_german_technical.Ingestion.Process.Outcome.{
  process_document-cases, process_parsed-IsOutcome, IsOutcome,
}

module _ {B V : Type 0} ⦃e : Eq B⦄ (calls : Calls B V) where
  IsOutcome-IsStep :
      (document_id : Uuid) (before : Tables B V) (outcome : Parse B) (run : Session B V × Bool)
      → IsConsistent before
      → IsOutcome calls document_id before outcome run
      → IsStep before run.0.tables
  IsOutcome-IsStep document_id before timed_out run u (_, _, _, same) =
      subst (IsStep before) (sym same) (u, IsGrown-refl before)
  IsOutcome-IsStep document_id before broken run u (_, _, _, same) =
      subst (IsStep before) (sym same) (u, IsGrown-refl before)
  IsOutcome-IsStep document_id before (parsed doc) run u (_, step, _, _) = step

  -- Whatever the status of the document, and whether `process_document` returns or raises: where no
  -- two chunks had the same document, strategy and hash and no two embeddings the same chunk and
  -- model, none have it after, and every chunk and every embedding there was is still there, in its
  -- place.
  pub process_document-IsStep :
      (content : Text) (session : Session B V)
      → IsConsistent session.tables
      → IsStep session.tables (process_document calls content session).0.tables
  process_document-IsStep content session u =
      let outcome = parse_content calls session.document.filename content in
      process_document-cases calls (λ run. IsStep session.tables run.0.tables) content session
        (λ _. (u, IsGrown-refl session.tables))
        (λ _.
          IsOutcome-IsStep session.document.id session.tables outcome
            (process_parsed calls outcome (start_parsing session)) u
            (process_parsed-IsOutcome calls outcome (start_parsing session) refl u))
