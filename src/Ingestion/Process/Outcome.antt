-- ===== src/Ingestion/Process/Outcome.antt =====
-- The ends of `process_document` of backend/src/app/services/ingestion.py.
use normeon_german_technical.Prelude.{
  ◌≡◌, ◌≢◌, refl, sym, ap, ◌∙◌, subst, Text, Bool, true, false, none, some, Eq, nat_eq, list_eq,
  pair_eq,
}
use normeon_german_technical.Retrieval.{Uuid}
use normeon_german_technical.Ingestion.{
  ready, failed, pending, parsing, embedding, parse_failed, parse_timeout,
}
use normeon_german_technical.Ingestion.Store.{Tables}
use normeon_german_technical.Ingestion.Process.{
  Calls, Session, Parse, parsed, timed_out, broken, embed_inserted, embed_document, set_page_count,
  process_parsed, parse_content, start_parsing, process_document,
}
use normeon_german_technical.Ingestion.Process.Phases.{
  IsConsistent, IsGrown-trans, IsStep, IsEnd, IsStored, IsStored-grown, insert_all_lem,
  embed_document_lem,
}

module _ {B V : Type 0} ⦃e : Eq B⦄ (calls : Calls B V) where
  -- What holds of a run holds of it on a ready document, and from the parser on.
  pub process_document-cases :
      (P : Session B V × Bool → Type 0) (content : Text) (session : Session B V)
      → (session.document.status ≡ ready → P (session, true))
      → (session.document.status ≢ ready
          → P (
              process_parsed calls
                (parse_content calls session.document.filename content)
                (start_parsing session)))
      → P (process_document calls content session)
  unfolding process_document
  process_document-cases P content session done started =
      let run =
        process_parsed calls (parse_content calls session.document.filename content)
          (start_parsing session) in
      (elim session.document.status
          as (λ status.
            let result : Session B V × Bool = elim status [ ready ↦ (session, true) | _ ↦ run ] in
            (status ≡ ready → P (session, true)) → (status ≢ ready → P run) → P result) [
              | ready ↦ λ g h. g refl
              | pending ↦ λ g h. h (λ p. cc)
              | parsing ↦ λ g h. h (λ p. cc)
              | embedding ↦ λ g h. h (λ p. cc)
              | failed ↦ λ g h. h (λ p. cc)
            ])
        done started

  -- How a run of the document ends, by what the parser does: failed with the code of the parser's
  -- exception over the tables as they were, or with every chunk stored, and then ready with every
  -- chunk embedded, or failed with the code of the embedding.
  abbrev pub IsOutcome : Uuid → Tables B V → Parse B → Session B V × Bool → Type 0
  IsOutcome document_id before timed_out (session, done) =
      (done ≡ false)
      × (session.document.status ≡ failed)
      × (session.document.error_code ≡ some parse_timeout)
      × (session.tables ≡ before)
  IsOutcome document_id before broken (session, done) =
      (done ≡ false)
      × (session.document.status ≡ failed)
      × (session.document.error_code ≡ some parse_failed)
      × (session.tables ≡ before)
  IsOutcome document_id before (parsed doc) (session, done) =
      (session.document.id ≡ document_id)
      × IsStep before session.tables
      × IsStored calls doc document_id session.tables
      × IsEnd calls none (session, done)

  pub process_parsed-IsOutcome :
      (outcome : Parse B) (session : Session B V)
      → session.document.error_code ≡ none
      → IsConsistent session.tables
      → IsOutcome session.document.id session.tables outcome (process_parsed calls outcome session)
  unfolding process_parsed
  process_parsed-IsOutcome timed_out session h u = (refl, refl, refl, refl)
  process_parsed-IsOutcome broken session h u = (refl, refl, refl, refl)
  process_parsed-IsOutcome (parsed doc) session h u =
      let counted = set_page_count doc session in
      let (inserted, run, same, (consistent, grown), stored) = insert_all_lem calls doc counted u in
      let ((consistent', grown'), id, end) = embed_document_lem calls inserted consistent in
      let result = embed_document calls inserted in
      let spec : IsOutcome session.document.id session.tables (parsed doc) result = (
        id ∙ ap (λ d. d.id) same,
        (consistent', IsGrown-trans session.tables inserted.tables result.0.tables grown grown'),
        IsStored-grown calls doc session.document.id inserted.tables result.0.tables grown' stored,
        subst (λ c. IsEnd calls c result) (ap (λ d. d.error_code) same ∙ h) end,
      ) in
      subst
        (λ r.
          IsOutcome session.document.id session.tables (parsed doc)
            (embed_inserted calls counted r))
        (sym run) spec
