-- ===== src/Ingestion/Process/Phases.antt =====
-- The parts of `process_document` of backend/src/app/services/ingestion.py.
use normeon_german_technical.Ingestion.Process.{
  insert_both, Calls, Session, commit, commit_times, set_status, insert_strategy, embed_pending,
  finish_embedding, embed_document, insert_all,
}
use normeon_german_technical.Chunking.Fixed.Coverage.{fixed_chunk_lem}
use normeon_german_technical.Prelude.{
  subst, ap₂, ℕ, zero, suc, ◌≡◌, refl, sym, ap, ◌∙◌, Text, txt, Bool, true, false, Option, some,
  List, [], ◌∷◌, Distinct, All, ◌⊎◌, inl, inr, Eq, nat_eq, list_eq, pair_eq, arith, length,
}
use normeon_german_technical.Retrieval.{Uuid}
use normeon_german_technical.Parsing.{ParsedDocument}
use normeon_german_technical.Chunking.{Chunk}
use normeon_german_technical.Chunking.Fixed.{fixed_500, fixed_chunk}
use normeon_german_technical.Chunking.Structural.{structural_chunk, slices}
use normeon_german_technical.Ingestion.{ready, failed, embedding_failed, embedding, ErrorCode}
use normeon_german_technical.Ingestion.Store.{
  Tables, chunks_missing_embeddings, embed_and_store, chunk_keys, embedding_batch_size,
}
use normeon_german_technical.Ingestion.Store.Embeddings.{embedding_keys, embed_batches-IsInserted}
use normeon_german_technical.Ingestion.Store.Missing.{chunks_missing_embeddings-embed_and_store}
use normeon_german_technical.Ingestion.Store.Extension.{Extends, Extends-refl, Extends-trans}
use normeon_german_technical.Ingestion.Store.Rows.{IsKept, IsKept-Extends, insert_chunks-IsInserted}

module _ {B V : Type 0} where
  commit_times_lem :
      (n : ℕ) (session : Session B V)
      → ((commit_times n session).document ≡ session.document)
        × ((commit_times n session).tables ≡ session.tables)
  commit_times_lem zero session = (refl, refl)
  commit_times_lem (suc n) session = commit_times_lem n (commit session)

  -- No key of either table stands twice.
  abbrev pub IsConsistent : Tables B V → Type 0
  IsConsistent tables =
      Distinct (chunk_keys tables.chunks) × Distinct (embedding_keys tables.embeddings)

  -- The rows of `before` are still in `after`, at the same places; of a chunk, its key.
  abbrev pub IsGrown : Tables B V → Tables B V → Type 0
  IsGrown before after =
      Extends (chunk_keys before.chunks) (chunk_keys after.chunks)
      × Extends before.embeddings after.embeddings

  pub IsGrown-refl : (tables : Tables B V) → IsGrown tables tables
  IsGrown-refl tables = (Extends-refl (chunk_keys tables.chunks), Extends-refl tables.embeddings)

  pub IsGrown-trans : (a b c : Tables B V) → IsGrown a b → IsGrown b c → IsGrown a c
  IsGrown-trans a b c (p, q) (r, s) = (
    Extends-trans (chunk_keys a.chunks) (chunk_keys b.chunks) (chunk_keys c.chunks) p r,
    Extends-trans a.embeddings b.embeddings c.embeddings q s,
  )

  -- A document whose chunks all have embeddings.
  abbrev pub IsEmbedded : Calls B V → Session B V → Type 0
  IsEmbedded calls session =
      chunks_missing_embeddings session.tables session.document.id calls.embedder.name ≡ []

  -- The ends of the embedding: everything embedded, or failed with the code of the embedding.
  abbrev pub IsEnd : Calls B V → Option ErrorCode → Session B V × Bool → Type 0
  IsEnd calls error_code (session, done) =
      ((done ≡ true)
        × (session.document.status ≡ ready)
        × (session.document.error_code ≡ error_code)
        × IsEmbedded calls session)
      ⊎ ((done ≡ false)
          × (session.document.status ≡ failed)
          × (session.document.error_code ≡ some embedding_failed))

  -- The tables keep their rows and their constraints.
  abbrev pub IsStep : Tables B V → Tables B V → Type 0
  IsStep before after = IsConsistent after × IsGrown before after

  embed_pending_lem :
      (calls : Calls B V) (session : Session B V)
      → (let (after, done) = embed_pending calls session in
          (after.document ≡ session.document)
          × (after.tables.chunks ≡ session.tables.chunks)
          × ((done ≡ true) → IsEmbedded calls after))
  unfolding embed_pending
  embed_pending_lem calls session =
      let name = calls.embedder.name in
      let missing = chunks_missing_embeddings session.tables session.document.id name in
      let run = embed_and_store calls.embedder missing session.tables.embeddings in
      let stored = record session { tables = record session.tables { embeddings = run.0 } } in
      let (document, tables) = commit_times_lem run.1 stored in
      (
        document,
        ap (λ t. t.chunks) tables,
        λ h.
            ap₂ (λ t d. chunks_missing_embeddings t d.id name) tables document
            ∙ chunks_missing_embeddings-embed_and_store calls.embedder session.tables
                session.document.id h,
      )

  embed_pending-IsStep :
      (calls : Calls B V) (session : Session B V)
      → IsConsistent session.tables
      → IsStep session.tables (embed_pending calls session).0.tables
  unfolding embed_pending embed_and_store
  embed_pending-IsStep calls session (u, v) =
      let missing =
        chunks_missing_embeddings session.tables session.document.id calls.embedder.name in
      let run = embed_and_store calls.embedder missing session.tables.embeddings in
      let stored = record session { tables = record session.tables { embeddings = run.0 } } in
      let (_, tables) = commit_times_lem run.1 stored in
      let (more, w) =
        embed_batches-IsInserted calls.embedder
          (slices (length missing) embedding_batch_size missing) session.tables.embeddings v in
      subst (IsStep session.tables) (sym tables)
        ((u, w), (Extends-refl (chunk_keys session.tables.chunks), more))

  finish_embedding_lem :
      (calls : Calls B V) (before : Tables B V) (session : Session B V) (done : Bool)
      → IsStep before session.tables
      → ((done ≡ true) → IsEmbedded calls session)
      → IsStep before (finish_embedding (session, done)).0.tables
        × ((finish_embedding (session, done)).0.document.id ≡ session.document.id)
        × IsEnd calls session.document.error_code (finish_embedding (session, done))
  finish_embedding_lem calls before session true step h =
      (step, refl, inl (refl, refl, refl, h refl))
  finish_embedding_lem calls before session false step h = (step, refl, inr (refl, refl, refl))

  -- The embedding keeps the tables, and its end is one of the two.
  pub embed_document_lem :
      (calls : Calls B V) (session : Session B V)
      → IsConsistent session.tables
      → (let after = embed_document calls session in
          IsStep session.tables after.0.tables
          × (after.0.document.id ≡ session.document.id)
          × IsEnd calls session.document.error_code after)
  unfolding embed_document
  embed_document_lem calls session u =
      let started = commit (set_status embedding session) in
      let (document, _, embedded) = embed_pending_lem calls started in
      let run = embed_pending calls started in
      let (step, same, end) =
        finish_embedding_lem calls session.tables run.0 run.1 (embed_pending-IsStep calls started u)
          embedded in
      (
        step,
        same ∙ ap (λ d. d.id) document,
        subst (λ d. IsEnd calls d (finish_embedding run)) (ap (λ d. d.error_code) document) end,
      )

  -- The chunks of a strategy have rows.
  abbrev pub AreKept : Calls B V → Uuid → Text → Tables B V → List (Chunk B) → Type 0
  AreKept calls document_id strategy_name tables chunks =
      All (IsKept calls.sha256 document_id strategy_name (chunk_keys tables.chunks)) chunks

  insert_strategy_lem :
      (calls : Calls B V) (strategy_name : Text) (ocr_pages : List ℕ) (chunks : List (Chunk B))
      (session : Session B V)
      → IsConsistent session.tables
      → (let after = insert_strategy calls strategy_name ocr_pages chunks session in
          (after.document ≡ session.document)
          × IsStep session.tables after.tables
          × AreKept calls session.document.id strategy_name after.tables chunks)
  unfolding insert_strategy
  insert_strategy_lem calls strategy_name ocr_pages [] session u =
      (refl, (u, IsGrown-refl session.tables), tt)
  insert_strategy_lem calls strategy_name ocr_pages (dc ∷ dcs) session (u, v) =
      let ((more, w), kept) =
        insert_chunks-IsInserted calls.sha256 calls.normalize_de calls.lower_name session.document
          strategy_name (dc ∷ dcs) ocr_pages session.tables u in
      (refl, ((w, v), (more, Extends-refl session.tables.embeddings)), kept)

module _ {B V : Type 0} ⦃e : Eq B⦄ where
  -- Every chunk of both strategies has a row.
  abbrev pub IsStored : Calls B V → ParsedDocument B → Uuid → Tables B V → Type 0
  IsStored calls doc document_id tables =
      ((chunks : List (Chunk B)) × (fixed_chunk fixed_500 doc ≡ some chunks)
        × AreKept calls document_id (txt "fixed_500") tables chunks)
      × AreKept calls document_id (txt "structural") tables (structural_chunk doc)

  -- Both strategies end, and their chunks have rows.
  pub insert_all_lem :
      (calls : Calls B V) (doc : ParsedDocument B) (session : Session B V)
      → IsConsistent session.tables
      → (after : Session B V) × (insert_all calls doc session ≡ some after)
        × (after.document ≡ session.document)
        × IsStep session.tables after.tables
        × IsStored calls doc session.document.id after.tables
  unfolding insert_all
  insert_all_lem calls doc session u =
      let (chunks, found, _, _) =
        fixed_chunk_lem fixed_500 doc (omega (arith)) (omega (arith)) (omega (arith)) in
      let first = insert_strategy calls (txt "fixed_500") doc.ocr_pages chunks session in
      let second =
        insert_strategy calls (txt "structural") doc.ocr_pages (structural_chunk doc) first in
      let (same, (consistent, grown), kept) =
        insert_strategy_lem calls (txt "fixed_500") doc.ocr_pages chunks session u in
      let (same', (consistent', grown'), kept') =
        insert_strategy_lem calls (txt "structural") doc.ocr_pages (structural_chunk doc) first
          consistent in
      (
        second,
        ap (insert_both calls doc session) found,
        same' ∙ same,
        (consistent', IsGrown-trans session.tables first.tables second.tables grown grown'),
        (
          (
            chunks,
            found,
            IsKept-Extends calls.sha256 session.document.id (txt "fixed_500")
                (chunk_keys first.tables.chunks) (chunk_keys second.tables.chunks) chunks grown'.0
                kept,
          ),
          subst (λ d. AreKept calls d.id (txt "structural") second.tables (structural_chunk doc))
              same kept',
        ),
      )

  -- The rows stay through a step.
  pub IsStored-grown :
      (calls : Calls B V) (doc : ParsedDocument B) (document_id : Uuid) (before after : Tables B V)
      → IsGrown before after
      → IsStored calls doc document_id before
      → IsStored calls doc document_id after
  IsStored-grown calls doc document_id before after (more, _) ((chunks, found, fixed), structural) =
      let xs = chunk_keys before.chunks in
      let ys = chunk_keys after.chunks in
      (
        (
          chunks,
          found,
          IsKept-Extends calls.sha256 document_id (txt "fixed_500") xs ys chunks more fixed,
        ),
        IsKept-Extends calls.sha256 document_id (txt "structural") xs ys (structural_chunk doc) more
            structural,
      )
