-- ===== src/Ingestion/Process/Transitions.antt =====
-- The commits of `process_document` of backend/src/app/services/ingestion.py: the status and the
-- error code of a document as the other requests see them.
use normeon_german_technical.Ingestion.Process.{
  set_error, Calls, Session, Parse, parsed, timed_out, broken, insert_all, insert_both,
  insert_strategy, embed_inserted, embed_document, embed_pending, finish_embedding, commit,
  commit_times, set_status, set_page_count, process_parsed, parse_content, start_parsing,
  process_document,
}
use normeon_german_technical.Prelude.{
  ℕ, zero, suc, ◌≡◌, ◌≢◌, refl, sym, ap, subst, Text, txt, Bool, true, false, Option, none, some,
  List, [], ◌∷◌, ◌++◌, Eq, nat_eq, list_eq, pair_eq,
}
use normeon_german_technical.Chunking.{Chunk}
use normeon_german_technical.Chunking.Fixed.{fixed_500, fixed_chunk}
use normeon_german_technical.Chunking.Structural.{structural_chunk}
use normeon_german_technical.Ingestion.{
  Status, ready, failed, parsing, embedding, embedding_failed, parse_failed, parse_timeout,
  ErrorCode,
}
use normeon_german_technical.Ingestion.Store.{embed_and_store, chunks_missing_embeddings}
use normeon_german_technical.Ingestion.Process.Outcome.{process_document-cases}

-- What a commit writes.
abbrev pub State : Type 0
State = Status × Option ErrorCode

-- The steps that the life of a document may take, from one commit to the next.
pub data Transition : State → State → Type 0 where
  start :
      {status : Status} {code : Option ErrorCode}
      → status ≢ ready
      → Transition (status, code) (parsing, none)
  insert : Transition (parsing, none) (parsing, none)
  time_out : Transition (parsing, none) (failed, some parse_timeout)
  break : Transition (parsing, none) (failed, some parse_failed)
  parse : Transition (parsing, none) (embedding, none)
  embed : Transition (embedding, none) (embedding, none)
  miss : Transition (embedding, none) (failed, some embedding_failed)
  complete : Transition (embedding, none) (ready, none)

-- The commits lead from the one state to the other.
abbrev pub AreTransitions : State → List State → State → Type 0
AreTransitions from [] to = from ≡ to
AreTransitions from (state ∷ states) to = Transition from state × AreTransitions state states to

append-AreTransitions :
    (from to next : State) (states : List State)
    → AreTransitions from states to
    → Transition to next
    → AreTransitions from (states ++ next ∷ []) next
append-AreTransitions from to next [] h t = (subst (λ s. Transition s next) (sym h) t, refl)
append-AreTransitions from to next (state ∷ states) (first, h) t =
    (first, append-AreTransitions state to next states h t)

module _ {B V : Type 0} where
  abbrev pub state_of : Session B V → State
  state_of session = (session.document.status, session.document.error_code)

module _ {B V : Type 0} (from : State) where
  -- The commits so far lead to the document as it stands.
  abbrev pub IsRun : Session B V → Type 0
  IsRun session = AreTransitions from session.commits (state_of session)

  commit-IsRun :
      (session next : Session B V)
      → IsRun session
      → next.commits ≡ session.commits
      → Transition (state_of session) (state_of next)
      → IsRun (commit next)
  commit-IsRun session next run same step =
      rw (same)
        (append-AreTransitions from (state_of session) (state_of next) session.commits run step)

  -- A session whose commits lead to this state.
  abbrev IsAt : State → Session B V → Type 0
  IsAt state session = IsRun session × (state_of session ≡ state)

  step-IsAt :
      (state : State) (session next : Session B V)
      → IsAt state session
      → next.commits ≡ session.commits
      → Transition state (state_of next)
      → IsAt (state_of next) (commit next)
  step-IsAt state session next (run, at) same step = (
    commit-IsRun session next run same (subst (λ s. Transition s (state_of next)) (sym at) step),
    refl,
  )

  commit_times-IsAt :
      (n : ℕ) (session : Session B V)
      → IsAt (embedding, none) session
      → IsAt (embedding, none) (commit_times n session)
  commit_times-IsAt zero session at = at
  commit_times-IsAt (suc n) session (run, at) =
      commit_times-IsAt n (commit session)
        (commit-IsRun session session run refl (subst (λ s. Transition s s) (sym at) embed), at)

  insert_strategy-IsAt :
      (calls : Calls B V) (strategy_name : Text) (ocr_pages : List ℕ) (chunks : List (Chunk B))
      (session : Session B V)
      → IsAt (parsing, none) session
      → IsAt (parsing, none) (insert_strategy calls strategy_name ocr_pages chunks session)
  unfolding insert_strategy
  insert_strategy-IsAt calls strategy_name ocr_pages [] session at = at
  insert_strategy-IsAt calls strategy_name ocr_pages (dc ∷ dcs) session (run, at) =
      (commit-IsRun session session run refl (subst (λ s. Transition s s) (sym at) insert), at)

  finish_embedding-IsRun :
      (session : Session B V) (done : Bool)
      → IsAt (embedding, none) session
      → IsRun (finish_embedding (session, done)).0
  finish_embedding-IsRun session true (run, at) =
      commit-IsRun session (set_status ready session) run refl
        (subst (λ (s : State). Transition s (ready, s.1)) (sym at) complete)
  finish_embedding-IsRun session false (run, at) =
      commit-IsRun session (set_error (some embedding_failed) (set_status failed session)) run refl
        (subst (λ s. Transition s (failed, some embedding_failed)) (sym at) miss)

  embed_document-IsRun :
      (calls : Calls B V) (session : Session B V)
      → IsAt (parsing, none) session
      → IsRun (embed_document calls session).0
  unfolding embed_document embed_pending
  embed_document-IsRun calls session (run, at) =
      let started = commit (set_status embedding session) in
      let entered : IsAt (embedding, none) started = (
        commit-IsRun session (set_status embedding session) run refl
            (subst (λ (s : State). Transition s (embedding, s.1)) (sym at) parse),
        ap (λ (s : State). (embedding, s.1)) at,
      ) in
      let missing =
        chunks_missing_embeddings started.tables started.document.id calls.embedder.name in
      let (embeddings, batches, done) =
        embed_and_store calls.embedder missing started.tables.embeddings in
      let stored = record started { tables = record started.tables { embeddings = embeddings } } in
      finish_embedding-IsRun (commit_times batches stored) done
        (commit_times-IsAt batches stored entered)

  module _ ⦃e : Eq B⦄ (calls : Calls B V) where
    process_parsed-IsRun :
        (outcome : Parse B) (session : Session B V)
        → IsAt (parsing, none) session
        → IsRun (process_parsed calls outcome session).0
    unfolding process_parsed insert_all
    process_parsed-IsRun timed_out session (run, at) =
        commit-IsRun session (set_error (some parse_timeout) (set_status failed session)) run refl
          (subst (λ s. Transition s (failed, some parse_timeout)) (sym at) time_out)
    process_parsed-IsRun broken session (run, at) =
        commit-IsRun session (set_error (some parse_failed) (set_status failed session)) run refl
          (subst (λ s. Transition s (failed, some parse_failed)) (sym at) break)
    process_parsed-IsRun (parsed doc) session (run, at) =
        let counted = set_page_count doc session in
        elim (fixed_chunk fixed_500 doc)
          as (λ r. IsRun (embed_inserted calls counted (insert_both calls doc counted r)).0) [
            | none ↦
                commit-IsRun counted (set_error (some parse_failed) (set_status failed counted)) run
                  refl (subst (λ s. Transition s (failed, some parse_failed)) (sym at) break)
            | some chunks ↦
                let first = insert_strategy calls (txt "fixed_500") doc.ocr_pages chunks counted in
                let second =
                  insert_strategy calls (txt "structural") doc.ocr_pages (structural_chunk doc)
                    first in
                embed_document-IsRun calls second (
                  insert_strategy-IsAt calls (txt "structural") doc.ocr_pages (structural_chunk doc)
                    first
                    (insert_strategy-IsAt calls (txt "fixed_500") doc.ocr_pages chunks counted
                      (run, at)))
          ]

    -- Where the commits so far lead a document from a first state to the one it is in, each of them a
    -- transition of its life, so do the commits after `process_document`, returned or raised. No
    -- transition leaves `ready`, and only one enters it: the one from `embedding`.
    pub process_document-AreTransitions :
        (content : Text) (session : Session B V)
        → AreTransitions from session.commits (state_of session)
        → (let after = (process_document calls content session).0 in
            AreTransitions from after.commits (state_of after))
    process_document-AreTransitions content session run =
        process_document-cases calls (λ r. IsRun r.0) content session (λ _. run)
          (λ n.
            process_parsed-IsRun (parse_content calls session.document.filename content)
              (start_parsing session)
              (
                commit-IsRun session (set_error none (set_status parsing session)) run refl
                    (start n),
                refl,
              ))
