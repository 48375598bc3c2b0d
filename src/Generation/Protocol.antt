-- ===== src/Generation/Protocol.antt =====
-- The order of the events of a stream: backend/src/app/services/generation.py.
pub mod Events
use normeon_german_technical.Generation.{
  failure_code, Failure, Env, Ask, Prepared, prepare, log_query, query_row,
}
use normeon_german_technical.Generation.Stream.{
  stream_generated, Draft, Stage, retrieving, reranking, generating, StreamEvent, stage, sources,
  token, done, error, Latency, token_events, stream_abstention, stream_end, finish, stream_prepared,
  stream_body, generate_answer_stream, error_event, rerank_stage, read_deltas, reranking_started,
}
use normeon_german_technical.Prelude.{
  if◌then◌else◌, arith, ℕ, Text, Bool, true, false, Option, none, some, List, [], ◌∷◌, ◌++◌, ◌≡◌,
  refl, Result, ok, err, ◌>>=◌, ◌⊎◌, inl, inr, ◌∙◌, ap, sym,
}
use normeon_german_technical.Scalar.{FloatOps}
use normeon_german_technical.Config.{Settings}
use normeon_german_technical.Retrieval.Search.{Database, Models}
use normeon_german_technical.Retrieval.Pipeline.{Rerank, Stopwatch, elapsed_ms}
use normeon_german_technical.Context.{Source}
use normeon_german_technical.Citations.{Citation, abstention_text}
use normeon_german_technical.QueryLog.{QueryLog, record_query_log}
use normeon_german_technical.Generation.Answer.{Delta, LlmClient, CallTime, validate}

-- What a client of the stream may expect next. `retrieved` says whether `reranking` was announced.
pub data Phase : Type 0 where
  start sent drafting answered failed : Phase
  retrieved : Bool → Phase

-- The steps of the protocol.
pub data Step (F : Type 0) : Phase → StreamEvent F → Phase → Type 0 where
  begin : Step F start (stage retrieving) (retrieved false)
  rerank_begun : Step F (retrieved false) (stage reranking) (retrieved true)
  send : (b : Bool) (found : List Source) → Step F (retrieved b) (sources found) sent
  generate : Step F sent (stage generating) drafting
  abstain : (text : Text) → Step F sent (token text) drafting
  draft : (text : Text) → Step F drafting (token text) drafting
  finished :
      (ms : Latency F) (cost : Option F) (answer : Text) (citations : List Citation)
      → Step F drafting (done ms cost answer citations) answered
  failed_early : (b : Bool) (code message : Text) → Step F (retrieved b) (error code message) failed
  failed_late : (code message : Text) → Step F drafting (error code message) failed

-- A run of the protocol over a list of events.
pub data Run (F : Type 0) : Phase → List (StreamEvent F) → Phase → Type 0 where
  halt : (p : Phase) → Run F p [] p
  step :
      (p q r : Phase) (event : StreamEvent F) (events : List (StreamEvent F))
      → Step F p event q
      → Run F q events r
      → Run F p (event ∷ events) r

-- The retrieval was announced, or a draft begun, and no last event sent.
abbrev pub IsOpen : Phase → Type 0
IsOpen (retrieved _) = Unit
IsOpen drafting = Unit
IsOpen _ = ⊥

-- The events follow the protocol from a phase. They end in `done` with one row more in the table,
-- in `error` with none, or, for a failure whose code is no text, with no last event and no row.
abbrev pub Ended :
    {F : Type 0}
    → Env F
    → Phase
    → List (QueryLog F)
    → List (StreamEvent F) × List (QueryLog F)
    → Type 0
Ended {F} env p rows (events, after) =
    ((row : QueryLog F) × Run F p events answered × (after ≡ rows ++ row ∷ []))
    ⊎ ((Run F p events failed × (after ≡ rows))
        ⊎ ((e : Failure) × (q : Phase) × (failure_code env e ≡ none)
            × IsOpen q
            × Run F p events q
            × (after ≡ rows)))

pub Ended-after :
    {F : Type 0} (env : Env F) (p q : Phase) (rows after : List (QueryLog F))
    (front events : List (StreamEvent F))
    → ((r : Phase) → Run F q events r → Run F p (front ++ events) r)
    → Ended env q rows (events, after)
    → Ended env p rows (front ++ events, after)
Ended-after env p q rows after front events extend (inl (row, run, same)) =
    inl (row, extend answered run, same)
Ended-after env p q rows after front events extend (inr (inl (run, same))) =
    inr (inl (extend failed run, same))
Ended-after env p q rows after front events extend (inr (inr (e, r, code, waiting, run, same))) =
    inr (inr (e, r, code, waiting, extend r run, same))
