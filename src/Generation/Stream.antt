-- ===== src/Generation/Stream.antt =====
-- `generate_answer_stream` of backend/src/app/services/generation.py, as the events that it yields
-- to a client that reads to the end.
use normeon_german_technical.Prelude.{
  ℕ, Text, Bool, true, false, ◌&&◌, Option, none, some, List, [], ◌∷◌, ◌++◌, ◌==◌, if◌then◌else◌,
  Result, ok, err, ◌>>=◌, nat_eq, list_eq,
}
use normeon_german_technical.Prelude.Dict.{values}
use normeon_german_technical.Scalar.{FloatOps}
use normeon_german_technical.Config.{Settings, hybrid}
use normeon_german_technical.Retrieval.Search.{Database, Models, or_else, or_text}
use normeon_german_technical.Retrieval.Pipeline.{Rerank, Stopwatch, elapsed_ms, retrieve}
use normeon_german_technical.Context.{Source}
use normeon_german_technical.Citations.{Citation, abstention_text}
use normeon_german_technical.QueryLog.{QueryLog}
use normeon_german_technical.Generation.{
  Failure, Env, Ask, Prepared, prepare, prompt_for, log_query, failure_code,
}
use normeon_german_technical.Generation.Answer.{Delta, LlmClient, CallTime, validate}

pub data Stage : Type 0 where
  retrieving reranking generating : Stage

-- `latency_ms`
pub record Latency (F : Type 0) : Type 0 where
  pub retrieval_ms : F
  pub generation_ms : F
  pub total_ms : F

-- `StreamEvent`, one constructor for each `event`.
pub data StreamEvent (F : Type 0) : Type 0 where
  stage : Stage → StreamEvent F
  sources : List Source → StreamEvent F
  token : Text → StreamEvent F
  done : Latency F → Option F → Text → List Citation → StreamEvent F
  error : Text → Text → StreamEvent F

-- What the loop over the deltas has read.
pub record Draft : Type 0 where
  pub text : Text
  pub model : Text
  pub prompt_tokens : Option ℕ
  pub completion_tokens : Option ℕ

-- `if value is not None: kept = value`
abbrev pub or_kept : Option ℕ → Option ℕ → Option ℕ
or_kept none kept = kept
or_kept (some n) kept = some n

-- One turn of the loop.
abbrev pub read_delta : Draft → Delta → Draft
read_delta draft delta = record {
  text = draft.text ++ delta.text;
  model = or_text delta.model draft.model;
  prompt_tokens = or_kept delta.prompt_tokens draft.prompt_tokens;
  completion_tokens = or_kept delta.completion_tokens draft.completion_tokens;
}

unfoldable pub read_deltas : Draft → List Delta → Draft
read_deltas draft [] = draft
read_deltas draft (delta ∷ deltas) = read_deltas (read_delta draft delta) deltas

-- The `token` events: a delta without text yields none.
unfoldable pub token_events : {F : Type 0} → List Delta → List (StreamEvent F)
token_events [] = []
token_events (delta ∷ deltas) = elim delta.text [
  | [] ↦ token_events deltas
  | c ∷ text ↦ token (c ∷ text) ∷ token_events deltas
]

-- A streamed question has the retrieval of the settings.
abbrev pub plain_ask : Ask → Ask
plain_ask ask = record {
  tenant_id = ask.tenant_id;
  question = ask.question;
  strategy = ask.strategy;
  retrieval_mode = none;
  rerank_top_k = none;
  candidate_k = none;
  prompt_name = ask.prompt_name;
  fts_match = none;
  request_id = ask.request_id;
}

-- The events and the table after them.
abbrev pub Streamed : Type 0 → Type 0
Streamed F = List (StreamEvent F) × List (QueryLog F)

abbrev pub is_ok {ℓ κ} : {E : Type ℓ} {A : Type κ} → Result E A → Bool
is_ok (ok _) = true
is_ok (err _) = false

module _ {F V : Type 0} (fl : FloatOps F) (settings : Settings F) (db : Database F V)
    (models : Models V) (env : Env F) (rerank : Rerank F) (llm : LlmClient F) where
  -- The last handler. Where the code is no text, `_count_llm_error` raises in it: the exception
  -- leaves the generator, and no event follows.
  unfoldable pub error_event : Failure → List (StreamEvent F)
  unfolding failure_code
  error_event e = elim (failure_code env e) [
    | none ↦ []
    | some code ↦ error code (env.message_of e) ∷ []
  ]

  abbrev pub latency : Prepared F → F → Latency F
  latency prep generation_ms = record {
    retrieval_ms = prep.retrieval.timing.total_ms;
    generation_ms = generation_ms;
    total_ms = fl.add prep.retrieval.timing.total_ms generation_ms;
  }

  abbrev pub gate_latency : Prepared F → Latency F
  gate_latency prep = record {
    retrieval_ms = prep.retrieval.timing.total_ms;
    generation_ms = fl.zero;
    total_ms = prep.retrieval.timing.total_ms;
  }

  -- The branch of `abstain_pre_generation`.
  unfoldable pub stream_abstention : Ask → Prepared F → List (QueryLog F) → Streamed F
  unfolding log_query error_event
  stream_abstention ask prep rows =
      elim (log_query fl settings db models env rerank ask prep abstention_text true fl.zero
        llm.name none none rows) [
          | err e ↦ (error_event e, rows)
          | ok logged ↦ (
            sources []
                ∷ token abstention_text
                ∷ done (gate_latency prep) none abstention_text []
                ∷ [],
            logged.1,
          )
        ]

  -- What follows the last delta.
  abbrev pub finish :
      CallTime F
      → Ask
      → Prepared F
      → Draft
      → List (QueryLog F)
      → Result Failure (StreamEvent F × List (QueryLog F))
  finish time ask prep draft rows = do
    let generation_ms = elapsed_ms fl time.started time.ended
    v ← validate draft.text prep.sources
    logged ←
        log_query fl settings db models env rerank ask prep draft.text (v.answer == abstention_text)
          generation_ms draft.model draft.prompt_tokens draft.completion_tokens rows
    ok (done (latency prep generation_ms) logged.0 v.answer v.citations, logged.1)

  unfoldable pub stream_end :
      CallTime F → Ask → Prepared F → List Delta → Option Failure → List (QueryLog F) → Streamed F
  unfolding log_query validate read_deltas error_event nat_eq list_eq
  stream_end time ask prep deltas (some e) rows = (error_event e, rows)
  stream_end time ask prep deltas none rows =
      elim (finish time ask prep
        (read_deltas
          (record { text = []; model = llm.name; prompt_tokens = none; completion_tokens = none })
          deltas)
        rows) [ err e ↦ (error_event e, rows) | ok (event, after) ↦ (event ∷ [], after) ]

  -- From the `sources` event on.
  unfoldable pub stream_generated : CallTime F → Ask → Prepared F → List (QueryLog F) → Streamed F
  unfolding stream_end token_events
  stream_generated time ask prep rows =
      let (deltas, failure) =
        llm.stream prep.system prep.user_message settings.llm_temperature settings.llm_max_tokens in
      let (ending, after) = stream_end time ask prep deltas failure rows in
      (sources (values prep.sources) ∷ stage generating ∷ (token_events deltas ++ ending), after)

  -- After `prep = await preparing`.
  unfoldable pub stream_prepared : CallTime F → Ask → Prepared F → List (QueryLog F) → Streamed F
  unfolding stream_abstention stream_generated
  stream_prepared time ask prep rows =
      if prep.abstain_pre_generation
      then stream_abstention ask prep rows
      else stream_generated time ask prep rows

  -- `reranking.is_set()`: `retrieve_context` calls `on_rerank_start` once it has its candidates.
  unfoldable pub reranking_started : Ask → Bool
  unfolding retrieve
  reranking_started ask =
      is_ok (prompt_for fl settings db models env rerank ask)
      && is_ok (
          retrieve fl settings db models (or_else ask.retrieval_mode hybrid) ask.tenant_id
            ask.question ask.strategy ask.candidate_k
            (some (or_else ask.fts_match settings.fts_match)))

  abbrev pub rerank_stage : Bool → List (StreamEvent F)
  rerank_stage true = stage reranking ∷ []
  rerank_stage false = []

  -- What follows the two stages of the retrieval.
  unfoldable pub stream_body :
      CallTime F → Ask → List (QueryLog F) → Result Failure (Prepared F) → Streamed F
  unfolding stream_prepared error_event
  stream_body time ask rows (err e) = (error_event e, rows)
  stream_body time ask rows (ok prep) = stream_prepared time ask prep rows

  unfoldable pub generate_answer_stream :
      Stopwatch F → CallTime F → Ask → List (QueryLog F) → Streamed F
  unfolding prepare stream_body reranking_started
  generate_answer_stream watch time ask rows =
      let plain = plain_ask ask in
      let (events, after) =
        stream_body time plain rows (prepare fl settings db models env rerank watch plain) in
      (stage retrieving ∷ (rerank_stage (reranking_started plain) ++ events), after)
