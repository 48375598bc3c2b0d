-- ===== src/Generation/Parity.antt =====
-- The two ways to answer: `generate_answer` and `generate_answer_stream` of
-- backend/src/app/services/generation.py.
pub mod Streams
use normeon_german_technical.Prelude.{
  ap, ℕ, Text, Bool, true, false, Option, none, List, [], ◌∷◌, ◌++◌, ◌≡◌, ◌==◌, list_eq, nat_eq,
  refl, sym, subst, Result, ok, err, ◌>>=◌, if◌then◌else◌,
}
use normeon_german_technical.Scalar.{FloatOps}
use normeon_german_technical.Config.{Settings}
use normeon_german_technical.Retrieval.Search.{Database, Models}
use normeon_german_technical.Retrieval.Pipeline.{Rerank, Stopwatch, elapsed_ms}
use normeon_german_technical.Prelude.Dict.{values}
use normeon_german_technical.Citations.{abstention_text, Validated}
use normeon_german_technical.Pricing.{calculate_cost}
use normeon_german_technical.QueryLog.{QueryLog, record_query_log}
use normeon_german_technical.Generation.{Failure, Env, Ask, Prepared, prepare, log_query, query_row}
use normeon_german_technical.Generation.Answer.{
  AnswerResult, Delta, LlmResponse, LlmClient, CallTime, validate, generate_answer, answer_prepared,
  answer_abstained, answer_completed, answer_of, request_completion,
}
use normeon_german_technical.Generation.Stream.{
  StreamEvent, Draft, stage, sources, token, done, retrieving, generating, Latency, latency,
  gate_latency, token_events, read_deltas, stream_abstention, stream_end, stream_generated, finish,
  stream_prepared, stream_body, generate_answer_stream, plain_ask, rerank_stage, reranking_started,
}

-- What the loop over the deltas has read when they spell a completion.
abbrev pub draft_of : LlmResponse → Draft
draft_of c = record {
  text = c.text;
  model = c.model;
  prompt_tokens = c.prompt_tokens;
  completion_tokens = c.completion_tokens;
}

abbrev pub empty_draft : Text → Draft
empty_draft name = record {
  text = [];
  model = name;
  prompt_tokens = none;
  completion_tokens = none;
}

-- The stream ends in a `done` event with the answer, the citations and the cost of a result.
abbrev pub EndsWith : {F : Type 0} → List (StreamEvent F) → AnswerResult F → Type 0
EndsWith {F} events result =
    (ms : Latency F) × (front : List (StreamEvent F)) × (events
      ≡ front ++ done ms result.cost_usd result.answer result.citations ∷ [])

abbrev pub Parity :
    {F : Type 0}
    → Result Failure (AnswerResult F × List (QueryLog F))
    → List (StreamEvent F)
    → Type 0
Parity (ok (result, _)) events = EndsWith events result
Parity (err _) events = Unit

module _ {F V : Type 0} (fl : FloatOps F) (settings : Settings F) (db : Database F V)
    (models : Models V) (env : Env F) (rerank : Rerank F) (llm : LlmClient F)
    (commits : (row : QueryLog F) → env.commit row ≡ none) where
  pub logged :
      (ask : Ask) (prep : Prepared F) (answer : Text) (abstained : Bool) (ms : F) (model : Text)
      (p c : Option ℕ) (rows : List (QueryLog F))
      → log_query fl settings db models env rerank ask prep answer abstained ms model p c rows
        ≡ ok (
          calculate_cost fl env.pricing model p c,
          rows
              ++ query_row fl settings db models env rerank ask prep answer abstained ms model p c
                ∷ [],
        )
  unfolding log_query record_query_log query_row
  logged ask prep answer abstained ms model p c rows =
      rw
        (
          commits
              (query_row fl settings db models env rerank ask prep answer abstained ms model p c),
          log_query,
          record_query_log,
        )
        refl

  pub Parity-abstained :
      (ask : Ask) (prep : Prepared F) (rows : List (QueryLog F))
      → Parity
          (answer_abstained fl settings db models env rerank llm ask prep rows)
          (stream_abstention fl settings db models env rerank llm ask prep rows).0
  unfolding answer_abstained stream_abstention
  Parity-abstained ask prep rows =
      rw
        (
          logged ask prep abstention_text true fl.zero llm.name none none rows,
          answer_abstained,
          stream_abstention,
          ◌>>=◌,
        )
        (
          gate_latency fl settings db models env rerank llm prep,
          sources [] ∷ token abstention_text ∷ [],
          refl,
        )

  pub completed :
      (time : CallTime F) (ask : Ask) (prep : Prepared F) (c : LlmResponse) (v : Validated)
      (rows : List (QueryLog F))
      → validate c.text prep.sources ≡ ok v
      → (after : List (QueryLog F)) × (answer_completed fl settings db models env rerank llm time
            ask prep c rows
          ≡ ok (
            answer_of fl settings db models env rerank llm prep c
                (elapsed_ms fl time.started time.ended)
                v
                (calculate_cost fl env.pricing c.model c.prompt_tokens c.completion_tokens),
            after,
          ))
  unfolding answer_completed
  completed time ask prep c v rows h =
      let ms = elapsed_ms fl time.started time.ended in
      (
        rows
            ++ query_row fl settings db models env rerank ask prep v.answer
                (v.answer == abstention_text) ms c.model c.prompt_tokens c.completion_tokens
              ∷ [],
        rw
            (
              h,
              logged ask prep v.answer (v.answer == abstention_text) ms c.model c.prompt_tokens
                  c.completion_tokens rows,
              answer_completed,
              ◌>>=◌,
            )
            refl,
      )

  pub finished :
      (time : CallTime F) (ask : Ask) (prep : Prepared F) (c : LlmResponse) (v : Validated)
      (rows : List (QueryLog F))
      → validate c.text prep.sources ≡ ok v
      → (after : List (QueryLog F)) × (finish fl settings db models env rerank llm time ask prep
            (draft_of c)
            rows
          ≡ ok (
            done
                (latency fl settings db models env rerank llm prep
                  (elapsed_ms fl time.started time.ended))
                (calculate_cost fl env.pricing c.model c.prompt_tokens c.completion_tokens)
                v.answer
                v.citations,
            after,
          ))
  finished time ask prep c v rows h =
      let ms = elapsed_ms fl time.started time.ended in
      (
        rows
            ++ query_row fl settings db models env rerank ask prep c.text
                (v.answer == abstention_text) ms c.model c.prompt_tokens c.completion_tokens
              ∷ [],
        rw
            (
              h,
              logged ask prep c.text (v.answer == abstention_text) ms c.model c.prompt_tokens
                  c.completion_tokens rows,
              ◌>>=◌,
            )
            refl,
      )

  pub streamed :
      (time : CallTime F) (ask : Ask) (prep : Prepared F) (c : LlmResponse) (v : Validated)
      (deltas : List Delta) (rows : List (QueryLog F))
      → validate c.text prep.sources ≡ ok v
      → read_deltas (empty_draft llm.name) deltas ≡ draft_of c
      → (stream_end fl settings db models env rerank llm time ask prep deltas none rows).0
        ≡ done
            (latency fl settings db models env rerank llm prep
              (elapsed_ms fl time.started time.ended))
            (calculate_cost fl env.pricing c.model c.prompt_tokens c.completion_tokens)
            v.answer
            v.citations
          ∷ []
  unfolding stream_end
  streamed time ask prep c v deltas rows h read =
      let (after, e) = finished time ask prep c v rows h in
      let run =
        subst
          (λ d.
            finish fl settings db models env rerank llm time ask prep d rows
            ≡ ok (
              done
                  (latency fl settings db models env rerank llm prep
                    (elapsed_ms fl time.started time.ended))
                  (calculate_cost fl env.pricing c.model c.prompt_tokens c.completion_tokens)
                  v.answer v.citations,
              after,
            ))
          (sym read) e in
      rw (run, stream_end) refl
