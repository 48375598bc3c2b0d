-- ===== src/Generation/Tests.antt =====
-- The theorems on `generate_answer` and its stream at one question, and the answer itself.
use normeon_german_technical.Prelude.{
  arith, Text, txt, List, [], ◌∷◌, ◌≡◌, refl, ok, none, some, false,
}
use normeon_german_technical.Scalar.Fixed.{Fixed, fixed, pos}
use normeon_german_technical.Retrieval.Pipeline.{noop_rerank}
use normeon_german_technical.QueryLog.{QueryLog}
use normeon_german_technical.Generation.Answer.{AnswerResult, generate_answer, LlmResponse, Delta}
use normeon_german_technical.Generation.Stream.{generate_answer_stream, read_deltas, plain_ask}
use normeon_german_technical.Generation.Parity.{EndsWith, empty_draft, draft_of}
use normeon_german_technical.Generation.Parity.Streams.{generate_answer_stream_parity}
use normeon_german_technical.Generation.Outcome.{Recorded, generate_answer-Recorded}
use normeon_german_technical.Context.{Source, source_of}
use normeon_german_technical.Citations.{citation_of}
use normeon_german_technical.Retrieval.Search.{row_to_chunk}
use normeon_german_technical.Fixtures.{
  row, settings, database, models, env, llm, watch, call_time, ask, deltas,
}

abbrev source : Source
source = source_of 1 (row_to_chunk (row 101 (txt "LH 3.2.1 ist verbindlich") (pos 32786)))

abbrev result : AnswerResult Fixed
result = record {
  answer = txt "Ja [S1], auch.";
  sources = source ∷ [];
  citations = citation_of (txt "S1") source ∷ [];
  prompt_name = txt "v2";
  prompt_sha256 = txt "{{CONTEXT}} {{QUESTION}}";
  model = txt "fake-1";
  retrieval_timing = record {
    hybrid_ms = pos 1000000;
    rerank_ms = pos 1000000;
    select_ms = pos 1000000;
    total_ms = pos 3000000;
  };
  generation_ms = pos 5000000;
  prompt_tokens = some 10;
  completion_tokens = none;
  cost_usd = none;
  invented_citations = 1;
}

abbrev log_row : QueryLog Fixed
log_row = record {
  request_id = txt "r1";
  tenant_id = 1;
  question = txt "Was?";
  config_hash = [];
  retrieved_ids = 101 ∷ [];
  answer = txt "Ja [S1], auch.";
  abstained = false;
  retrieval_ms = pos 3000000;
  generation_ms = pos 5000000;
  total_ms = pos 8000000;
  prompt_tokens = 10;
  completion_tokens = 0;
  cost_usd = none;
}

generate_answer_run :
    generate_answer fixed settings database models env noop_rerank llm watch call_time
      (plain_ask ask)
      []
    ≡ ok (result, log_row ∷ [])
unfolding generate_answer noop_rerank source_of row_to_chunk
generate_answer_run = refl

spells_example :
    (system user : Text) (c : LlmResponse)
    → llm.complete system user settings.llm_temperature settings.llm_max_tokens ≡ ok c
    → (ds : List Delta) × (llm.stream system user settings.llm_temperature settings.llm_max_tokens
        ≡ (ds, none))
      × (read_deltas (empty_draft llm.name) ds ≡ draft_of c)
unfolding read_deltas
spells_example system user c h = (deltas, refl, ground (arith, h))

generate_answer_stream_parity_example :
    EndsWith
      (generate_answer_stream fixed settings database models env noop_rerank llm watch call_time ask
        []).0
      result
generate_answer_stream_parity_example =
    generate_answer_stream_parity fixed settings database models env noop_rerank llm (λ r. refl)
      spells_example watch call_time ask [] (log_row ∷ []) result generate_answer_run

generate_answer-Recorded_example : Recorded 1 (txt "Was?") [] result (log_row ∷ [])
generate_answer-Recorded_example =
    generate_answer-Recorded fixed settings database models env noop_rerank llm watch call_time ask
      [] (log_row ∷ []) result generate_answer_run
