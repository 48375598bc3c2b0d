-- ===== src/Generation/Answer.antt =====
-- `generate_answer` of backend/src/app/services/generation.py. The language model is a parameter.
use normeon_german_technical.Prelude.{
  ℕ, Text, true, Option, none, some, List, [], length, ◌==◌, if◌then◌else◌, Result, ok, err, ◌>>=◌,
  nat_eq, list_eq,
}
use normeon_german_technical.Prelude.Dict.{Dict, values}
use normeon_german_technical.Scalar.{FloatOps}
use normeon_german_technical.Config.{Settings}
use normeon_german_technical.Retrieval.{PipelineTiming}
use normeon_german_technical.Retrieval.Search.{Database, Models}
use normeon_german_technical.Retrieval.Pipeline.{Rerank, Stopwatch, elapsed_ms}
use normeon_german_technical.Context.{Source}
use normeon_german_technical.Citations.{Citation, Validated, abstention_text, extract_and_validate}
use normeon_german_technical.QueryLog.{QueryLog}
use normeon_german_technical.Generation.{Failure, key_error, Env, Ask, Prepared, prepare, log_query}

pub record LlmResponse : Type 0 where
  pub text : Text
  pub model : Text
  pub prompt_tokens : Option ℕ
  pub completion_tokens : Option ℕ

pub record Delta : Type 0 where
  pub text : Text
  pub model : Option Text
  pub prompt_tokens : Option ℕ
  pub completion_tokens : Option ℕ

-- The model: `complete`, and what `stream` yields with the exception that ends it, if one does.
-- Both take the system message, the user message, the temperature and the token limit.
pub record LlmClient (F : Type 0) : Type 0 where
  pub name : Text
  pub complete : Text → Text → F → ℕ → Result Failure LlmResponse
  pub stream : Text → Text → F → ℕ → List Delta × Option Failure

pub record AnswerResult (F : Type 0) : Type 0 where
  pub answer : Text
  pub sources : List Source
  pub citations : List Citation
  pub prompt_name : Text
  pub prompt_sha256 : Text
  pub model : Text
  pub retrieval_timing : PipelineTiming F
  pub generation_ms : F
  pub prompt_tokens : Option ℕ
  pub completion_tokens : Option ℕ
  pub cost_usd : Option F
  pub invented_citations : ℕ

-- The readings of `time.perf_counter()` around the call of the model.
pub record CallTime (F : Type 0) : Type 0 where
  pub started : F
  pub ended : F

abbrev pub or_key_error : Option Validated → Result Failure Validated
or_key_error none = err key_error
or_key_error (some v) = ok v

-- `extract_and_validate`, whose only exception is a `KeyError`.
unfoldable pub validate : Text → Dict Text Source → Result Failure Validated
unfolding extract_and_validate
validate answer sources = or_key_error (extract_and_validate answer sources)

module _ {F V : Type 0} (fl : FloatOps F) (settings : Settings F) (db : Database F V)
    (models : Models V) (env : Env F) (rerank : Rerank F) (llm : LlmClient F) where
  -- The answer of the gate.
  abbrev pub abstention : Prepared F → AnswerResult F
  abstention prep = record {
    answer = abstention_text;
    sources = [];
    citations = [];
    prompt_name = prep.prompt.name;
    prompt_sha256 = prep.prompt.sha256;
    model = llm.name;
    retrieval_timing = prep.retrieval.timing;
    generation_ms = fl.zero;
    prompt_tokens = none;
    completion_tokens = none;
    cost_usd = none;
    invented_citations = 0;
  }

  abbrev pub answer_of : Prepared F → LlmResponse → F → Validated → Option F → AnswerResult F
  answer_of prep completion generation_ms v cost = record {
    answer = v.answer;
    sources = values prep.sources;
    citations = v.citations;
    prompt_name = prep.prompt.name;
    prompt_sha256 = prep.prompt.sha256;
    model = completion.model;
    retrieval_timing = prep.retrieval.timing;
    generation_ms = generation_ms;
    prompt_tokens = completion.prompt_tokens;
    completion_tokens = completion.completion_tokens;
    cost_usd = cost;
    invented_citations = length v.invented;
  }

  abbrev pub request_completion : Prepared F → Result Failure LlmResponse
  request_completion prep =
      llm.complete prep.system prep.user_message settings.llm_temperature settings.llm_max_tokens

  -- The branch of `abstain_pre_generation`.
  unfoldable pub answer_abstained :
      Ask → Prepared F → List (QueryLog F) → Result Failure (AnswerResult F × List (QueryLog F))
  unfolding log_query
  answer_abstained ask prep rows = do
    logged ←
        log_query fl settings db models env rerank ask prep abstention_text true fl.zero llm.name
          none none rows
    ok (abstention prep, logged.1)

  -- What follows the reply of the model.
  unfoldable pub answer_completed :
      CallTime F
      → Ask
      → Prepared F
      → LlmResponse
      → List (QueryLog F)
      → Result Failure (AnswerResult F × List (QueryLog F))
  unfolding log_query validate nat_eq list_eq
  answer_completed time ask prep completion rows = do
    let generation_ms = elapsed_ms fl time.started time.ended
    v ← validate completion.text prep.sources
    logged ←
        log_query fl settings db models env rerank ask prep v.answer (v.answer == abstention_text)
          generation_ms completion.model completion.prompt_tokens completion.completion_tokens rows
    ok (answer_of prep completion generation_ms v logged.0, logged.1)

  -- `generate_answer`, after `_prepare`.
  unfoldable pub answer_prepared :
      CallTime F
      → Ask
      → Prepared F
      → List (QueryLog F)
      → Result Failure (AnswerResult F × List (QueryLog F))
  unfolding answer_abstained answer_completed
  answer_prepared time ask prep rows =
      if prep.abstain_pre_generation
      then answer_abstained ask prep rows
      else (request_completion prep >>= λ completion.
          answer_completed time ask prep completion rows)

  unfoldable pub generate_answer :
      Stopwatch F
      → CallTime F
      → Ask
      → List (QueryLog F)
      → Result Failure (AnswerResult F × List (QueryLog F))
  unfolding prepare answer_prepared
  generate_answer watch time ask rows = do
    prep ← prepare fl settings db models env rerank watch ask
    answer_prepared time ask prep rows
