-- ===== src/Generation.antt =====
-- One answer, from the question to the prompt: backend/src/app/services/generation.py, up to the
-- call of the language model.
pub mod Answer
pub mod Stream
pub mod Protocol
pub mod Parity
pub mod Outcome
mod Tests
use normeon_german_technical.Prelude.{
  ℕ, Text, txt, Bool, true, false, not, ◌&&◌, Option, none, some, List, [], ◌∷◌, ◌++◌, map, ◌==◌,
  if◌then◌else◌, Result, ok, err, ◌>>=◌, nat_eq, list_eq,
}
use normeon_german_technical.Prelude.Dict.{Dict}
use normeon_german_technical.Scalar.{FloatOps}
use normeon_german_technical.Config.{
  Settings, FtsMatch, match_all, match_any, RetrievalMode, vector, fts, hybrid,
}
use normeon_german_technical.Errors.{AppError, code_of}
use normeon_german_technical.Retrieval.{Uuid, RetrievedChunk, RetrievalResult}
use normeon_german_technical.Retrieval.Search.{Database, Models, SearchError, or_text, or_else}
use normeon_german_technical.Retrieval.Pipeline.{Rerank, Stopwatch, retrieve_context}
use normeon_german_technical.Context.{Source, build_context}
use normeon_german_technical.Conflicts.{find_version_conflicts}
use normeon_german_technical.Prompts.{Prompt, untrusted_context, render, load_prompt}
use normeon_german_technical.Pricing.{ModelPricing, calculate_cost}
use normeon_german_technical.QueryLog.{
  Value, text, int, float, compute_config_hash, QueryLog, record_query_log,
}

-- An exception that reaches the top of `generate_answer`.
pub data Failure : Type 0 where
  search : SearchError → Failure
  missing_prompt : Text → Failure
  key_error : Failure
  database : Text → Failure
  app : AppError → Failure
  other : Text → Failure

-- The attribute `code` of an exception: absent, a text, or a value that is no text, as `None`.
pub data CodeAttr : Type 0 where
  absent no_text : CodeAttr
  given : Text → CodeAttr

-- `getattr(exc, "code", "internal_error")`, and the check of `_count_llm_error`, which raises when
-- the code is no text: `none`.
abbrev pub code_or_default : CodeAttr → Option Text
code_or_default absent = some (txt "internal_error")
code_or_default no_text = none
code_or_default (given code) = some code

-- `_SYSTEM` and `_CONFLICT_INSTRUCTION`
abbrev pub system_text : Text
system_text =
    txt
      "Du bist ein praeziser Assistent fuer technische Normen. Halte dich strikt an die folgenden Anweisungen."

abbrev pub conflict_instruction : Text
conflict_instruction =
    txt
      "Achtung: Einige Quellen stammen aus unterschiedlichen Versionen desselben Dokuments. Weise in der Antwort ausdruecklich auf die Abweichung hin und nenne beide Versionen mit ihren Markierungen."

-- What the code calls and is not modelled: files, hashing, JSON, the regular expression of the
-- codes, the `\w` of `re`, the price table, the database's commit, and `str(exc)` and the
-- attribute `code` of an exception.
pub record Env (F : Type 0) : Type 0 where
  pub read_text : Text → Option Text
  pub sha256 : Text → Text
  pub dumps : Dict Text (Value F) → Text
  pub extract_all_codes : Text → List Text
  pub is_word : ℕ → Bool
  pub pricing : Dict Text (ModelPricing F)
  pub commit : QueryLog F → Option Failure
  pub message_of : Failure → Text
  pub code_attr : Failure → CodeAttr

-- The code of the last handler of `generate_answer_stream`.
unfoldable pub failure_code : {F : Type 0} → Env F → Failure → Option Text
unfolding code_of
failure_code env (app e) = some (code_of e)
failure_code env (search _) = some (txt "internal_error")
failure_code env key_error = some (txt "internal_error")
failure_code env (missing_prompt _) = some (txt "internal_error")
failure_code env e = code_or_default (env.code_attr e)

-- The arguments of a question.
pub record Ask : Type 0 where
  pub tenant_id : Uuid
  pub question : Text
  pub strategy : Option Text
  pub retrieval_mode : Option RetrievalMode
  pub rerank_top_k : Option ℕ
  pub candidate_k : Option ℕ
  pub prompt_name : Option Text
  pub fts_match : Option FtsMatch
  pub request_id : Text

-- `_Prepared`
pub record Prepared (F : Type 0) : Type 0 where
  pub prompt : Prompt
  pub retrieval : RetrievalResult F
  pub sources : Dict Text Source
  pub system : Text
  pub user_message : Text
  pub abstain_pre_generation : Bool
  pub retrieval_mode : RetrievalMode
  pub rerank_top_k : ℕ
  pub candidate_k : Option ℕ
  pub fts_match : FtsMatch

-- `value or default`, for a number.
abbrev pub or_number : Option ℕ → ℕ → ℕ
or_number none default = default
or_number (some n) default = if n == 0 then default else n

abbrev pub mode_name : RetrievalMode → Text
mode_name vector = txt "vector"
mode_name fts = txt "fts"
mode_name hybrid = txt "hybrid"

abbrev pub match_name : FtsMatch → Text
match_name match_all = txt "all"
match_name match_any = txt "any"

abbrev pub prompt_or_failure : Text → Option Prompt → Result Failure Prompt
prompt_or_failure name none = err (missing_prompt name)
prompt_or_failure name (some prompt) = ok prompt

abbrev pub search_or_failure {ℓ} : {A : Type ℓ} → Result SearchError A → Result Failure A
search_or_failure (ok a) = ok a
search_or_failure (err e) = err (search e)

module _ {F V : Type 0} (fl : FloatOps F) (settings : Settings F) (db : Database F V)
    (models : Models V) (env : Env F) (rerank : Rerank F) where
  -- `top_score is None or top_score < settings.min_rerank_score_for_answer`
  abbrev pub below_gate : List (RetrievedChunk F) → Bool
  below_gate [] = true
  below_gate (top ∷ _) = fl.lt top.score settings.min_rerank_score_for_answer

  -- The system message.
  unfoldable pub system_of : Dict Text Source → Text
  unfolding find_version_conflicts
  system_of sources = elim (find_version_conflicts env.extract_all_codes sources) [
    | [] ↦ system_text
    | _ ∷ _ ↦ system_text ++ (txt " " ++ conflict_instruction)
  ]

  -- `_prepare`, after the retrieval.
  unfoldable pub prepared : Ask → Prompt → RetrievalResult F → Prepared F
  unfolding system_of build_context untrusted_context render
  prepared ask prompt retrieval =
      let (context_block, sources) =
        build_context env.is_word retrieval.context (untrusted_context prompt) in
      let abstain = below_gate retrieval.reranked in
      record {
        prompt = prompt;
        retrieval = retrieval;
        sources = if abstain then [] else sources;
        system = if abstain then system_text else system_of sources;
        user_message = if abstain then [] else render prompt context_block ask.question;
        abstain_pre_generation = abstain;
        retrieval_mode = or_else ask.retrieval_mode hybrid;
        rerank_top_k = or_else ask.rerank_top_k settings.rerank_top_k;
        candidate_k = ask.candidate_k;
        fts_match = or_else ask.fts_match settings.fts_match;
      }

  abbrev pub prompt_for : Ask → Result Failure Prompt
  prompt_for ask =
      let name = or_text ask.prompt_name settings.answer_prompt_name in
      prompt_or_failure name (load_prompt env.read_text env.sha256 name)

  -- `_prepare`
  unfoldable pub prepare : Stopwatch F → Ask → Result Failure (Prepared F)
  unfolding prepared retrieve_context load_prompt
  prepare watch ask = do
    prompt ← prompt_for ask
    retrieval ← search_or_failure (
        retrieve_context fl settings db models rerank watch ask.tenant_id ask.question ask.strategy
          ask.retrieval_mode ask.candidate_k ask.rerank_top_k none
          (some (or_else ask.fts_match settings.fts_match)))
    ok (prepared ask prompt retrieval)

  -- `_config_hash`
  unfoldable pub config_hash : Prepared F → Option Text → Text
  unfolding compute_config_hash nat_eq
  config_hash prep strategy = compute_config_hash env.dumps env.sha256 (
      (txt "retrieval_strategy", text (or_text strategy settings.retrieval_strategy))
      ∷ (txt "retrieval_mode", text (mode_name prep.retrieval_mode))
      ∷ (txt "hybrid_candidate_k", int (or_number prep.candidate_k settings.hybrid_candidate_k))
      ∷ (txt "hybrid_top_k", int (or_number prep.candidate_k settings.hybrid_top_k))
      ∷ (txt "rrf_k", int settings.rrf_k)
      ∷ (txt "rrf_weight_vector", float settings.rrf_weight_vector)
      ∷ (txt "rrf_weight_fts", float settings.rrf_weight_fts)
      ∷ (txt "rrf_weight_trgm", float settings.rrf_weight_trgm)
      ∷ (txt "fts_match", text (match_name prep.fts_match))
      ∷ (txt "reranker_provider", text settings.reranker_provider)
      ∷ (txt "reranker_model", text settings.reranker_model)
      ∷ (txt "reranker_max_length", int settings.reranker_max_length)
      ∷ (txt "rerank_top_k", int prep.rerank_top_k)
      ∷ (txt "context_token_budget", int settings.context_token_budget)
      ∷ (txt "min_rerank_score_for_answer", float settings.min_rerank_score_for_answer)
      ∷ (txt "llm_provider", text settings.llm_provider)
      ∷ (txt "llm_model", text settings.llm_model)
      ∷ (txt "llm_temperature", float settings.llm_temperature)
      ∷ (txt "llm_max_tokens", int settings.llm_max_tokens)
      ∷ (txt "prompt_name", text prep.prompt.name)
      ∷ (txt "prompt_sha256", text prep.prompt.sha256)
      ∷ [])

  -- The row of `_log_query`.
  unfoldable pub query_row :
      Ask → Prepared F → Text → Bool → F → Text → Option ℕ → Option ℕ → QueryLog F
  unfolding config_hash calculate_cost
  query_row ask prep answer abstained generation_ms model prompt_tokens completion_tokens = record {
    request_id = ask.request_id;
    tenant_id = ask.tenant_id;
    question = ask.question;
    config_hash = config_hash prep ask.strategy;
    retrieved_ids = map (λ c. c.chunk_id) prep.retrieval.context;
    answer = answer;
    abstained = abstained;
    retrieval_ms = fl.round prep.retrieval.timing.total_ms 0;
    generation_ms = fl.round generation_ms 0;
    total_ms = fl.round (fl.add prep.retrieval.timing.total_ms generation_ms) 0;
    prompt_tokens = or_else prompt_tokens 0;
    completion_tokens = or_else completion_tokens 0;
    cost_usd = calculate_cost fl env.pricing model prompt_tokens completion_tokens;
  }

  -- `_log_query`: the cost, and the table after it.
  unfoldable pub log_query :
      Ask
      → Prepared F
      → Text
      → Bool
      → F
      → Text
      → Option ℕ
      → Option ℕ
      → List (QueryLog F)
      → Result Failure (Option F × List (QueryLog F))
  unfolding query_row record_query_log
  log_query ask prep answer abstained generation_ms model prompt_tokens completion_tokens rows =
      let row =
        query_row ask prep answer abstained generation_ms model prompt_tokens completion_tokens in
      do after ← record_query_log env.commit row rows; ok (row.cost_usd, after)
