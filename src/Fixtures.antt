-- ===== src/Fixtures.antt =====
-- Small inputs for the runs and the examples of the modules `Tests`, among them a database, a
-- language model and settings like those of backend/src/app/core/config.py.
use normeon_german_technical.Generation.{given, Env, Ask}
use normeon_german_technical.Prelude.{
  ℕ, ◌+◌, ◌*◌, ◌/◌, Text, txt, true, false, Option, none, some, List, [], ◌∷◌, take, ok,
}
use normeon_german_technical.Scalar.Fixed.{Fixed, pos}
use normeon_german_technical.Config.{Settings, match_all}
use normeon_german_technical.Retrieval.{Uuid, RetrievedChunk}
use normeon_german_technical.Retrieval.Search.{Row, Database, Models}
use normeon_german_technical.Retrieval.Pipeline.{Stopwatch}
use normeon_german_technical.Generation.Answer.{LlmClient, CallTime, LlmResponse, Delta}

abbrev pub settings : Settings Fixed
settings = record {
  retrieval_strategy = txt "structure";
  retrieval_top_k = 5;
  hnsw_ef_search = 100;
  trgm_code_threshold = pos 300000;
  fts_match = match_all;
  hybrid_candidate_k = 20;
  hybrid_top_k = 20;
  rrf_k = 60;
  rrf_weight_vector = pos 1000000;
  rrf_weight_fts = pos 1000000;
  rrf_weight_trgm = pos 1000000;
  reranker_provider = txt "noop";
  reranker_model = txt "m";
  reranker_max_length = 512;
  rerank_top_k = 8;
  context_token_budget = 4;
  llm_provider = txt "fake";
  llm_model = txt "fake";
  llm_temperature = pos 0;
  llm_max_tokens = 100;
  answer_prompt_name = txt "v2";
  min_rerank_score_for_answer = pos 0;
}

abbrev pub row : Uuid → Text → Fixed → Row Fixed
row id content score = record {
  chunk_id = id;
  document_id = 7;
  filename = txt "lh.pdf";
  content = content;
  page_from = 1;
  page_to = 2;
  section_path = some (txt "3.2");
  heading = none;
  score = score;
  version_label = some (txt "v1");
  ocr = false;
}

-- A chunk of a section.
abbrev pub chunk : Uuid → Option Text → Text → RetrievedChunk Fixed
chunk id section_path content = record {
  chunk_id = id;
  document_id = 7;
  filename = txt "lh.pdf";
  content = content;
  page_from = 1;
  page_to = 2;
  section_path = section_path;
  heading = none;
  score = pos 500000;
  version_label = some (txt "v1");
  ocr = false;
}

-- The chunks of a tenant have the ids from `100 * tenant` on.
abbrev pub owner : Uuid → Uuid
owner id = id / 100

abbrev pub rows : Uuid → List (Row Fixed)
rows tenant =
    row (tenant * 100 + 1) (txt "LH 3.2.1 ist verbindlich") (pos 900000)
    ∷ row (tenant * 100 + 2) (txt "UN R79") (pos 400000)
    ∷ []

abbrev pub database : Database Fixed ℕ
database = record {
  vector_rows = λ q model tenant strategy k ef. take k (rows tenant);
  fts_rows = λ q any tenant strategy k. take k (rows tenant);
  trgm_rows = λ code threshold tenant strategy k. take k (rows tenant);
}

abbrev pub models : Models ℕ
models = record {
  name = txt "e5";
  embed_query = λ q. 3;
  normalize_de = λ t. t;
  extract_code = λ t. none;
}

abbrev pub watch : Stopwatch Fixed
watch = record {
  started = pos 0;
  after_hybrid = pos 1000;
  after_rerank = pos 2000;
  after_select = pos 3000;
}

abbrev pub call_time : CallTime Fixed
call_time = record { started = pos 4000; ended = pos 9000 }

abbrev pub env : Env Fixed
env = record {
  read_text = λ name. some (txt "{{CONTEXT}} {{QUESTION}}");
  sha256 = λ t. t;
  dumps = λ d. [];
  extract_all_codes = λ t. txt "lh3.2.1" ∷ [];
  is_word = λ c. true;
  pricing = [];
  commit = λ r. none;
  message_of = λ e. txt "failed";
  code_attr = λ e. given (txt "gkpj");
}

abbrev pub ask : Ask
ask = record {
  tenant_id = 1;
  question = txt "Was?";
  strategy = none;
  retrieval_mode = none;
  rerank_top_k = none;
  candidate_k = none;
  prompt_name = none;
  fts_match = none;
  request_id = txt "r1";
}

abbrev pub completion : LlmResponse
completion = record {
  text = txt "Ja [S1], auch [S9].";
  model = txt "fake-1";
  prompt_tokens = some 10;
  completion_tokens = none;
}

abbrev pub deltas : List Delta
deltas =
    record { text = txt "Ja [S1]"; model = none; prompt_tokens = none; completion_tokens = none }
    ∷ record {
      text = txt ", auch [S9].";
      model = some (txt "fake-1");
      prompt_tokens = some 10;
      completion_tokens = none;
    }
    ∷ []

abbrev pub llm : LlmClient Fixed
llm = record {
  name = txt "fake";
  complete = λ s u t m. ok completion;
  stream = λ s u t m. (deltas, none);
}
