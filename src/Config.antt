-- ===== src/Config.antt =====
-- The settings that the modelled code reads: backend/src/app/core/config.py.
use normeon_german_technical.Prelude.{ℕ, Text}

-- `FtsMatch` and `RetrievalMode` of backend/src/app/domain/models.py.
pub data FtsMatch : Type 0 where
  match_all match_any : FtsMatch

pub data RetrievalMode : Type 0 where
  vector fts hybrid : RetrievalMode

pub record Settings (F : Type 0) : Type 0 where
  pub retrieval_strategy : Text
  pub retrieval_top_k : ℕ
  pub hnsw_ef_search : ℕ
  pub trgm_code_threshold : F
  pub fts_match : FtsMatch
  pub hybrid_candidate_k : ℕ
  pub hybrid_top_k : ℕ
  pub rrf_k : ℕ
  pub rrf_weight_vector : F
  pub rrf_weight_fts : F
  pub rrf_weight_trgm : F
  pub reranker_provider : Text
  pub reranker_model : Text
  pub reranker_max_length : ℕ
  pub rerank_top_k : ℕ
  pub context_token_budget : ℕ
  pub llm_provider : Text
  pub llm_model : Text
  pub llm_temperature : F
  pub llm_max_tokens : ℕ
  pub answer_prompt_name : Text
  pub min_rerank_score_for_answer : F
