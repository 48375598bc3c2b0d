-- ===== src/Retrieval/Pipeline.antt =====
-- The retrieval pipeline: `retrieve_context` of backend/src/app/services/retrieval/pipeline.py, and
-- the rerankers of backend/src/app/adapters/reranker/ that it is handed.
pub mod Tenant
mod Tests
use normeon_german_technical.Prelude.{
  ℕ, Text, Option, none, some, List, [], ◌∷◌, take, map, Result, ok, err, ◌>>=◌,
}
use normeon_german_technical.Prelude.Sort.{sort}
use normeon_german_technical.Fusion.{zip}
use normeon_german_technical.Scalar.{FloatOps}
use normeon_german_technical.Config.{Settings, FtsMatch, RetrievalMode, vector, fts, hybrid}
use normeon_german_technical.Retrieval.{Uuid, RetrievedChunk, PipelineTiming, RetrievalResult}
use normeon_german_technical.Retrieval.Select.{select_context}
use normeon_german_technical.Retrieval.Search.{
  Database, Models, SearchError, or_else, vector_search, fts_search, hybrid_search,
}

-- The `Reranker` protocol.
abbrev pub Rerank : Type 0 → Type 0
Rerank F = Text → List (RetrievedChunk F) → ℕ → List (RetrievedChunk F)

-- The readings of `time.perf_counter()`.
pub record Stopwatch (F : Type 0) : Type 0 where
  pub started : F
  pub after_hybrid : F
  pub after_rerank : F
  pub after_select : F

-- `NoopReranker.rerank`
unfoldable pub noop_rerank : {F : Type 0} → Rerank F
noop_rerank query chunks top_k = take top_k chunks

module _ {F : Type 0} (fl : FloatOps F) where
  -- `replace(chunk, score=score)`
  abbrev pub with_score : F × RetrievedChunk F → RetrievedChunk F
  with_score (score, chunk) = record chunk { score = score }

  -- `CrossEncoder.predict` is a parameter. `sorted(…, reverse=True)` keeps the order of ties.
  unfoldable pub cross_encoder_rerank : (Text → List Text → List F) → Rerank F
  unfolding sort zip
  cross_encoder_rerank predict query [] top_k = []
  cross_encoder_rerank predict query (chunk ∷ chunks) top_k = map with_score (
      take top_k (
        sort (λ a b. fl.lt b.0 a.0)
          (zip (predict query (map (λ c. c.content) (chunk ∷ chunks))) (chunk ∷ chunks))))

  -- `round((until - since) * 1000, 1)`
  abbrev pub elapsed_ms : F → F → F
  elapsed_ms since until = fl.round (fl.mul (fl.sub until since) (fl.of_int 1000)) 1

  abbrev pub pipeline_timing : Stopwatch F → PipelineTiming F
  pipeline_timing watch = record {
    hybrid_ms = elapsed_ms watch.started watch.after_hybrid;
    rerank_ms = elapsed_ms watch.after_hybrid watch.after_rerank;
    select_ms = elapsed_ms watch.after_rerank watch.after_select;
    total_ms = elapsed_ms watch.started watch.after_select;
  }

module _ {F V : Type 0} (fl : FloatOps F) (settings : Settings F) (db : Database F V)
    (models : Models V) where
  -- The first phase, by mode.
  unfoldable pub retrieve :
      RetrievalMode
      → Uuid
      → Text
      → Option Text
      → Option ℕ
      → Option FtsMatch
      → Result SearchError (List (RetrievedChunk F))
  unfolding vector_search fts_search hybrid_search
  retrieve vector tenant_id question strategy candidate_k fts_match = ok (
      vector_search fl settings db models tenant_id question strategy
        (some (or_else candidate_k settings.hybrid_candidate_k)) none)
  retrieve fts tenant_id question strategy candidate_k fts_match = ok (
      fts_search fl settings db models tenant_id question strategy
        (some (or_else candidate_k settings.hybrid_candidate_k)) fts_match)
  retrieve hybrid tenant_id question strategy candidate_k fts_match =
      hybrid_search fl settings db models tenant_id question strategy candidate_k candidate_k none
        none none fts_match

  unfoldable pub retrieve_context :
      Rerank F
      → Stopwatch F
      → Uuid
      → Text
      → Option Text
      → Option RetrievalMode
      → Option ℕ
      → Option ℕ
      → Option ℕ
      → Option FtsMatch
      → Result SearchError (RetrievalResult F)
  unfolding retrieve select_context
  retrieve_context rerank watch tenant_id question strategy retrieval_mode candidate_k rerank_top_k
        token_budget fts_match =
      do
        fused ←
            retrieve (or_else retrieval_mode hybrid) tenant_id question strategy candidate_k
              fts_match
        let reranked = rerank question fused (or_else rerank_top_k settings.rerank_top_k)
        ok (record {
          context = select_context reranked (or_else token_budget settings.context_token_budget);
          reranked = reranked;
          timing = pipeline_timing fl watch;
        })
