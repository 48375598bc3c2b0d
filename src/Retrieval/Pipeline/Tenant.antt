-- ===== src/Retrieval/Pipeline/Tenant.antt =====
-- The tenant of the chunks that backend/src/app/services/retrieval/ returns, through fusion,
-- reranking and selection.
use normeon_german_technical.Retrieval.Pipeline.{
  pipeline_timing, select_context, Rerank, Stopwatch, retrieve, retrieve_context,
}
use normeon_german_technical.Prelude.{
  sym, subst, if◌then◌else◌, nat_eq, ℕ, Text, Bool, true, false, Option, none, some, List, [], ◌∷◌,
  keep, map, All, All-append, All-take, ok, ◌≡◌, arith, refl, ◌<◌,
}
use normeon_german_technical.Scalar.{FloatOps}
use normeon_german_technical.Config.{Settings, FtsMatch, RetrievalMode, vector, fts, hybrid}
use normeon_german_technical.Retrieval.{Uuid, RetrievedChunk, RetrievalResult}
use normeon_german_technical.Retrieval.Search.{
  Database, Models, Row, row_to_chunk, vector_search, fts_branch, trgm_branch, fts_search,
  hybrid_search, fuse_branches, or_else, or_text,
}
use normeon_german_technical.Retrieval.Search.Hybrid.{IsFusedHit, first_hit, fuse_branches_lem}
use normeon_german_technical.Retrieval.Select.Laws.{select_context-All}

-- `owner` is the tenant of a chunk. The three statements end in `WHERE c.tenant_id = :tenant_id`.
pub record FiltersByTenant {F V : Type 0} (owner : Uuid → Uuid) (db : Database F V) : Type 0 where
  pub vector_rows_owner :
      (q : V) (model : Text) (tenant : Uuid) (strategy : Text) (k ef : ℕ)
      → All
          (λ (row : Row F). owner row.chunk_id ≡ tenant)
          (db.vector_rows q model tenant strategy k ef)
  pub fts_rows_owner :
      (q : Text) (any : Bool) (tenant : Uuid) (strategy : Text) (k : ℕ)
      → All (λ (row : Row F). owner row.chunk_id ≡ tenant) (db.fts_rows q any tenant strategy k)
  pub trgm_rows_owner :
      (code : Text) (threshold : F) (tenant : Uuid) (strategy : Text) (k : ℕ)
      → All
          (λ (row : Row F). owner row.chunk_id ≡ tenant)
          (db.trgm_rows code threshold tenant strategy k)

-- A reranker returns only chunks that it was given, in any order and with any score.
abbrev pub ReturnsGiven : {F : Type 0} → Rerank F → Type 1
ReturnsGiven {F} rerank =
    (P : Uuid → Type 0) (query : Text) (chunks : List (RetrievedChunk F)) (top_k : ℕ)
    → All (λ (chunk : RetrievedChunk F). P chunk.chunk_id) chunks
    → All (λ (chunk : RetrievedChunk F). P chunk.chunk_id) (rerank query chunks top_k)

module _ {F : Type 0} (P : Uuid → Type 0) where
  -- Every chunk's id has the property.
  abbrev pub AllIds : List (RetrievedChunk F) → Type 0
  AllIds = All (λ (chunk : RetrievedChunk F). P chunk.chunk_id)

  AllIds-rows :
      (rows : List (Row F))
      → All (λ (row : Row F). P row.chunk_id) rows
      → AllIds (map row_to_chunk rows)
  unfolding row_to_chunk
  AllIds-rows [] h = tt
  AllIds-rows (row ∷ rows) (h, hs) = (h, AllIds-rows rows hs)

  AllIds-keep :
      (p : RetrievedChunk F → Bool) (chunks : List (RetrievedChunk F))
      → AllIds chunks
      → AllIds (keep p chunks)
  AllIds-keep p [] h = tt
  AllIds-keep p (chunk ∷ chunks) (h, hs) =
      elim (p chunk) as (λ b. AllIds (if b then chunk ∷ keep p chunks else keep p chunks)) [
        | true ↦ (h, AllIds-keep p chunks hs)
        | false ↦ AllIds-keep p chunks hs
      ]

  first_hit-AllIds :
      (id : Uuid) (branches : List (RetrievedChunk F)) (raw : RetrievedChunk F)
      → AllIds branches
      → first_hit id branches ≡ some raw
      → P id
  first_hit-AllIds id [] raw h e = absurd (cc)
  first_hit-AllIds id (chunk ∷ branches) raw (h, hs) e = elim (nat_eq.dec id chunk.chunk_id) [
    | yes p ↦ subst P (sym p) h
    | no p ↦ first_hit-AllIds id branches raw hs (ground arith)
  ]

  fused-AllIds :
      (branches out : List (RetrievedChunk F))
      → AllIds branches
      → All (IsFusedHit branches) out
      → AllIds out
  fused-AllIds branches [] h _ = tt
  fused-AllIds branches (hit ∷ out) h ((raw, e, _), hs) =
      (first_hit-AllIds hit.chunk_id branches raw h e, fused-AllIds branches out h hs)

  fuse_branches-owner :
      (fl : FloatOps F) (rrf_k top_k : ℕ) (w_vec w_fts w_trgm : F)
      (vec_hits fts_hits trgm_hits : List (RetrievedChunk F))
      → 0 < rrf_k
      → AllIds vec_hits
      → AllIds fts_hits
      → AllIds trgm_hits
      → (out : List (RetrievedChunk F)) × (fuse_branches fl rrf_k top_k
            (w_vec ∷ w_fts ∷ w_trgm ∷ [])
            vec_hits
            fts_hits
            trgm_hits
          ≡ ok out)
        × AllIds out
  fuse_branches-owner fl rrf_k top_k w_vec w_fts w_trgm vec_hits fts_hits trgm_hits pos h j k =
      let (_, out, _, done, _, _, _, hits) =
        fuse_branches_lem fl w_vec w_fts w_trgm vec_hits fts_hits trgm_hits rrf_k top_k pos in
      (
        out,
        done,
        fused-AllIds _ out (All-append _ vec_hits _ h (All-append _ fts_hits trgm_hits j k)) hits,
      )

module _ {F V : Type 0} {owner : Uuid → Uuid} (fl : FloatOps F) (settings : Settings F)
    (db : Database F V) (models : Models V) (filters : FiltersByTenant owner db)
    (tenant : Uuid) where
  abbrev Owned : Uuid → Type 0
  Owned id = owner id ≡ tenant

  vector_search-owner :
      (question : Text) (strategy : Option Text) (k ef : Option ℕ)
      → AllIds Owned (vector_search fl settings db models tenant question strategy k ef)
  unfolding vector_search
  vector_search-owner question strategy k ef =
      AllIds-rows Owned _ (filters.vector_rows_owner _ _ tenant _ _ _)

  fts_branch-owner :
      (question strategy : Text) (k : ℕ) (fts_match : Option FtsMatch)
      → AllIds Owned (fts_branch fl settings db models tenant question strategy k fts_match)
  unfolding fts_branch
  fts_branch-owner question strategy k fts_match =
      AllIds-rows Owned _ (filters.fts_rows_owner _ _ tenant _ _)

  trgm_branch-owner :
      (question strategy : Text) (k : ℕ)
      → AllIds Owned (trgm_branch fl settings db models tenant question strategy k)
  unfolding trgm_branch
  trgm_branch-owner question strategy k =
      elim (models.extract_code question)
        as (λ code. AllIds Owned (elim code [
          | none ↦ []
          | some c ↦
              map row_to_chunk (db.trgm_rows c settings.trgm_code_threshold tenant strategy k)
        ])) [ none ↦ tt | some c ↦ AllIds-rows Owned _ (filters.trgm_rows_owner c _ tenant _ _) ]

  fts_search-owner :
      (question : Text) (strategy : Option Text) (k : Option ℕ) (fts_match : Option FtsMatch)
      → AllIds Owned (fts_search fl settings db models tenant question strategy k fts_match)
  unfolding fts_search
  fts_search-owner question strategy k fts_match = All-take _ _ _ (
      All-append _ _ _ (fts_branch-owner question _ _ fts_match)
        (AllIds-keep Owned _ _ (trgm_branch-owner question _ _)))

  retrieve-owner :
      (mode : RetrievalMode) (question : Text) (strategy : Option Text) (candidate_k : Option ℕ)
      (fts_match : Option FtsMatch)
      → 0 < settings.rrf_k
      → (fused : List (RetrievedChunk F)) × (retrieve fl settings db models mode tenant question
            strategy candidate_k fts_match
          ≡ ok fused)
        × AllIds Owned fused
  unfolding retrieve hybrid_search
  retrieve-owner vector question strategy candidate_k fts_match pos = (
    _,
    refl,
    vector_search-owner question strategy (some (or_else candidate_k settings.hybrid_candidate_k))
        none,
  )
  retrieve-owner fts question strategy candidate_k fts_match pos = (
    _,
    refl,
    fts_search-owner question strategy (some (or_else candidate_k settings.hybrid_candidate_k))
        fts_match,
  )
  retrieve-owner hybrid question strategy candidate_k fts_match pos =
      let applied = or_text strategy settings.retrieval_strategy in
      let candidates = or_else candidate_k settings.hybrid_candidate_k in
      fuse_branches-owner Owned fl settings.rrf_k (or_else candidate_k settings.hybrid_top_k)
        settings.rrf_weight_vector settings.rrf_weight_fts settings.rrf_weight_trgm _ _ _ pos
        (vector_search-owner question (some applied) (some candidates) none)
        (fts_branch-owner question applied candidates fts_match)
        (trgm_branch-owner question applied candidates)

  -- Where the statements return only chunks of the tenant that they are given and the reranker only
  -- chunks that it is given, `retrieve_context` returns a result in every mode, with no error, for an
  -- `rrf_k` above 0, and every chunk of its reranked list and of its context belongs to the tenant
  -- that asked.
  pub retrieve_context-owner :
      (rerank : Rerank F) (watch : Stopwatch F) (question : Text) (strategy : Option Text)
      (mode : Option RetrievalMode) (candidate_k rerank_top_k token_budget : Option ℕ)
      (fts_match : Option FtsMatch)
      → ReturnsGiven rerank
      → 0 < settings.rrf_k
      → (result : RetrievalResult F) × (retrieve_context fl settings db models rerank watch tenant
            question strategy mode candidate_k rerank_top_k token_budget fts_match
          ≡ ok result)
        × AllIds Owned result.reranked
        × AllIds Owned result.context
  unfolding retrieve_context
  retrieve_context-owner rerank watch question strategy mode candidate_k rerank_top_k token_budget
        fts_match given pos =
      let (fused, done, owned) =
        retrieve-owner (or_else mode hybrid) question strategy candidate_k fts_match pos in
      let kept = given Owned question fused (or_else rerank_top_k settings.rerank_top_k) owned in
      let reranked = rerank question fused (or_else rerank_top_k settings.rerank_top_k) in
      let budget = or_else token_budget settings.context_token_budget in
      (
        record {
          context = select_context reranked budget;
          reranked = reranked;
          timing = pipeline_timing fl watch;
        },
        rw done,
        kept,
        select_context-All _ budget reranked kept,
      )
