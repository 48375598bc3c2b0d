-- ===== src/Retrieval/Search.antt =====
-- The three branches and their fusion: vector.py, lexical.py, _sql.py and hybrid.py of
-- backend/src/app/services/retrieval/. The database, the embedding model and the text
-- normalisation are parameters.
pub mod Hybrid
mod Tests
use normeon_german_technical.Prelude.{
  ℕ, Text, Bool, true, false, Option, none, some, List, [], ◌∷◌, ◌++◌, map, take, keep, not,
  contains, nat_eq, Result, ok, err, ◌>>=◌,
}
use normeon_german_technical.Prelude.Dict.{Dict, lookup, set_default}
use normeon_german_technical.Scalar.{FloatOps}
use normeon_german_technical.Config.{Settings, FtsMatch, match_all, match_any}
use normeon_german_technical.Fusion.{FusionError, rrf}
use normeon_german_technical.Retrieval.{Uuid, RetrievedChunk}

-- The columns that every branch selects.
pub record Row (F : Type 0) : Type 0 where
  pub chunk_id : Uuid
  pub document_id : Uuid
  pub filename : Text
  pub content : Text
  pub page_from : ℕ
  pub page_to : ℕ
  pub section_path : Option Text
  pub heading : Option Text
  pub score : F
  pub version_label : Option Text
  pub ocr : Bool

unfoldable pub row_to_chunk : {F : Type 0} → Row F → RetrievedChunk F
row_to_chunk row = record {
  chunk_id = row.chunk_id;
  document_id = row.document_id;
  filename = row.filename;
  content = row.content;
  page_from = row.page_from;
  page_to = row.page_to;
  section_path = row.section_path;
  heading = row.heading;
  score = row.score;
  version_label = row.version_label;
  ocr = row.ocr;
}

-- The rows that the three statements return: by query vector, model, tenant, strategy, limit and
-- `hnsw.ef_search`; by question, whether any term suffices, tenant, strategy and limit; by code,
-- similarity threshold, tenant, strategy and limit.
pub record Database (F V : Type 0) : Type 0 where
  pub vector_rows : V → Text → Uuid → Text → ℕ → ℕ → List (Row F)
  pub fts_rows : Text → Bool → Uuid → Text → ℕ → List (Row F)
  pub trgm_rows : Text → F → Uuid → Text → ℕ → List (Row F)

-- The embedding model, and the two functions of backend/src/app/domain/normalization.py.
pub record Models (V : Type 0) : Type 0 where
  pub name : Text
  pub embed_query : Text → V
  pub normalize_de : Text → Text
  pub extract_code : Text → Option Text

-- `value or default`, for a text.
abbrev pub or_text : Option Text → Text → Text
or_text none default = default
or_text (some []) default = default
or_text (some (c ∷ text)) default = c ∷ text

-- `value if value is not None else default`
abbrev pub or_else {ℓ} : {A : Type ℓ} → Option A → A → A
or_else none default = default
or_else (some value) default = value

abbrev pub is_any : FtsMatch → Bool
is_any match_all = false
is_any match_any = true

-- `hybrid_search` raises where `rrf` does, and where `by_id` lacks a fused id.
pub data SearchError : Type 0 where
  fusion : FusionError → SearchError
  key_error : SearchError

module _ {F : Type 0} where
  -- `{hit.chunk_id for hit in hits}`, and the keys of the rankings
  abbrev pub ids : List (RetrievedChunk F) → List Uuid
  ids [] = []
  ids (hit ∷ hits) = hit.chunk_id ∷ ids hits

  -- The loop that fills `by_id`: the first hit of an id stays.
  unfoldable pub index_hits :
      List (RetrievedChunk F) → Dict Uuid (RetrievedChunk F) → Dict Uuid (RetrievedChunk F)
  unfolding nat_eq
  index_hits [] by_id = by_id
  index_hits (hit ∷ hits) by_id = index_hits hits (set_default hit.chunk_id hit by_id)

  -- `by_id[chunk_id]`
  abbrev require : Option (RetrievedChunk F) → Result SearchError (RetrievedChunk F)
  require none = err key_error
  require (some hit) = ok hit

  unfoldable pub rehydrate :
      Dict Uuid (RetrievedChunk F) → List (Uuid × F) → Result SearchError (List (RetrievedChunk F))
  unfolding nat_eq
  rehydrate by_id [] = ok []
  rehydrate by_id ((chunk_id, score) ∷ fused) = do
    hit ← require (lookup chunk_id by_id)
    hits ← rehydrate by_id fused
    ok (record hit { score = score } ∷ hits)

  abbrev fused_or_error :
      Result FusionError (List (Uuid × F)) → Result SearchError (List (Uuid × F))
  fused_or_error (ok fused) = ok fused
  fused_or_error (err e) = err (fusion e)

module _ {F : Type 0} (fl : FloatOps F) where
  -- The part of `hybrid_search` behind the branches.
  unfoldable pub fuse_branches :
      ℕ
      → ℕ
      → List F
      → List (RetrievedChunk F)
      → List (RetrievedChunk F)
      → List (RetrievedChunk F)
      → Result SearchError (List (RetrievedChunk F))
  unfolding index_hits rehydrate rrf
  fuse_branches rrf_k top_k weights vec_hits fts_hits trgm_hits = do
    fused ←
        fused_or_error
          (rrf fl (ids vec_hits ∷ ids fts_hits ∷ ids trgm_hits ∷ []) rrf_k (some weights))
    rehydrate (index_hits (vec_hits ++ (fts_hits ++ trgm_hits)) []) (take top_k fused)

module _ {F V : Type 0} (fl : FloatOps F) (settings : Settings F) (db : Database F V)
    (models : Models V) where
  unfoldable pub vector_search_by_vector :
      Uuid → V → Text → Option Text → Option ℕ → Option ℕ → List (RetrievedChunk F)
  unfolding row_to_chunk
  vector_search_by_vector tenant_id query_vector model strategy k ef_search = map row_to_chunk (
      db.vector_rows query_vector model tenant_id (or_text strategy settings.retrieval_strategy)
        (or_else k settings.retrieval_top_k) (or_else ef_search settings.hnsw_ef_search))

  unfoldable pub vector_search :
      Uuid → Text → Option Text → Option ℕ → Option ℕ → List (RetrievedChunk F)
  unfolding vector_search_by_vector
  vector_search tenant_id question strategy k ef_search =
      vector_search_by_vector tenant_id (models.embed_query question) models.name strategy k
        ef_search

  unfoldable pub fts_branch : Uuid → Text → Text → ℕ → Option FtsMatch → List (RetrievedChunk F)
  unfolding row_to_chunk
  fts_branch tenant_id question strategy k fts_match = map row_to_chunk (
      db.fts_rows (models.normalize_de question) (is_any (or_else fts_match settings.fts_match))
        tenant_id strategy k)

  unfoldable pub trgm_branch : Uuid → Text → Text → ℕ → List (RetrievedChunk F)
  unfolding row_to_chunk
  trgm_branch tenant_id question strategy k = elim (models.extract_code question) [
    | none ↦ []
    | some code ↦
        map row_to_chunk (db.trgm_rows code settings.trgm_code_threshold tenant_id strategy k)
  ]

  unfoldable pub fts_search :
      Uuid → Text → Option Text → Option ℕ → Option FtsMatch → List (RetrievedChunk F)
  unfolding fts_branch trgm_branch nat_eq
  fts_search tenant_id question strategy k fts_match =
      let applied = or_text strategy settings.retrieval_strategy in
      let limit = or_else k settings.retrieval_top_k in
      let hits = fts_branch tenant_id question applied limit fts_match in
      let trgm_hits = trgm_branch tenant_id question applied limit in
      take limit (hits ++ keep (λ hit. not (contains (ids hits) hit.chunk_id)) trgm_hits)

  unfoldable pub hybrid_search :
      Uuid
      → Text
      → Option Text
      → Option ℕ
      → Option ℕ
      → Option ℕ
      → Option ℕ
      → Option (F × F × F)
      → Option FtsMatch
      → Result SearchError (List (RetrievedChunk F))
  unfolding fuse_branches vector_search fts_branch trgm_branch
  hybrid_search tenant_id question strategy candidate_k top_k ef_search rrf_k weights fts_match =
      let applied = or_text strategy settings.retrieval_strategy in
      let candidates = or_else candidate_k settings.hybrid_candidate_k in
      let kept = or_else top_k settings.hybrid_top_k in
      let (w_vec, w_fts, w_trgm) =
        or_else weights
          (settings.rrf_weight_vector, settings.rrf_weight_fts, settings.rrf_weight_trgm) in
      fuse_branches fl (or_else rrf_k settings.rrf_k) kept (w_vec ∷ w_fts ∷ w_trgm ∷ [])
        (vector_search tenant_id question (some applied) (some candidates) ef_search)
        (fts_branch tenant_id question applied candidates fts_match)
        (trgm_branch tenant_id question applied candidates)
