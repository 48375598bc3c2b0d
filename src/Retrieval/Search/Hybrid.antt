-- ===== src/Retrieval/Search/Hybrid.antt =====
-- What `hybrid_search` of backend/src/app/services/retrieval/hybrid.py makes of its branches.
use normeon_german_technical.Prelude.{
  length-take, take-Distinct, All-take, ◌≤◌, Distinct, ◌||◌, suc, zero, ◌<◌, take, ap, ◌++◌, length,
  ℕ, Eq, ◌≡◌, refl, true, Option, none, some, List, [], ◌∷◌, contains, All, nat_eq, ◌==◌,
  if◌then◌else◌, ok, arith, sym,
}
use normeon_german_technical.Prelude.Dict.{
  contains-keys, keys, Dict, lookup, set_default, lookup-set_default,
}
use normeon_german_technical.Fusion.Scores.{rrf_scores}
use normeon_german_technical.Retrieval.Search.{
  rrf, fuse_branches, FloatOps, ids, index_hits, rehydrate,
}
use normeon_german_technical.Retrieval.{Uuid, RetrievedChunk}

module _ {F : Type 0} where
  -- The first hit of an id.
  abbrev pub first_hit : Uuid → List (RetrievedChunk F) → Option (RetrievedChunk F)
  first_hit id [] = none
  first_hit id (hit ∷ hits) = if id == hit.chunk_id then some hit else first_hit id hits

  lookup-index_hits :
      (id : Uuid) (hits : List (RetrievedChunk F)) (by_id : Dict Uuid (RetrievedChunk F))
      → lookup id (index_hits hits by_id)
        ≡ elim (lookup id by_id) [ some hit ↦ some hit | none ↦ first_hit id hits ]
  unfolding index_hits
  lookup-index_hits id [] by_id = ground arith
  lookup-index_hits id (hit ∷ hits) by_id = ground (
    arith,
    lookup-index_hits id hits (set_default hit.chunk_id hit by_id),
    lookup-set_default id hit.chunk_id hit by_id,
  )

  first_hit_of_contains :
      (id : Uuid) (hits : List (RetrievedChunk F))
      → contains (ids hits) id ≡ true
      → (hit : RetrievedChunk F) × (first_hit id hits ≡ some hit) × (hit.chunk_id ≡ id)
  first_hit_of_contains id [] h = absurd (cc)
  first_hit_of_contains id (hit ∷ hits) h = elim (nat_eq.dec id hit.chunk_id) [
    | yes p ↦ (hit, ground arith, sym p)
    | no p ↦
        let (found, q, r) = first_hit_of_contains id hits (ground arith) in (found, ground arith, r)
  ]

  -- A hit of the fused list: the first branch hit of its id, with the fused score.
  abbrev pub IsFusedHit : List (RetrievedChunk F) → RetrievedChunk F → Type 0
  IsFusedHit branches hit =
      (raw : RetrievedChunk F) × (first_hit hit.chunk_id branches ≡ some raw)
      × (hit ≡ record raw { score = hit.score })

  abbrev pub scored_ids : List (RetrievedChunk F) → List (Uuid × F)
  scored_ids [] = []
  scored_ids (hit ∷ hits) = (hit.chunk_id, hit.score) ∷ scored_ids hits

  rehydrate_total :
      (branches : List (RetrievedChunk F)) (fused : List (Uuid × F))
      → All (λ (entry : Uuid × F). contains (ids branches) entry.0 ≡ true) fused
      → (out : List (RetrievedChunk F)) × (rehydrate (index_hits branches []) fused ≡ ok out)
        × (scored_ids out ≡ fused)
        × All (IsFusedHit branches) out
  unfolding rehydrate
  rehydrate_total branches [] h = ([], refl, refl, tt)
  rehydrate_total branches ((id, score) ∷ fused) (h, hs) =
      let (raw, p, q) = first_hit_of_contains id branches h in
      let (out, r, s, t) = rehydrate_total branches fused hs in
      (
        record raw { score = score } ∷ out,
        ground (arith, lookup-index_hits id branches []),
        ground arith,
        ((raw, rw q p, refl), t),
      )

All-entries {κ} :
    {K V : Type 0} ⦃e : Eq K⦄ (P : K → Type κ) (d : Dict K V)
    → ((k : K) → contains (keys d) k ≡ true → P k)
    → All (λ (entry : K × V). P entry.0) d
All-entries P [] h = tt
All-entries P ((k, v) ∷ d) h = (h k (ground arith), All-entries P d (λ j m. h j (ground arith)))

keys-take : {K V : Type 0} (n : ℕ) (d : Dict K V) → keys (take n d) ≡ take n (keys d)
keys-take zero d = refl
keys-take (suc n) [] = refl
keys-take (suc n) ((k, v) ∷ d) = ap (◌∷◌ k) (keys-take n d)

module _ {F : Type 0} where
  contains-ids-append :
      (a b : List (RetrievedChunk F)) (id : Uuid)
      → contains (ids (a ++ b)) id ≡ (contains (ids a) id || contains (ids b) id)
  contains-ids-append [] b id = refl
  contains-ids-append (hit ∷ a) b id = ground (arith, contains-ids-append a b id)

  keys-scored_ids : (hits : List (RetrievedChunk F)) → keys (scored_ids hits) ≡ ids hits
  keys-scored_ids [] = refl
  keys-scored_ids (hit ∷ hits) = ap (◌∷◌ hit.chunk_id) (keys-scored_ids hits)

  length-scored_ids : (hits : List (RetrievedChunk F)) → length (scored_ids hits) ≡ length hits
  length-scored_ids [] = refl
  length-scored_ids (hit ∷ hits) = ap suc (length-scored_ids hits)

module _ {F : Type 0} (fl : FloatOps F) (w_vec w_fts w_trgm : F)
    (vec_hits fts_hits trgm_hits : List (RetrievedChunk F)) where
  abbrev rankings : List (List Uuid)
  rankings = ids vec_hits ∷ ids fts_hits ∷ ids trgm_hits ∷ []

  abbrev branches : List (RetrievedChunk F)
  branches = vec_hits ++ (fts_hits ++ trgm_hits)

  fuse_branches_of_parts :
      (rrf_k top_k : ℕ) {fused : Dict Uuid F} {out : List (RetrievedChunk F)}
      → rrf fl rankings rrf_k (some (w_vec ∷ w_fts ∷ w_trgm ∷ [])) ≡ ok fused
      → rehydrate (index_hits branches []) (take top_k fused) ≡ ok out
      → fuse_branches fl rrf_k top_k (w_vec ∷ w_fts ∷ w_trgm ∷ []) vec_hits fts_hits trgm_hits
        ≡ ok out
  unfolding fuse_branches
  fuse_branches_of_parts rrf_k top_k run done = ground arith

  -- With an `rrf_k` above 0, `hybrid_search` raises nothing on the hits of its branches: no fused id
  -- is missing from `by_id`. Its hits are the first `top_k` of the fused ranking, in its order and
  -- with its scores, no chunk twice and `top_k` at most, and each is the first hit of its chunk in
  -- the vector, full-text and trigram hits read in that order, with the score replaced.
  pub fuse_branches_lem :
      (rrf_k top_k : ℕ)
      → 0 < rrf_k
      → (fused : Dict Uuid F) × (out : List (RetrievedChunk F)) × (rrf fl rankings rrf_k
            (some (w_vec ∷ w_fts ∷ w_trgm ∷ []))
          ≡ ok fused)
        × (fuse_branches fl rrf_k top_k (w_vec ∷ w_fts ∷ w_trgm ∷ []) vec_hits fts_hits trgm_hits
            ≡ ok out)
        × (scored_ids out ≡ take top_k fused)
        × Distinct (ids out)
        × (length out ≤ top_k)
        × All (IsFusedHit branches) out
  unfolding fuse_branches
  fuse_branches_lem rrf_k top_k pos =
      let (fused, run, distinct, found) =
        rrf_scores fl rrf_k rankings (w_vec ∷ w_fts ∷ w_trgm ∷ []) pos refl in
      let (out, done, same, hits) = rehydrate_total branches (take top_k fused) (
        All-take (λ (entry : Uuid × F). contains (ids branches) entry.0 ≡ true) top_k fused
          (All-entries (λ id. contains (ids branches) id ≡ true) fused
            (λ id m. ground (
              arith,
              found id,
              contains-keys id fused,
              contains-ids-append vec_hits (fts_hits ++ trgm_hits) id,
              contains-ids-append fts_hits trgm_hits id,
            )))) in
      (
        fused,
        out,
        run,
        fuse_branches_of_parts rrf_k top_k run done,
        same,
        rw (← keys-scored_ids out, same, keys-take) (take-Distinct top_k (keys fused) distinct),
        omega (arith, length-scored_ids out, ap length same, length-take top_k fused),
        hits,
      )
