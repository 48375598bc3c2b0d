-- ===== src/Retrieval/Search/Tests.antt =====
-- The fusion of three branches at concrete hits.
use normeon_german_technical.Prelude.{
  txt, List, [], ◌∷◌, ◌++◌, ◌≡◌, ◌≤◌, none, some, ok, All, Distinct, length, take, nat_eq, arith,
}
use normeon_german_technical.Prelude.Dict.{Dict}
use normeon_german_technical.Scalar.Fixed.{Fixed, pos, fixed}
use normeon_german_technical.Retrieval.{Uuid, RetrievedChunk}
use normeon_german_technical.Fusion.{rrf}
use normeon_german_technical.Retrieval.Search.{ids, fuse_branches}
use normeon_german_technical.Retrieval.Search.Hybrid.{scored_ids, IsFusedHit, fuse_branches_lem}
use normeon_german_technical.Fixtures.{chunk}

abbrev vec_hits : List (RetrievedChunk Fixed)
vec_hits = chunk 101 none (txt "eins") ∷ chunk 102 none (txt "zwei") ∷ []

abbrev fts_hits : List (RetrievedChunk Fixed)
fts_hits = chunk 102 none (txt "zwei") ∷ []

fuse_branches_lem_example :
    (fused : Dict Uuid Fixed) × (out : List (RetrievedChunk Fixed)) × (rrf fixed
        (ids vec_hits ∷ ids fts_hits ∷ ids {F = Fixed} [] ∷ [])
        60
        (some (pos 1000000 ∷ pos 1000000 ∷ pos 1000000 ∷ []))
      ≡ ok fused)
    × (fuse_branches fixed 60 1 (pos 1000000 ∷ pos 1000000 ∷ pos 1000000 ∷ []) vec_hits fts_hits []
        ≡ ok out)
    × (scored_ids out ≡ take 1 fused)
    × Distinct (ids out)
    × (length out ≤ 1)
    × All (IsFusedHit (vec_hits ++ (fts_hits ++ []))) out
fuse_branches_lem_example =
    fuse_branches_lem fixed (pos 1000000) (pos 1000000) (pos 1000000) vec_hits fts_hits [] 60 1
      (omega arith)
