-- ===== src/Chunking/Structural/Chunks.antt =====
-- The chunks of `StructuralChunker.chunk` of backend/src/app/domain/chunking.py, each against the
-- piece of a section that it is made of.
use normeon_german_technical.Prelude.{
  ℕ, suc, ◌+◌, ◌≡◌, refl, ap, ◌∙◌, subst, Text, txt, Option, none, some, List, [], ◌∷◌, ◌++◌, map,
  length, Eq, nat_eq, list_eq, option_eq, pair_eq, arith, All, sym,
}
use normeon_german_technical.Prelude.Words.{join}
use normeon_german_technical.Prelude.Dict.{Dict}
use normeon_german_technical.Parsing.{ParsedDocument}
use normeon_german_technical.Chunking.{Chunk, estimate_tokens}
use normeon_german_technical.Chunking.Structural.{
  Token, LeafSection, merged_sections, heading_by_path, section_words, section_pieces, breadcrumb,
  with_breadcrumb, piece_chunk, piece_loop, parent_of, section_loop, structural_chunk,
  max_section_tokens,
}
use normeon_german_technical.Chunking.Structural.Sections.{
  Cut, IsCut, blocks_in, pieces_in, cuts_of, blocks_in-cuts_of, pieces_in-cuts_of, merged-AreCuts,
}
use normeon_german_technical.Chunking.Structural.Pieces.{
  Piece, tag, words_of, pieces_of, IsSlice, slices_lem, words_of-pieces_of,
  blocks_of-merged_sections,
}

-- The chunk number `i`, of a piece of a section: the words of the piece behind the breadcrumb.
abbrev pub IsPieceChunk : {B : Type 0} → Dict Text Text → ℕ → Chunk B → Piece B → Type 0
IsPieceChunk headings i c (path, piece) =
    (c.ordinal ≡ i)
    × (c.section_path ≡ path)
    × (c.heading ≡ breadcrumb path headings)
    × (c.content
        ≡ with_breadcrumb (breadcrumb path headings) (join (txt " ") (map (λ t. t.0) piece)))
    × (c.token_count ≡ estimate_tokens c.content)
    × IsSlice max_section_tokens piece

-- One chunk for each piece, numbered from `i`.
abbrev pub AreChunks : {B : Type 0} → Dict Text Text → ℕ → List (Chunk B) → List (Piece B) → Type 0
AreChunks headings i [] [] = Unit
AreChunks headings i (c ∷ chunks) (piece ∷ pieces) =
    IsPieceChunk headings i c piece × AreChunks headings (i + 1) chunks pieces
AreChunks headings i [] (piece ∷ pieces) = ⊥
AreChunks headings i (c ∷ chunks) [] = ⊥

AreChunks-append :
    {B : Type 0} (headings : Dict Text Text) (i j : ℕ) (cs ds : List (Chunk B))
    (ps qs : List (Piece B))
    → j ≡ i + length ps
    → AreChunks headings i cs ps
    → AreChunks headings j ds qs
    → AreChunks headings i (cs ++ ds) (ps ++ qs)
AreChunks-append headings i j [] ds [] qs e m n =
    subst (λ k. AreChunks headings k ds qs) (omega (arith, e)) n
AreChunks-append headings i j [] ds (p ∷ ps) qs e m n = absurd m
AreChunks-append headings i j (c ∷ cs) ds [] qs e m n = absurd m
AreChunks-append headings i j (c ∷ cs) ds (p ∷ ps) qs e (m, ms) n =
    (m, AreChunks-append headings (i + 1) j cs ds ps qs (omega (arith, e)) ms n)

length-tag :
    {B : Type 0} (path : Option Text) (pieces : List (List (Token B)))
    → length (tag path pieces) ≡ length pieces
length-tag path [] = refl
length-tag path (piece ∷ pieces) = ap suc (length-tag path pieces)

module _ {B : Type 0} ⦃e : Eq B⦄ (headings : Dict Text Text) where
  piece_loop-AreChunks :
      (path : Option Text) (ordinal : ℕ) (parent : Option ℕ) (pieces : List (List (Token B)))
      → All (IsSlice max_section_tokens) pieces
      → AreChunks headings ordinal
          (piece_loop path (breadcrumb path headings) ordinal parent pieces)
          (tag path pieces)
  unfolding piece_loop piece_chunk
  piece_loop-AreChunks path ordinal parent [] h = tt
  piece_loop-AreChunks path ordinal parent ([] ∷ pieces) ((h, _), hs) = absurd (omega (arith, h))
  piece_loop-AreChunks path ordinal parent ((first ∷ piece) ∷ pieces) (h, hs) = (
    (refl, refl, refl, refl, refl, h),
    piece_loop-AreChunks path (ordinal + 1) (some (parent_of parent ordinal)) pieces hs,
  )

  section_loop-AreChunks :
      (ordinal : ℕ) (groups : List (LeafSection B))
      → AreChunks headings ordinal (section_loop headings ordinal groups) (pieces_of groups)
  unfolding section_loop
  section_loop-AreChunks ordinal [] = tt
  section_loop-AreChunks ordinal (group ∷ groups) =
      let words = section_words group.blocks in
      let (_, all) =
        slices_lem (length words) max_section_tokens words (omega arith) (omega arith) in
      AreChunks-append headings ordinal (ordinal + length (section_pieces group)) _ _
        (tag group.section_path (section_pieces group)) (pieces_of groups)
        (rw (length-tag group.section_path (section_pieces group)) refl)
        (piece_loop-AreChunks group.section_path ordinal none (section_pieces group) all)
        (section_loop-AreChunks (ordinal + length (section_pieces group)) groups)

-- `StructuralChunker.chunk` divides the blocks of the document, in order and with none lost or
-- repeated, into sections, each with the path of its last block; it cuts the words of each section
-- into pieces of 1 to 800 words, again in order and with none lost or repeated, so that the pieces
-- of all sections are the words of the document; and it makes one chunk of each piece: numbered
-- from 0, with the path of its section, and with the piece behind the breadcrumb of that path.
pub structural_chunk-AreChunks :
    {B : Type 0} ⦃e : Eq B⦄ (doc : ParsedDocument B)
    → (cuts : List (Cut B)) × (blocks_in cuts ≡ doc.blocks)
      × All IsCut cuts
      × (words_of (pieces_in cuts) ≡ section_words doc.blocks)
      × AreChunks (heading_by_path [] doc.blocks) 0 (structural_chunk doc) (pieces_in cuts)
unfolding structural_chunk
structural_chunk-AreChunks doc =
    let groups = merged_sections doc.blocks in
    let pieces = pieces_in-cuts_of groups in
    (
      cuts_of groups,
      blocks_in-cuts_of groups ∙ blocks_of-merged_sections doc.blocks,
      merged-AreCuts doc.blocks,
      ap words_of pieces
          ∙ (words_of-pieces_of groups ∙ ap section_words (blocks_of-merged_sections doc.blocks)),
      subst (AreChunks (heading_by_path [] doc.blocks) 0 (structural_chunk doc)) (sym pieces)
          (section_loop-AreChunks (heading_by_path [] doc.blocks) 0 groups),
    )
