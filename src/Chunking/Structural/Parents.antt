-- ===== src/Chunking/Structural/Parents.antt =====
-- The links between the chunks of a long section: `parent_ordinal` of
-- backend/src/app/domain/chunking.py.
use normeon_german_technical.Prelude.{
  ℕ, ◌+◌, ◌≡◌, ◌⊎◌, inl, inr, refl, subst, Text, Option, none, some, List, [], ◌∷◌, ◌++◌, length,
  Eq, arith, All,
}
use normeon_german_technical.Prelude.Dict.{Dict}
use normeon_german_technical.Parsing.{ParsedDocument}
use normeon_german_technical.Chunking.{Chunk}
use normeon_german_technical.Chunking.Structural.{
  Token, LeafSection, merged_sections, heading_by_path, section_words, section_pieces, breadcrumb,
  piece_chunk, piece_loop, section_loop, structural_chunk, max_section_tokens,
}
use normeon_german_technical.Chunking.Structural.Pieces.{IsSlice, slices_lem}

-- Read from the place `i` on, with the last chunk that had no parent: a chunk has no parent, or its
-- parent is that chunk, of the same section.
abbrev pub IsLinked : {B : Type 0} → Option (ℕ × Option Text) → ℕ → List (Chunk B) → Type 0
IsLinked root i [] = Unit
IsLinked root i (c ∷ chunks) =
    ((c.parent_ordinal ≡ none) × IsLinked (some (i, c.section_path)) (i + 1) chunks)
    ⊎ ((p : ℕ) × (c.parent_ordinal ≡ some p)
        × (root ≡ some (p, c.section_path))
        × IsLinked root (i + 1) chunks)

module _ {B : Type 0} ⦃e : Eq B⦄ where
  -- The pieces behind the first one.
  piece_loop-IsLinked :
      (path crumb : Option Text) (ordinal parent : ℕ) (pieces : List (List (Token B)))
      (rest : List (Chunk B))
      → All (IsSlice max_section_tokens) pieces
      → ((root : Option (ℕ × Option Text)) → IsLinked root (ordinal + length pieces) rest)
      → IsLinked
          (some (parent, path))
          ordinal
          (piece_loop path crumb ordinal (some parent) pieces ++ rest)
  unfolding piece_loop piece_chunk
  piece_loop-IsLinked path crumb ordinal parent [] rest h k =
      subst (λ i. IsLinked (some (parent, path)) i rest) (omega arith) (k (some (parent, path)))
  piece_loop-IsLinked path crumb ordinal parent ([] ∷ pieces) rest ((h, _), hs) k =
      absurd (omega (arith, h))
  piece_loop-IsLinked path crumb ordinal parent ((first ∷ piece) ∷ pieces) rest (h, hs) k = inr (
    parent,
    refl,
    refl,
    piece_loop-IsLinked path crumb (ordinal + 1) parent pieces rest hs
        (λ root. subst (λ i. IsLinked root i rest) (omega arith) (k root)),
  )

  pieces-IsLinked :
      (root : Option (ℕ × Option Text)) (path crumb : Option Text) (ordinal : ℕ)
      (pieces : List (List (Token B))) (rest : List (Chunk B))
      → All (IsSlice max_section_tokens) pieces
      → ((r : Option (ℕ × Option Text)) → IsLinked r (ordinal + length pieces) rest)
      → IsLinked root ordinal (piece_loop path crumb ordinal none pieces ++ rest)
  unfolding piece_loop piece_chunk
  pieces-IsLinked root path crumb ordinal [] rest h k =
      subst (λ i. IsLinked root i rest) (omega arith) (k root)
  pieces-IsLinked root path crumb ordinal ([] ∷ pieces) rest ((h, _), hs) k =
      absurd (omega (arith, h))
  pieces-IsLinked root path crumb ordinal ((first ∷ piece) ∷ pieces) rest (h, hs) k = inl (
    refl,
    piece_loop-IsLinked path crumb (ordinal + 1) ordinal pieces rest hs
        (λ r. subst (λ i. IsLinked r i rest) (omega arith) (k r)),
  )

  section_loop-IsLinked :
      (headings : Dict Text Text) (root : Option (ℕ × Option Text)) (ordinal : ℕ)
      (groups : List (LeafSection B))
      → IsLinked root ordinal (section_loop headings ordinal groups)
  unfolding section_loop
  section_loop-IsLinked headings root ordinal [] = tt
  section_loop-IsLinked headings root ordinal (group ∷ groups) =
      let words = section_words group.blocks in
      let (_, all) =
        slices_lem (length words) max_section_tokens words (omega arith) (omega arith) in
      pieces-IsLinked root group.section_path (breadcrumb group.section_path headings) ordinal
        (section_pieces group)
        (section_loop headings (ordinal + length (section_pieces group)) groups) all
        (λ r. section_loop-IsLinked headings r (ordinal + length (section_pieces group)) groups)

-- In the chunks of `StructuralChunker.chunk`, each chunk has no parent, or its parent is the last
-- chunk before it without one, and that chunk is of the same section.
pub structural_chunk-IsLinked :
    {B : Type 0} ⦃e : Eq B⦄ (doc : ParsedDocument B) → IsLinked none 0 (structural_chunk doc)
unfolding structural_chunk
structural_chunk-IsLinked doc =
    section_loop-IsLinked (heading_by_path [] doc.blocks) none 0 (merged_sections doc.blocks)
