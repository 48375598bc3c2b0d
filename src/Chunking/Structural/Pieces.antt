-- ===== src/Chunking/Structural/Pieces.antt =====
-- The words of a document and the chunks of `StructuralChunker.chunk` of
-- backend/src/app/domain/chunking.py.
use normeon_german_technical.Prelude.{
  ℕ, zero, suc, ◌≤◌, ◌<◌, ◌≡◌, refl, ap, ◌∙◌, Text, Bool-cases, Option, none, some, List, [], ◌∷◌,
  ◌++◌, append-nil, append_assoc, length, length-take, length-drop, take, drop, take-append-drop,
  ltb, ◌==◌, inl, inr, nat_eq, list_eq, option_eq, pair_eq, arith, All,
}
use normeon_german_technical.Parsing.{Block}
use normeon_german_technical.Chunking.Structural.{
  Token, LeafSection, add_block, group_loop, after_pending, pending_list, merge_loop,
  merged_sections, section_words, section_pieces, slices, max_section_tokens, min_section_tokens,
  section_tokens,
}

ruleset list_laws = (append-nil, append_assoc)

abbrev pub concat {ℓ} : {A : Type ℓ} → List (List A) → List A
concat [] = []
concat (xs ∷ xss) = xs ++ concat xss

-- A slice: not empty, and `n` words at most.
abbrev pub IsSlice {ℓ} : {A : Type ℓ} → ℕ → List A → Type 0
IsSlice n words = (0 < length words) × (length words ≤ n)

pub slices_lem {ℓ} :
    {A : Type ℓ} (fuel n : ℕ) (words : List A)
    → 0 < n
    → length words ≤ fuel
    → (concat (slices fuel n words) ≡ words) × All (IsSlice n) (slices fuel n words)
unfolding slices
slices_lem zero n [] pos h = (refl, tt)
slices_lem zero n (word ∷ words) pos h = absurd (omega (arith, h))
slices_lem (suc fuel) n [] pos h = (refl, tt)
slices_lem (suc fuel) n (word ∷ words) pos h =
    let (same, all) =
      slices_lem fuel n (drop n (word ∷ words)) pos
        (omega (arith, h, pos, length-drop n (word ∷ words))) in
    (
      ap (◌++◌ (take n (word ∷ words))) same ∙ take-append-drop n (word ∷ words),
      (
        (
          omega (arith, pos, length-take n (word ∷ words)),
          omega (arith, length-take n (word ∷ words)),
        ),
        all,
      ),
    )

-- A piece of a section, with the section's path.
abbrev pub Piece : Type 0 → Type 0
Piece B = Option Text × List (Token B)

module _ {B : Type 0} where
  section_words-append :
      (xs ys : List (Block B)) → section_words (xs ++ ys) ≡ section_words xs ++ section_words ys
  unfolding section_words
  section_words-append [] ys = refl
  section_words-append (block ∷ xs) ys = simp (list_laws, section_words-append xs ys)

  -- The blocks of a list of sections, in order.
  abbrev pub blocks_of : List (LeafSection B) → List (Block B)
  blocks_of [] = []
  blocks_of (group ∷ groups) = group.blocks ++ blocks_of groups

  blocks_of-add_block :
      (groups : List (LeafSection B)) (block : Block B)
      → blocks_of (add_block groups block) ≡ blocks_of groups ++ block ∷ []
  unfolding add_block
  blocks_of-add_block [] block = refl
  blocks_of-add_block (group ∷ []) block =
      elim (Bool-cases (group.section_path == block.section_path)) [
        | inl e ↦ rw e (simp list_laws)
        | inr e ↦ rw e (simp list_laws)
      ]
  blocks_of-add_block (group ∷ next ∷ groups) block =
      simp (list_laws, blocks_of-add_block (next ∷ groups) block)

  blocks_of-group_loop :
      (groups : List (LeafSection B)) (blocks : List (Block B))
      → blocks_of (group_loop groups blocks) ≡ blocks_of groups ++ blocks
  unfolding group_loop
  blocks_of-group_loop groups [] = simp list_laws
  blocks_of-group_loop groups (block ∷ blocks) = simp (
    list_laws,
    blocks_of-group_loop (add_block groups block) blocks,
    blocks_of-add_block groups block,
  )

  blocks_of-after_pending :
      (pending : Option (LeafSection B)) (group : LeafSection B)
      → (after_pending pending group).blocks ≡ blocks_of (pending_list pending) ++ group.blocks
  blocks_of-after_pending none group = refl
  blocks_of-after_pending (some p) group = simp list_laws

  blocks_of-merge_loop :
      (pending : Option (LeafSection B)) (groups : List (LeafSection B))
      → blocks_of (merge_loop pending groups) ≡ blocks_of (pending_list pending) ++ blocks_of groups
  unfolding merge_loop
  blocks_of-merge_loop pending [] = simp list_laws
  blocks_of-merge_loop pending (group ∷ groups) =
      elim (Bool-cases (ltb (section_tokens (after_pending pending group)) min_section_tokens)) [
        | inl e ↦ rw e (
            simp (
              list_laws,
              blocks_of-merge_loop (some (after_pending pending group)) groups,
              blocks_of-after_pending pending group,
            ))
        | inr e ↦ rw e (
            simp
              (list_laws, blocks_of-merge_loop none groups, blocks_of-after_pending pending group))
      ]

  pub blocks_of-merged_sections :
      (blocks : List (Block B)) → blocks_of (merged_sections blocks) ≡ blocks
  unfolding merged_sections
  blocks_of-merged_sections blocks =
      blocks_of-merge_loop none (group_loop [] blocks) ∙ blocks_of-group_loop [] blocks

  abbrev pub tag : Option Text → List (List (Token B)) → List (Piece B)
  tag path [] = []
  tag path (piece ∷ pieces) = (path, piece) ∷ tag path pieces

  abbrev pub words_of : List (Piece B) → List (Token B)
  words_of [] = []
  words_of ((path, piece) ∷ pieces) = piece ++ words_of pieces

  -- The pieces of a list of sections.
  abbrev pub pieces_of : List (LeafSection B) → List (Piece B)
  pieces_of [] = []
  pieces_of (group ∷ groups) = tag group.section_path (section_pieces group) ++ pieces_of groups

  words_of-append : (ps qs : List (Piece B)) → words_of (ps ++ qs) ≡ words_of ps ++ words_of qs
  words_of-append [] qs = refl
  words_of-append ((path, piece) ∷ ps) qs = simp (list_laws, words_of-append ps qs)

  words_of-tag :
      (path : Option Text) (pieces : List (List (Token B)))
      → words_of (tag path pieces) ≡ concat pieces
  words_of-tag path [] = refl
  words_of-tag path (piece ∷ pieces) = ap (◌++◌ piece) (words_of-tag path pieces)

  pub words_of-pieces_of :
      (groups : List (LeafSection B))
      → words_of (pieces_of groups) ≡ section_words (blocks_of groups)
  unfolding section_words
  words_of-pieces_of [] = refl
  words_of-pieces_of (group ∷ groups) =
      let words = section_words group.blocks in
      let (same, _) =
        slices_lem (length words) max_section_tokens words (omega arith) (omega arith) in
      rw
        (
          words_of-append (tag group.section_path (section_pieces group)) (pieces_of groups),
          words_of-tag group.section_path (section_pieces group),
          same,
          words_of-pieces_of groups,
          section_words-append group.blocks (blocks_of groups),
        )
        refl
