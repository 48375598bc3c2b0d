-- ===== src/Chunking/Structural/Sections.antt =====
-- The sections of `StructuralChunker.chunk` of backend/src/app/domain/chunking.py and the path that
-- each of them carries.
use normeon_german_technical.Prelude.{
  ◌≡◌, ◌≢◌, refl, ap, sym, Text, Bool-cases, true, false, Option, none, some, List, [], ◌∷◌, ◌++◌,
  append_assoc, length, ltb, ◌==◌, ◌⊎◌, inl, inr, nat_eq, list_eq, option_eq, arith, All, ite,
}
use normeon_german_technical.Parsing.{Block}
use normeon_german_technical.Chunking.Structural.{
  Token, LeafSection, add_block, group_loop, after_pending, merge_loop, merged_sections,
  section_words, section_pieces, section_tokens, min_section_tokens, max_section_tokens,
}
use normeon_german_technical.Chunking.Structural.Pieces.{
  Piece, tag, concat, slices_lem, blocks_of, pieces_of,
}

path_eq_cases : (a b : Option Text) → (((a == b) ≡ true) × (a ≡ b)) ⊎ (((a == b) ≡ false) × (a ≢ b))
path_eq_cases a b =
    elim (option_eq.dec a b)
      as (λ d. ((ite d true false ≡ true) × (a ≡ b)) ⊎ ((ite d true false ≡ false) × (a ≢ b))) [
        | yes same ↦ inl (refl, same)
        | no other ↦ inr (refl, other)
      ]

-- A section and the pieces that its words are cut into.
abbrev pub Cut : Type 0 → Type 0
Cut B = LeafSection B × List (List (Token B))

module _ {B : Type 0} where
  -- The last block of the section has the section's path.
  abbrev pub IsSection : LeafSection B → Type 0
  IsSection group =
      (front : List (Block B)) × (block : Block B) × (group.blocks ≡ front ++ block ∷ [])
      × (block.section_path ≡ group.section_path)

  abbrev pub IsCut : Cut B → Type 0
  IsCut (group, pieces) = IsSection group × (concat pieces ≡ section_words group.blocks)

  abbrev pub blocks_in : List (Cut B) → List (Block B)
  blocks_in [] = []
  blocks_in ((group, _) ∷ cuts) = group.blocks ++ blocks_in cuts

  -- Each piece with the path of its section.
  abbrev pub pieces_in : List (Cut B) → List (Piece B)
  pieces_in [] = []
  pieces_in ((group, pieces) ∷ cuts) = tag group.section_path pieces ++ pieces_in cuts

  add_block-AreSections :
      (groups : List (LeafSection B)) (block : Block B)
      → All IsSection groups
      → All IsSection (add_block groups block)
  unfolding add_block
  add_block-AreSections [] block h = (([], block, refl, refl), tt)
  add_block-AreSections (group ∷ []) block (h, _) =
      elim (path_eq_cases group.section_path block.section_path) [
        | inl (e, same) ↦ rw e ((group.blocks, block, refl, sym same), tt)
        | inr (e, _) ↦ rw e (h, (([], block, refl, refl), tt))
      ]
  add_block-AreSections (group ∷ next ∷ groups) block (h, hs) =
      (h, add_block-AreSections (next ∷ groups) block hs)

  group_loop-AreSections :
      (groups : List (LeafSection B)) (blocks : List (Block B))
      → All IsSection groups
      → All IsSection (group_loop groups blocks)
  unfolding group_loop
  group_loop-AreSections groups [] h = h
  group_loop-AreSections groups (block ∷ blocks) h =
      group_loop-AreSections (add_block groups block) blocks (add_block-AreSections groups block h)

  after_pending-IsSection :
      (pending : Option (LeafSection B)) (group : LeafSection B)
      → IsSection group
      → IsSection (after_pending pending group)
  after_pending-IsSection none group h = h
  after_pending-IsSection (some p) group (front, block, blocks, path) =
      (p.blocks ++ front, block, rw blocks (sym (append_assoc p.blocks front (block ∷ []))), path)

  -- The pending section, if any, is one.
  abbrev IsPending : Option (LeafSection B) → Type 0
  IsPending none = Unit
  IsPending (some p) = IsSection p

  merge_loop-AreSections :
      (pending : Option (LeafSection B)) (groups : List (LeafSection B))
      → IsPending pending
      → All IsSection groups
      → All IsSection (merge_loop pending groups)
  unfolding merge_loop
  merge_loop-AreSections none [] h hs = tt
  merge_loop-AreSections (some p) [] h hs = (h, tt)
  merge_loop-AreSections pending (group ∷ groups) h (g, gs) =
      let current = after_pending-IsSection pending group g in
      elim (Bool-cases (ltb (section_tokens (after_pending pending group)) min_section_tokens)) [
        | inl e ↦
            rw e (merge_loop-AreSections (some (after_pending pending group)) groups current gs)
        | inr e ↦ rw e (current, merge_loop-AreSections none groups tt gs)
      ]

  merged-AreSections : (blocks : List (Block B)) → All IsSection (merged_sections blocks)
  unfolding merged_sections
  merged-AreSections blocks =
      merge_loop-AreSections none (group_loop [] blocks) tt (group_loop-AreSections [] blocks tt)

  -- The cuts of a list of sections.
  abbrev pub cuts_of : List (LeafSection B) → List (Cut B)
  cuts_of [] = []
  cuts_of (group ∷ groups) = (group, section_pieces group) ∷ cuts_of groups

  pub blocks_in-cuts_of :
      (groups : List (LeafSection B)) → blocks_in (cuts_of groups) ≡ blocks_of groups
  blocks_in-cuts_of [] = refl
  blocks_in-cuts_of (group ∷ groups) = ap (◌++◌ group.blocks) (blocks_in-cuts_of groups)

  pub pieces_in-cuts_of :
      (groups : List (LeafSection B)) → pieces_in (cuts_of groups) ≡ pieces_of groups
  pieces_in-cuts_of [] = refl
  pieces_in-cuts_of (group ∷ groups) =
      ap (◌++◌ (tag group.section_path (section_pieces group))) (pieces_in-cuts_of groups)

  cuts_of-AreCuts :
      (groups : List (LeafSection B)) → All IsSection groups → All IsCut (cuts_of groups)
  cuts_of-AreCuts [] h = tt
  cuts_of-AreCuts (group ∷ groups) (h, hs) =
      let words = section_words group.blocks in
      let (same, _) =
        slices_lem (length words) max_section_tokens words (omega arith) (omega arith) in
      ((h, same), cuts_of-AreCuts groups hs)

  pub merged-AreCuts : (blocks : List (Block B)) → All IsCut (cuts_of (merged_sections blocks))
  merged-AreCuts blocks = cuts_of-AreCuts (merged_sections blocks) (merged-AreSections blocks)
