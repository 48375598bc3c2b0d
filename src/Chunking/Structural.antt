-- ===== src/Chunking/Structural.antt =====
-- `StructuralChunker` of backend/src/app/domain/chunking.py.
pub mod Pieces
pub mod Sections
pub mod Chunks
pub mod Parents
use normeon_german_technical.Prelude.{
  ℕ, zero, suc, ◌+◌, Text, txt, Bool, true, false, ◌&&◌, not, Option, none, some, List, [], ◌∷◌,
  ◌++◌, map, length, take, drop, keep, ltb, ◌==◌, Eq, nat_eq, list_eq, option_eq, pair_eq,
  if◌then◌else◌,
}
use normeon_german_technical.Prelude.Words.{split, join}
use normeon_german_technical.Prelude.Dict.{Dict, lookup, insert, is_key}
use normeon_german_technical.Parsing.{Block, ParsedDocument}
use normeon_german_technical.Chunking.{
  Chunk, Region, estimate_tokens, min_page, max_page, from_keys,
}

abbrev pub min_section_tokens : ℕ
min_section_tokens = 100

abbrev pub max_section_tokens : ℕ
max_section_tokens = 800

-- `text.split(".")`
abbrev pub split_dots : Text → Text → List Text
split_dots part [] = part ∷ []
split_dots part (c ∷ text) =
    let rest = split_dots [] text in
    let longer = split_dots (part ++ c ∷ []) text in if c == b'.' then part ∷ rest else longer

-- `[".".join(parts[: i + 1]) for i in range(len(parts))]`, behind the parts of `front`.
abbrev pub ancestors : List Text → List Text → List Text
ancestors front [] = []
ancestors front (part ∷ parts) =
    join (txt ".") (front ++ part ∷ []) ∷ ancestors (front ++ part ∷ []) parts

-- `heading_by_path[code] for code in … if code in heading_by_path`
abbrev pub labels_of : Dict Text Text → List Text → List Text
labels_of heading_by_path [] = []
labels_of heading_by_path (code ∷ codes) = elim (lookup code heading_by_path) [
  | none ↦ labels_of heading_by_path codes
  | some label ↦ label ∷ labels_of heading_by_path codes
]

-- `_breadcrumb`
unfoldable pub breadcrumb : Option Text → Dict Text Text → Option Text
unfolding nat_eq list_eq
breadcrumb none heading_by_path = none
breadcrumb (some section_path) heading_by_path =
    elim (labels_of heading_by_path (ancestors [] (split_dots [] section_path))) [
      | [] ↦ none
      | label ∷ labels ↦ some (join (txt " > ") (label ∷ labels))
    ]

-- `f"{breadcrumb}\n\n{body}" if breadcrumb else body`
abbrev pub with_breadcrumb : Option Text → Text → Text
with_breadcrumb none body = body
with_breadcrumb (some []) body = body
with_breadcrumb (some (c ∷ crumb)) body = (c ∷ crumb) ++ (txt "\n\n" ++ body)

-- `words[i : i + n] for i in range(0, len(words), n)`, with a round of fuel for each word.
unfoldable pub slices {ℓ} : {A : Type ℓ} → ℕ → ℕ → List A → List (List A)
slices zero n words = []
slices (suc fuel) n [] = []
slices (suc fuel) n (word ∷ words) = take n (word ∷ words) ∷ slices fuel n (drop n (word ∷ words))

-- A word with the region of its block.
abbrev pub Token : Type 0 → Type 0
Token B = Text × Region B

pub record LeafSection (B : Type 0) : Type 0 where
  pub section_path : Option Text
  pub blocks : List (Block B)

module _ {B : Type 0} where
  -- `_LeafSection.token_count`
  unfoldable pub section_tokens : LeafSection B → ℕ
  unfolding estimate_tokens
  section_tokens group = estimate_tokens (join (txt "\n\n") (map (λ b. b.text) group.blocks))

  -- One turn of the loop of `_group_into_leaf_sections`.
  unfoldable pub add_block : List (LeafSection B) → Block B → List (LeafSection B)
  unfolding nat_eq list_eq option_eq
  add_block [] block = record { section_path = block.section_path; blocks = block ∷ [] } ∷ []
  add_block (group ∷ []) block =
      if group.section_path == block.section_path
      then (record { section_path = group.section_path; blocks = group.blocks ++ block ∷ [] } ∷ [])
      else (group ∷ record { section_path = block.section_path; blocks = block ∷ [] } ∷ [])
  add_block (group ∷ next ∷ groups) block = group ∷ add_block (next ∷ groups) block

  unfoldable pub group_loop : List (LeafSection B) → List (Block B) → List (LeafSection B)
  unfolding add_block
  group_loop groups [] = groups
  group_loop groups (block ∷ blocks) = group_loop (add_block groups block) blocks

  -- `_LeafSection(section_path=group.section_path, blocks=pending.blocks + group.blocks)`
  abbrev pub after_pending : Option (LeafSection B) → LeafSection B → LeafSection B
  after_pending none group = group
  after_pending (some pending) group = record {
    section_path = group.section_path;
    blocks = pending.blocks ++ group.blocks;
  }

  abbrev pub pending_list : Option (LeafSection B) → List (LeafSection B)
  pending_list none = []
  pending_list (some pending) = pending ∷ []

  -- `_merge_small_sections`, from a pending section on.
  unfoldable pub merge_loop : Option (LeafSection B) → List (LeafSection B) → List (LeafSection B)
  unfolding section_tokens
  merge_loop pending [] = pending_list pending
  merge_loop pending (group ∷ groups) =
      let current = after_pending pending group in
      let kept = merge_loop (some current) groups in
      let next = merge_loop none groups in
      if ltb (section_tokens current) min_section_tokens then kept else current ∷ next

  -- One turn of the loop of `_heading_by_path`.
  abbrev pub note_heading : Dict Text Text → Block B → Dict Text Text
  note_heading headings block = elim block.section_path [
    | none ↦ headings
    | some [] ↦ headings
    | some (c ∷ path) ↦
        if block.is_title && not (is_key (c ∷ path) headings)
        then insert (c ∷ path) block.text headings
        else headings
  ]

  -- `_heading_by_path`
  unfoldable pub heading_by_path : Dict Text Text → List (Block B) → Dict Text Text
  unfolding nat_eq list_eq
  heading_by_path headings [] = headings
  heading_by_path headings (block ∷ blocks) = heading_by_path (note_heading headings block) blocks

  -- The words of a section.
  unfoldable pub section_words : List (Block B) → List (Token B)
  unfolding split
  section_words [] = []
  section_words (block ∷ blocks) =
      map (λ token. (token, (block.page, block.bbox))) (split block.text) ++ section_words blocks

  abbrev pub section_pieces : LeafSection B → List (List (Token B))
  section_pieces group =
      let words = section_words group.blocks in slices (length words) max_section_tokens words

  unfoldable pub merged_sections : List (Block B) → List (LeafSection B)
  unfolding group_loop merge_loop
  merged_sections blocks = merge_loop none (group_loop [] blocks)

-- The first piece is the parent of those behind it.
abbrev pub parent_of : Option ℕ → ℕ → ℕ
parent_of none ordinal = ordinal
parent_of (some parent) ordinal = parent

module _ {B : Type 0} ⦃e : Eq B⦄ where
  -- The chunk of a piece, which is not empty.
  unfoldable pub piece_chunk :
      Option Text → Option Text → ℕ → Option ℕ → Token B → List (Token B) → Chunk B
  unfolding estimate_tokens from_keys nat_eq pair_eq
  piece_chunk section_path crumb ordinal parent_ordinal first piece =
      let content = with_breadcrumb crumb (join (txt " ") (map (λ t. t.0) (first ∷ piece))) in
      record {
        content = content;
        page_from = min_page first.1.0 (map (λ t. t.1.0) piece);
        page_to = max_page first.1.0 (map (λ t. t.1.0) piece);
        section_path = section_path;
        heading = crumb;
        ordinal = ordinal;
        token_count = estimate_tokens content;
        parent_ordinal = parent_ordinal;
        regions = from_keys [] (map (λ t. t.1) (first ∷ piece));
      }

  -- The inner loop, over the pieces of a section. An empty piece, on which `min` would raise, does
  -- not occur.
  unfoldable pub piece_loop :
      Option Text → Option Text → ℕ → Option ℕ → List (List (Token B)) → List (Chunk B)
  unfolding piece_chunk
  piece_loop section_path crumb ordinal parent_ordinal [] = []
  piece_loop section_path crumb ordinal parent_ordinal ([] ∷ pieces) = []
  piece_loop section_path crumb ordinal parent_ordinal ((first ∷ piece) ∷ pieces) =
      piece_chunk section_path crumb ordinal parent_ordinal first piece
      ∷ piece_loop section_path crumb (ordinal + 1) (some (parent_of parent_ordinal ordinal)) pieces

  -- The outer loop; a section without words has no pieces.
  unfoldable pub section_loop : Dict Text Text → ℕ → List (LeafSection B) → List (Chunk B)
  unfolding piece_loop slices breadcrumb section_words
  section_loop headings ordinal [] = []
  section_loop headings ordinal (group ∷ groups) =
      piece_loop group.section_path (breadcrumb group.section_path headings) ordinal none
        (section_pieces group)
      ++ section_loop headings (ordinal + length (section_pieces group)) groups

  -- `StructuralChunker.chunk`
  unfoldable pub structural_chunk : ParsedDocument B → List (Chunk B)
  unfolding section_loop heading_by_path merged_sections
  structural_chunk doc = section_loop (heading_by_path [] doc.blocks) 0 (merged_sections doc.blocks)
